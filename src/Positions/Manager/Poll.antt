-- ===== src/Positions/Manager/Poll.antt =====
-- PositionManager._poll and _trade_stub_from_position. `load_by_ticket` reads the repository, which is not
-- modelled, from what was saved; `digits` writes a number.
use bobis_quote_mt5_trading.Prelude.{
  ℕ, ◌+◌, String, Bool, false, true, not, ◌&&◌, Option, none, some, List, [], ◌∷◌, ◌++◌, ltb,
  nat_eq, if◌then◌else◌, Eq_string, Eq_nat,
}
use bobis_quote_mt5_trading.Prelude.Dict.{lookup_or, insert, remove}
use bobis_quote_mt5_trading.Prelude.Floats.{Floats, num, truthy}
use bobis_quote_mt5_trading.Config.{ExecutionConfig}
use bobis_quote_mt5_trading.Domain.Trade.{Trade, TradePlan, TradeStatus, OrderSide}
use bobis_quote_mt5_trading.Domain.Position.{Position, PositionSide}
use bobis_quote_mt5_trading.Brokers.{Broker, Fetched, found, missing, raised}
use bobis_quote_mt5_trading.Positions.Store
use bobis_quote_mt5_trading.Positions.Store.{Store, get_by_ticket, get_open_trades}
use bobis_quote_mt5_trading.Positions.Pending.{position_by_ticket}
use bobis_quote_mt5_trading.Positions.Manager.{ManagerState, is_stub, stub_miss_limit, reached}
use bobis_quote_mt5_trading.Positions.Manager.Closing.{handle_position_gone}
use bobis_quote_mt5_trading.Positions.Manager.Tp1.{handle_tp1_price_reached}
use bobis_quote_mt5_trading.Execution.DailyLoss.{update_daily_loss}
use Prim.Native.String.{◌++◌ as join}

pub record Repository (F : Type 0) : Type 0 where
  pub load_by_ticket : List (Trade F) → ℕ → Option (Trade F)
  pub load_open_trades : List (Trade F) → Fetched (List (Trade F))
  pub digits : ℕ → String

abbrev pub side_of : PositionSide → OrderSide
side_of PositionSide.buy = OrderSide.buy
side_of PositionSide.sell = OrderSide.sell

abbrev pub side_value : OrderSide → String
side_value OrderSide.buy = "BUY"
side_value OrderSide.sell = "SELL"

module _ {F : Type 0} ⦃fl : Floats F⦄ (repo : Repository F) (now : ℕ) where
  unfoldable pub stub_id : Position F → String
  stub_id pos = join "STUB_" (
      join pos.symbol
        (join "_" (join (repo.digits pos.ticket) (join "_" (side_value (side_of pos.side))))))

  unfoldable pub trade_stub_from_position : Position F → Trade F
  unfolding stub_id
  trade_stub_from_position pos =
      let plan : TradePlan F = record {
        signal_id = "unknown";
        symbol = pos.symbol;
        side = side_of pos.side;
        entry_price = pos.open_price;
        stop_loss = pos.stop_loss;
        tp1 = pos.take_profit;
        tp2 = pos.take_profit;
        lot_size = pos.lots;
        risk_amount = num 0;
        risk_percent = num 0;
        risk_reward_ratio = num 0;
        planned_at = now;
        signal = none;
        tp1_lots = num 0;
        risk_multiplier = num 1;
      } in
      record {
        id = stub_id pos;
        signal_id = "unknown";
        symbol = pos.symbol;
        side = side_of pos.side;
        status = TradeStatus.opened;
        plan = plan;
        entry_ticket = some pos.ticket;
        entry_price = some pos.open_price;
        entry_lots = pos.lots;
        current_lots = pos.lots;
        tp1_lots = num 0;
        stop_loss = pos.stop_loss;
        tp1 = pos.take_profit;
        tp2 = pos.take_profit;
        tp1_hit = false;
        tp1_hit_at = none;
        tp1_close_price = none;
        tp2_hit = false;
        tp2_hit_at = none;
        sl_hit = false;
        sl_hit_at = none;
        opened_at = some pos.open_time;
        closed_at = none;
        close_reason = none;
        close_price = none;
        realized_pnl = none;
        realized_rr = none;
        created_at = now;
        updated_at = now;
      }

module _ {F : Type 0} where
  -- `t.entry_ticket` of the trades, where it is not 0, has the ticket.
  unfoldable pub is_tracked : ℕ → List (Trade F) → Bool
  is_tracked ticket [] = false
  is_tracked ticket (t ∷ ts) =
      let rest = is_tracked ticket ts in
      elim t.entry_ticket [
        | none ↦ rest
        | some k ↦ if not (nat_eq k 0) && nat_eq k ticket then true else rest
      ]

module _ {F B R : Type 0} ⦃fl : Floats F⦄ (repo : Repository F) (now : ℕ) where
  abbrev pub add_missing : (ticket : ℕ) → Trade F → ManagerState F B R → ManagerState F B R
  add_missing ticket trade s = elim (get_by_ticket ticket s.positions) [
    | some known ↦ s
    | none ↦ record s { positions = Store.add trade s.positions }
  ]

  abbrev pub adopt : Position F → ManagerState F B R → ManagerState F B R
  adopt pos s = elim (repo.load_by_ticket s.saved pos.ticket) [
    | some trade ↦ add_missing pos.ticket trade s
    | none ↦
        let stub = trade_stub_from_position repo now pos in
        add_missing pos.ticket stub (record s { saved = s.saved ++ stub ∷ [] })
  ]

  unfoldable pub reconcile :
      (tracked : List (Trade F)) → List (Position F) → ManagerState F B R → ManagerState F B R
  reconcile tracked [] s = s
  reconcile tracked (pos ∷ rest) s =
      reconcile tracked rest (if is_tracked pos.ticket tracked then s else adopt pos s)

module _ {F B R : Type 0} ⦃fl : Floats F⦄ (api : Broker F B) (cfg : ExecutionConfig F)
    (now : ℕ) where
  abbrev pub on_tp1 : Trade F → (ticket : ℕ) → F → ManagerState F B R → ManagerState F B R
  on_tp1 trade ticket current_price s =
      let handled = handle_tp1_price_reached api cfg now trade ticket s in
      if not trade.tp1_hit
        && not (is_stub trade)
        && truthy trade.tp1
        && reached trade.side current_price trade.tp1
      then handled
      else s

  unfoldable pub on_still_open :
      Trade F → (ticket : ℕ) → Position F → ManagerState F B R → ManagerState F B R
  on_still_open trade ticket pos s = on_tp1 trade ticket pos.current_price (record s {
    stub_miss_count = remove trade.id s.stub_miss_count;
    last_price = insert ticket pos.current_price s.last_price;
  })

  -- A stub is given up when it has been missed three times in a row.
  unfoldable pub on_absent : Trade F → (ticket : ℕ) → ManagerState F B R → Bool × ManagerState F B R
  on_absent trade ticket s =
      let misses = lookup_or trade.id 0 s.stub_miss_count + 1 in
      let forgotten = record s { stub_miss_count = remove trade.id s.stub_miss_count } in
      if is_stub trade
      then (if ltb misses stub_miss_limit
          then (true, record s { stub_miss_count = insert trade.id misses s.stub_miss_count })
          else handle_position_gone api.deal_info now trade ticket forgotten)
      else handle_position_gone api.deal_info now trade ticket s

  unfoldable pub follow :
      List (Position F) → Trade F → ManagerState F B R → Bool × ManagerState F B R
  follow open_positions trade s = elim trade.entry_ticket [
    | none ↦ (true, s)
    | some ticket ↦ elim (position_by_ticket ticket open_positions) [
      | some pos ↦ (true, on_still_open trade ticket pos s)
      | none ↦ on_absent trade ticket s
    ]
  ]

  -- An exception leaves the later trades to the next poll.
  unfoldable pub follow_all :
      List (Position F) → List (Trade F) → ManagerState F B R → Bool × ManagerState F B R
  follow_all open_positions [] s = (true, s)
  follow_all open_positions (trade ∷ trades) s =
      let followed = follow open_positions trade s in
      let others = follow_all open_positions trades followed.1 in
      elim followed.0 [ true ↦ others | false ↦ (false, followed.1) ]

module _ {F B R : Type 0} ⦃fl : Floats F⦄ (api : Broker F B) (repo : Repository F)
    (cfg : ExecutionConfig F) (daily_pnl : B → Fetched (F × F × F)) (now : ℕ) where
  abbrev pub refresh_daily : Fetched (F × F × F) → ManagerState F B R → ManagerState F B R
  refresh_daily (found (loss_pct, start_equity, current_equity)) s = record s {
    daily = update_daily_loss now loss_pct start_equity current_equity s.daily;
  }
  refresh_daily missing s = s
  refresh_daily raised s = s

  abbrev pub poll_positions : List (Position F) → ManagerState F B R → ManagerState F B R
  poll_positions open_positions s =
      let known = reconcile repo now (get_open_trades s.positions) open_positions s in
      (follow_all api cfg now open_positions (get_open_trades known.positions) known).1

  unfoldable pub poll : ManagerState F B R → ManagerState F B R
  poll s =
      let told = refresh_daily (daily_pnl s.broker) s in
      elim (api.open_positions told.broker) [
        | found open_positions ↦ poll_positions open_positions told
        | missing ↦ told
        | raised ↦ told
      ]
