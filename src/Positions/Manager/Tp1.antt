-- ===== src/Positions/Manager/Tp1.antt =====
-- PositionManager._handle_tp1_price_reached: the partial close at the first target and the move of the stop.
use bobis_quote_mt5_trading.Prelude.{
  ℕ, Bool, false, true, not, ◌&&◌, Option, none, some, List, [], ◌∷◌, ◌++◌, nat_eq, if◌then◌else◌,
}
use bobis_quote_mt5_trading.Prelude.Floats.{Floats, num, sub, lt}
use bobis_quote_mt5_trading.Config.{ExecutionConfig}
use bobis_quote_mt5_trading.Infra.Metrics.{increment}
use bobis_quote_mt5_trading.Domain.Trade.{Trade, TradeStatus, OrderSide, buy, sell}
use bobis_quote_mt5_trading.Domain.Position.{SymbolInfo, Tick}
use bobis_quote_mt5_trading.Brokers.{
  Broker, Fetched, found, missing, raised, CloseRequest, OrderType,
}
use bobis_quote_mt5_trading.Positions.Store
use bobis_quote_mt5_trading.Positions.Store.{Store, Patch, update}
use bobis_quote_mt5_trading.Positions.Manager.{ManagerEvent, ManagerState}
use bobis_quote_mt5_trading.Positions.Manager.Breakeven.{valid_breakeven_sl}

-- What the first step leaves for the second: the price of a partial close, if one was made, and what it
-- has fetched.
pub record Partial (F : Type 0) : Type 0 where
  pub close_price : Option F
  pub symbol_info : Option (SymbolInfo F)
  pub tick : Option (Tick F)

-- How the move of the stop ended; `deferred` leaves the handler.
pub data StopMove (F : Type 0) : Type 0 where
  moved : F → StopMove F
  unmoved deferred : StopMove F

abbrev pub position_type : OrderSide → OrderType
position_type buy = OrderType.buy
position_type sell = OrderType.sell

-- A call that raises, or gives nothing, is an exception here.
abbrev pub fetched : {A : Type 0} → Fetched A → Option A
fetched (found a) = some a
fetched missing = none
fetched raised = none

abbrev pub or_fetch : {A : Type 0} → Option A → Fetched A → Option A
or_fetch none q = fetched q
or_fetch (some a) q = some a

abbrev pub is_some : {A : Type 0} → Option A → Bool
is_some none = false
is_some (some a) = true

module _ {F : Type 0} where
  abbrev pub exit_price : OrderSide → Tick F → F
  exit_price buy tick = tick.bid
  exit_price sell tick = tick.ask

  abbrev pub nothing_done : Partial F
  nothing_done = record { close_price = none; symbol_info = none; tick = none }

  abbrev pub partial_request : Trade F → (ticket : ℕ) → F → CloseRequest F
  partial_request trade ticket price = record {
    ticket = ticket;
    symbol = trade.symbol;
    side = position_type trade.side;
    volume = trade.tp1_lots;
    price = price;
    comment = "tp1-partial";
  }

  abbrev pub new_stop : Trade F → StopMove F → F
  new_stop trade (moved sl) = sl
  new_stop trade _ = trade.stop_loss

module _ {F : Type 0} ⦃fl : Floats F⦄ (now : ℕ) where
  unfoldable pub tp1_patches : Trade F → Partial F → StopMove F → List (Patch F)
  tp1_patches trade p m =
      let closed = is_some p.close_price in
      Store.tp1_hit true
      ∷ Store.tp1_hit_at (some now)
      ∷ Store.tp1_close_price p.close_price
      ∷ Store.current_lots (
          if closed then fl.round (sub trade.current_lots trade.tp1_lots) 2 else trade.current_lots)
      ∷ Store.status (if closed then TradeStatus.partially_closed else trade.status)
      ∷ Store.stop_loss (new_stop trade m)
      ∷ []

module _ {F B R : Type 0} ⦃fl : Floats F⦄ (api : Broker F B) (cfg : ExecutionConfig F)
    (now : ℕ) where
  abbrev pub close_part :
      Trade F → ℕ → SymbolInfo F → Tick F → ManagerState F B R → Partial F × ManagerState F B R
  close_part trade ticket si tick s =
      let price = exit_price trade.side tick in
      let answer = api.close_position s.broker (partial_request trade ticket price) in
      if answer.0
      then (
        record { close_price = some price; symbol_info = some si; tick = some tick },
        record s { broker = answer.1; metrics = increment "trades.tp1_partial_close" 1 s.metrics },
      )
      else (
        record { close_price = none; symbol_info = some si; tick = some tick },
        record s { broker = answer.1 },
      )

  unfoldable pub partial_close : Trade F → ℕ → ManagerState F B R → Partial F × ManagerState F B R
  partial_close trade ticket s =
      let attempt : Partial F × ManagerState F B R = elim (api.symbol_info s.broker trade.symbol) [
        | missing ↦ (nothing_done, s)
        | raised ↦ (nothing_done, s)
        | found si ↦ elim (api.current_tick s.broker trade.symbol) [
          | missing ↦ (record nothing_done { symbol_info = some si }, s)
          | raised ↦ (record nothing_done { symbol_info = some si }, s)
          | found tick ↦ close_part trade ticket si tick s
        ]
      ] in
      if lt (num 0) trade.tp1_lots && not (nat_eq ticket 0) then attempt else (nothing_done, s)

  abbrev pub send_stop :
      Trade F → ℕ → Partial F → Option F → ManagerState F B R → StopMove F × ManagerState F B R
  send_stop trade ticket p none s = (if is_some p.close_price then unmoved else deferred, s)
  send_stop trade ticket p (some sl) s =
      let answer = api.modify_position s.broker ticket sl trade.tp2 in
      (if answer.0 then moved sl else unmoved, record s { broker = answer.1 })

  abbrev pub stop_at :
      Trade F
      → ℕ
      → Partial F
      → Option (SymbolInfo F)
      → Option (Tick F)
      → ManagerState F B R
      → StopMove F × ManagerState F B R
  stop_at trade ticket p (some si) (some tick) s =
      send_stop trade ticket p
        (valid_breakeven_sl trade si tick cfg.breakeven_spread_multiplier
          cfg.breakeven_max_buffer_pct_of_risk)
        s
  stop_at trade ticket p _ _ s = (unmoved, s)

  unfoldable pub move_stop :
      Trade F → ℕ → Partial F → ManagerState F B R → StopMove F × ManagerState F B R
  move_stop trade ticket p s =
      if cfg.move_sl_to_be_on_tp1 && not (nat_eq ticket 0)
      then stop_at trade ticket p (or_fetch p.symbol_info (api.symbol_info s.broker trade.symbol))
          (or_fetch p.tick (api.current_tick s.broker trade.symbol)) s
      else (unmoved, s)

  abbrev pub after_tp1 : ManagerState F B R → Option (Trade F) × Store F → ManagerState F B R
  after_tp1 s (none, positions) = s
  after_tp1 s (some updated, positions) = record s {
    positions = positions;
    saved = s.saved ++ updated ∷ [];
    events = s.events ++ ManagerEvent.tp1_hit updated ∷ [];
    metrics = increment "trades.tp1_hit" 1 s.metrics;
  }

  abbrev pub finish_tp1 : Trade F → Partial F → StopMove F → ManagerState F B R → ManagerState F B R
  finish_tp1 trade p deferred s = s
  finish_tp1 trade p m s = after_tp1 s (update now trade.id (tp1_patches now trade p m) s.positions)

  unfoldable pub handle_tp1_price_reached :
      Trade F → (ticket : ℕ) → ManagerState F B R → ManagerState F B R
  handle_tp1_price_reached trade ticket s =
      let first = partial_close trade ticket s in
      let second = move_stop trade ticket first.0 first.1 in
      finish_tp1 trade first.0 second.0 second.1
