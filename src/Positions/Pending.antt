-- ===== src/Positions/Pending.antt =====
-- src/positions/pending_store.py and src/positions/pending_manager.py: resting limit orders, and the poll
-- that resolves them. The broker is a state `B` with calls that may fail. The repository, the event bus and
-- the new trade's id are outside: `save` says whether a trade was saved, the trades announced as opened are
-- listed in order, `uuid` names the trade of a ticket, and `copies` says whether the store could copy a
-- trade, that is, whether `PositionStore.add` returns. One reading of the clock serves a whole poll.
pub mod Resolve
use bobis_quote_mt5_trading.Prelude.{
  ℕ, ◌+◌, ◌*◌, String, Bool, true, false, Option, none, some, List, [], ◌∷◌, ◌++◌, length, leb,
  ◌==◌, if◌then◌else◌, Eq_nat, Eq_string,
}
use bobis_quote_mt5_trading.Prelude.Dict.{Dict, lookup, insert, remove, values}
use bobis_quote_mt5_trading.Prelude.Floats.{Floats, num}
use bobis_quote_mt5_trading.Infra.Metrics.{Metrics, increment, set_gauge}
use bobis_quote_mt5_trading.Domain.Position.{Position, PendingOrder, PositionSide}
use bobis_quote_mt5_trading.Domain.Trade.{Trade, TradePlan, OrderSide, opened}
use bobis_quote_mt5_trading.Positions.Store
use bobis_quote_mt5_trading.Positions.Store.{Store, get_open_trades}
use bobis_quote_mt5_trading.Positions.SlCascade.{cascade_sl_to_stacked_position}
use bobis_quote_mt5_trading.Risk.ClusterTracker.{ClusterTracker, mark_trade_opened, release_signal}

pub record PendingOrderRecord (F : Type 0) : Type 0 where
  pub ticket : ℕ
  pub plan : TradePlan F
  pub placed_at : ℕ
  pub expiry_at : ℕ

abbrev pub PendingOrderStore : Type 0 → Type 0
PendingOrderStore F = Dict ℕ (PendingOrderRecord F)

pub record PendingState (F B R : Type 0) : Type 0 where
  pub records : PendingOrderStore F
  pub positions : Store F
  pub cluster_tracker : Option (ClusterTracker F)
  pub metrics : Metrics F R
  pub broker : B
  pub trades_opened : List (Trade F)

-- The calls that the manager makes outside.
pub record PendingPorts (F B : Type 0) : Type 0 where
  pub modify_position : B → ℕ → (sl tp : F) → Bool × B
  pub cancel_pending_order : B → ℕ → Bool × B
  pub copies : Trade F → Bool
  pub save : Trade F → Bool
  pub uuid : ℕ → String

module _ {F : Type 0} where
  -- The last position of a ticket, as the dict comprehension keeps it.
  unfoldable pub position_by_ticket : ℕ → List (Position F) → Option (Position F)
  position_by_ticket k [] = none
  position_by_ticket k (p ∷ ps) = elim (position_by_ticket k ps) [
    | some q ↦ some q
    | none ↦ if p.ticket == k then some p else none
  ]

  unfoldable pub still_pending : ℕ → List (PendingOrder F) → Bool
  still_pending k [] = false
  still_pending k (o ∷ os) = let rest = still_pending k os in if o.ticket == k then true else rest

module _ {F B : Type 0} (ports : PendingPorts F B) (now : ℕ) where
  unfoldable pub trade_of : PendingOrderRecord F → Position F → Trade F
  trade_of r position = record {
    id = ports.uuid r.ticket;
    signal_id = r.plan.signal_id;
    symbol = r.plan.symbol;
    side = r.plan.side;
    status = opened;
    plan = r.plan;
    entry_ticket = some r.ticket;
    entry_price = some position.open_price;
    entry_lots = position.lots;
    current_lots = position.lots;
    tp1_lots = r.plan.tp1_lots;
    stop_loss = r.plan.stop_loss;
    tp1 = r.plan.tp1;
    tp2 = r.plan.tp2;
    tp1_hit = false;
    tp1_hit_at = none;
    tp1_close_price = none;
    tp2_hit = false;
    tp2_hit_at = none;
    sl_hit = false;
    sl_hit_at = none;
    opened_at = some now;
    closed_at = none;
    close_reason = none;
    close_price = none;
    realized_pnl = none;
    realized_rr = none;
    created_at = now;
    updated_at = now;
  }

abbrev side_of_order : PositionSide → OrderSide
side_of_order PositionSide.buy = OrderSide.buy
side_of_order PositionSide.sell = OrderSide.sell

module _ {F : Type 0} ⦃fl : Floats F⦄ (now : ℕ) where
  abbrev mark_opened : Trade F → Option (ClusterTracker F) → Option (ClusterTracker F)
  mark_opened trade none = none
  mark_opened trade (some c) = some (mark_trade_opened now trade c)

  -- A plan without a signal, as a restart leaves it, holds no reservation.
  unfoldable pub release_cluster_reservation :
      PendingOrderRecord F → Option (ClusterTracker F) → Option (ClusterTracker F)
  release_cluster_reservation r none = none
  release_cluster_reservation r (some c) = elim r.plan.signal [
    | none ↦ some c
    | some signal ↦ some (release_signal now signal c)
  ]

  unfoldable pub stub_from_order :
      (fallback_expiry_seconds : ℕ) → PendingOrder F → PendingOrderRecord F
  stub_from_order fallback_expiry_seconds order = record {
    ticket = order.ticket;
    plan = record {
      signal_id = "unknown";
      symbol = order.symbol;
      side = side_of_order order.side;
      entry_price = order.price;
      stop_loss = order.stop_loss;
      tp1 = order.take_profit;
      tp2 = order.take_profit;
      lot_size = order.lots;
      risk_amount = num 0;
      risk_percent = num 0;
      risk_reward_ratio = num 0;
      planned_at = order.setup_time;
      signal = none;
      tp1_lots = num 0;
      risk_multiplier = num 1;
    };
    placed_at = order.setup_time;
    expiry_at =
        if order.expiration == 0 then now + fallback_expiry_seconds * 1000 else order.expiration;
  }

  unfoldable pub add_stubs :
      (fallback_expiry_seconds : ℕ)
      → List (PendingOrder F)
      → PendingOrderStore F
      → PendingOrderStore F
  add_stubs fallback_expiry_seconds [] records = records
  add_stubs fallback_expiry_seconds (order ∷ orders) records =
      add_stubs fallback_expiry_seconds orders
        (insert order.ticket (stub_from_order fallback_expiry_seconds order) records)

module _ {F B R : Type 0} ⦃fl : Floats F⦄ (ports : PendingPorts F B) (now : ℕ) where
  abbrev count_pending : PendingOrderStore F → Metrics F R → Metrics F R
  count_pending records m = set_gauge "pending_orders.open_count" (num (length records)) m

  -- The trade is at the broker but not in the store.
  abbrev pub note_failed_tracking : PendingOrderRecord F → PendingState F B R → PendingState F B R
  note_failed_tracking r s =
      let records = remove r.ticket s.records in
      record s {
        records = records;
        metrics = count_pending records (increment "trades.tracking_failures" 1 s.metrics);
      }

  abbrev pub book_fill :
      PendingOrderRecord F → (trade : Trade F) → PendingState F B R → PendingState F B R
  book_fill r trade s =
      let moved =
        cascade_sl_to_stacked_position ports.modify_position now trade
          (Store.add trade s.positions, s.broker) in
      let records = remove r.ticket s.records in
      let saved : Metrics F R =
        if ports.save trade
        then s.metrics
        else increment "trades.persistence_failures" 1 s.metrics in
      record {
        records = records;
        positions = moved.0;
        cluster_tracker = mark_opened now trade s.cluster_tracker;
        metrics = count_pending records (
            set_gauge "trades.open_count" (num (length (get_open_trades moved.0)))
              (increment "trades.opened_from_limit_fill" 1 (increment "trades.opened" 1 saved)));
        broker = moved.1;
        trades_opened = s.trades_opened ++ trade ∷ [];
      }

  unfoldable pub handle_fill :
      PendingOrderRecord F → Position F → PendingState F B R → PendingState F B R
  handle_fill r position s =
      let trade = trade_of ports now r position in
      if ports.copies trade then book_fill r trade s else note_failed_tracking r s

  unfoldable pub drop_record :
      String → PendingOrderRecord F → PendingState F B R → PendingState F B R
  drop_record name r s =
      let records = remove r.ticket s.records in
      record s {
        records = records;
        cluster_tracker = release_cluster_reservation now r s.cluster_tracker;
        metrics = count_pending records (increment name 1 s.metrics);
      }

  unfoldable pub handle_our_expiry : PendingOrderRecord F → PendingState F B R → PendingState F B R
  handle_our_expiry r s =
      let answer = ports.cancel_pending_order s.broker r.ticket in
      elim answer.0 [
        | true ↦ drop_record "orders.limit_expired" r (record s { broker = answer.1 })
        | false ↦ record s { broker = answer.1 }
      ]

  unfoldable pub handle_vanished : PendingOrderRecord F → PendingState F B R → PendingState F B R
  handle_vanished r s = drop_record "orders.limit_vanished" r s

  -- The body of the loop over the records.
  unfoldable pub resolve :
      List (PendingOrder F)
      → List (Position F)
      → PendingOrderRecord F
      → PendingState F B R
      → PendingState F B R
  resolve orders open_positions r s = elim (position_by_ticket r.ticket open_positions) [
    | some position ↦ handle_fill r position s
    | none ↦ elim (still_pending r.ticket orders) [
      | true ↦ elim (leb r.expiry_at now) [ true ↦ handle_our_expiry r s | false ↦ s ]
      | false ↦ handle_vanished r s
    ]
  ]

  unfoldable pub resolve_all :
      List (PendingOrder F)
      → List (Position F)
      → List (PendingOrderRecord F)
      → PendingState F B R
      → PendingState F B R
  resolve_all orders open_positions [] s = s
  resolve_all orders open_positions (r ∷ rs) s =
      resolve_all orders open_positions rs (resolve orders open_positions r s)

  -- `none` is a fetch that raised. Without records the broker is not asked.
  unfoldable pub poll :
      Option (List (PendingOrder F))
      → Option (List (Position F))
      → PendingState F B R
      → PendingState F B R
  poll (some orders) (some open_positions) s =
      resolve_all orders open_positions (values s.records) s
  poll _ _ s = s

  unfoldable pub track : PendingOrderRecord F → PendingState F B R → PendingState F B R
  track r s =
      let records = insert r.ticket r s.records in
      record s { records = records; metrics = count_pending records s.metrics }

  unfoldable pub hydrate_from_broker :
      (fallback_expiry_seconds : ℕ)
      → Option (List (PendingOrder F))
      → PendingState F B R
      → PendingState F B R
  hydrate_from_broker fallback_expiry_seconds none s = s
  hydrate_from_broker fallback_expiry_seconds (some []) s = s
  hydrate_from_broker fallback_expiry_seconds (some (order ∷ orders)) s =
      let records = add_stubs now fallback_expiry_seconds (order ∷ orders) s.records in
      record s { records = records; metrics = count_pending records s.metrics }
