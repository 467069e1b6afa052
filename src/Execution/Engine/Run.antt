-- ===== src/Execution/Engine/Run.antt =====
-- ExecutionEngine.execute from the reservation on: planning, the order, the trade and the release.
-- `plan_of` is the planner, `none` where it raises, and `uuid` names a ticket's trade; `copies` says whether
-- the store could copy a trade, that is, whether `PositionStore.add` returns, and `save` whether a trade was
-- saved.
use bobis_quote_mt5_trading.Prelude.{
  ℕ, ◌+◌, ◌*◌, String, Bool, false, ◌&&◌, ◌||◌, Option, none, some, List, [], ◌∷◌, ◌++◌, length,
  ◌==◌, if◌then◌else◌, Eq_string, Eq_nat, Eq_option,
}
use bobis_quote_mt5_trading.Prelude.Dict.{insert}
use bobis_quote_mt5_trading.Prelude.Floats.{Floats, num, decimal, add, sub, lt, fabs}
use bobis_quote_mt5_trading.Config.{ExecutionConfig, RiskConfig}
use bobis_quote_mt5_trading.Infra.Metrics.{Metrics, increment, set_gauge}
use bobis_quote_mt5_trading.Domain.Signal.{InboundSignal}
use bobis_quote_mt5_trading.Domain.Trade.{Trade, TradePlan, TradeStatus}
use bobis_quote_mt5_trading.Domain.Position.{SymbolInfo, AccountInfo}
use bobis_quote_mt5_trading.Brokers.{Broker, BrokerError}
use bobis_quote_mt5_trading.Positions.Store
use bobis_quote_mt5_trading.Positions.Store.{get_open_trades}
use bobis_quote_mt5_trading.Positions.SlCascade.{cascade_sl_to_stacked_position}
use bobis_quote_mt5_trading.Positions.Pending.{PendingOrderRecord}
use bobis_quote_mt5_trading.Risk.ClusterTracker.{release_signal, mark_trade_opened}
use bobis_quote_mt5_trading.Risk.Rules.{RiskState, Rule, Rejection}
use bobis_quote_mt5_trading.Execution.Orders.{Work}
use bobis_quote_mt5_trading.Execution.Orders.Market.{MarketOutcome, placed, execute_market_order}
use bobis_quote_mt5_trading.Execution.Orders.Market as Market
use bobis_quote_mt5_trading.Execution.Orders.Limit.{LimitOutcome, resting, execute_limit_order}
use bobis_quote_mt5_trading.Execution.Orders.Limit as Limit
use bobis_quote_mt5_trading.Execution.Engine.{
  EngineState, EngineEvent, Times, release, emit, count, with_metrics, set_latency_gauge, elapsed,
  actionable_signal_at,
}
use bobis_quote_mt5_trading.Execution.Engine.Gate.{
  Admission, refused, crashed, admitted, admit, symbol_of,
}

pub record EnginePorts (F : Type 0) : Type 0 where
  pub plan_of :
      InboundSignal F → AccountInfo F → SymbolInfo F → (risk_multiplier : F) → Option (TradePlan F)
  pub copies : Trade F → Bool
  pub save : Trade F → Bool
  pub uuid : ℕ → String

-- What `execute` gives: a trade, None, or an exception.
pub data Executed (F : Type 0) : Type 0 where
  trade_of : Trade F → Executed F
  nothing raised : Executed F

module _ {F : Type 0} ⦃fl : Floats F⦄ (now : ℕ) where
  abbrev pub release_cluster : InboundSignal F → RiskState F → RiskState F
  release_cluster signal r = record r {
    cluster_tracker = elim r.cluster_tracker [
      | none ↦ none
      | some c ↦ some (release_signal now signal c)
    ];
  }

  abbrev pub mark_opened : Trade F → RiskState F → RiskState F
  mark_opened trade r = record r {
    cluster_tracker = elim r.cluster_tracker [
      | none ↦ none
      | some c ↦ some (mark_trade_opened now trade c)
    ];
  }

module _ {F B : Type 0} ⦃fl : Floats F⦄ (now : ℕ) (signal : InboundSignal F) where
  -- Both reservations are given back.
  unfoldable pub give_back : EngineState F B → EngineState F B
  give_back s =
      let freed = release (symbol_of signal) signal.id s in
      record freed { risk = release_cluster now signal freed.risk }

  -- What an order's call leaves of the broker and of the counters.
  abbrev pub after_order : Work F B (Rejection F) → EngineState F B → EngineState F B
  after_order w s = with_metrics w.metrics (record s { broker = w.broker })

module _ {F : Type 0} ⦃fl : Floats F⦄ (exec : ExecutionConfig F) where
  -- Whether the levels follow the fill.
  unfoldable pub follows_fill : (slippage : F) → Bool
  follows_fill slippage = lt (decimal 1 8) (fabs slippage) && exec.adjust_levels_on_slippage

  -- The plan as it was filled.
  unfoldable pub filled_plan : TradePlan F → (executed_price filled_volume : F) → TradePlan F
  filled_plan plan executed_price filled_volume =
      let slippage = sub executed_price plan.entry_price in
      let adjusts = follows_fill slippage in
      record plan {
        lot_size = filled_volume;
        entry_price = executed_price;
        tp1 = if adjusts then add plan.tp1 slippage else plan.tp1;
        tp2 = if adjusts then add plan.tp2 slippage else plan.tp2;
        stop_loss = if adjusts then add plan.stop_loss slippage else plan.stop_loss;
      }

module _ {F : Type 0} where
  unfoldable pub new_trade :
      (id symbol : String) → InboundSignal F → TradePlan F → (ticket ts : ℕ) → Trade F
  new_trade id symbol signal plan ticket ts = record {
    id = id;
    signal_id = signal.id;
    symbol = symbol;
    side = plan.side;
    status = TradeStatus.opened;
    plan = plan;
    entry_ticket = some ticket;
    entry_price = some plan.entry_price;
    entry_lots = plan.lot_size;
    current_lots = plan.lot_size;
    tp1_lots = plan.tp1_lots;
    stop_loss = plan.stop_loss;
    tp1 = plan.tp1;
    tp2 = plan.tp2;
    tp1_hit = false;
    tp1_hit_at = none;
    tp1_close_price = none;
    tp2_hit = false;
    tp2_hit_at = none;
    sl_hit = false;
    sl_hit_at = none;
    opened_at = some ts;
    closed_at = none;
    close_reason = none;
    close_price = none;
    realized_pnl = none;
    realized_rr = none;
    created_at = ts;
    updated_at = ts;
  }

module _ {F B : Type 0} ⦃fl : Floats F⦄ (api : Broker F B) (exec : ExecutionConfig F)
    (ports : EnginePorts F) (at : Times) (signal : InboundSignal F) where
  abbrev pub expiry_of : ℕ
  expiry_of = elim signal.limit_expiry_seconds [
    | none ↦ exec.limit_order_expiry_seconds
    | some n ↦ n
  ]

  -- PendingOrderManager.track, on the engine's state.
  abbrev pub track : (ticket : ℕ) → TradePlan F → EngineState F B → EngineState F B
  track ticket plan s =
      let order : PendingOrderRecord F = record {
        ticket = ticket;
        plan = plan;
        placed_at = at.opened;
        expiry_at = at.opened + expiry_of * 1000;
      } in
      let resting = insert ticket order s.resting in
      with_metrics (set_gauge "pending_orders.open_count" (num (length resting)) s.risk.metrics)
        (record s { resting = resting })

  abbrev pub on_limit :
      TradePlan F → LimitOutcome F → EngineState F B → Executed F × EngineState F B
  on_limit plan (resting ticket price) s = (
    nothing,
    count "orders.limit_placed_total" (release (symbol_of signal) signal.id (track ticket plan s)),
  )
  on_limit plan (Limit.failed error) s = (
    nothing,
    emit (EngineEvent.trade_error "limit_order_placement_failed")
        (count "orders.limit_placement_failed" (give_back at.sent signal s)),
  )

  unfoldable pub place_limit :
      TradePlan F → SymbolInfo F → EngineState F B → Executed F × EngineState F B
  place_limit plan si s =
      let answer = execute_limit_order api exec plan si expiry_of s.broker s.risk.metrics in
      on_limit plan answer.0 (after_order at.sent signal answer.1 s)

  abbrev pub error_reason : BrokerError → String
  error_reason error =
      if error.retcode == some 10027 || error.autotrading_disabled
      then "AUTOTRADING_DISABLED"
      else "ORDER_FAILED"

  -- The levels are sent to the broker where they follow the fill; a failure is logged.
  unfoldable pub sync_levels :
      TradePlan F → (executed_price : F) → (ticket : ℕ) → EngineState F B → EngineState F B
  sync_levels plan executed_price ticket s =
      let slippage = sub executed_price plan.entry_price in
      let answer =
        api.modify_position s.broker ticket (add plan.stop_loss slippage) (add plan.tp2 slippage) in
      if follows_fill exec slippage then record s { broker = answer.1 } else s

  abbrev pub note_failed_save : Trade F → EngineState F B → EngineState F B
  note_failed_save trade s =
      if ports.save trade
      then s
      else emit (EngineEvent.trade_error "trade_persistence_failed_after_fill")
          (count "trades.persistence_failures" s)

  abbrev pub latency_gauges : Metrics F (Rejection F) → Metrics F (Rejection F)
  latency_gauges m =
      let age : Option F = elim signal.setup_candle_close_at [
        | none ↦ elapsed (actionable_signal_at signal) (some at.started)
        | some t ↦ elapsed (some t) (some at.started)
      ] in
      set_latency_gauge "latency.signal_to_trade_ms" (elapsed signal.emitted_at (some at.opened)) (
        set_gauge "latency.broker_round_trip_ms" (sub (num at.filled) (num at.sent)) (
          set_gauge "latency.pipeline_ms" (sub (num at.opened) (num at.started)) (
            set_gauge "latency.execution_pipeline_ms" (sub (num at.opened) (num at.started)) (
              set_latency_gauge "latency.receive_to_execute_ms"
                (elapsed signal.received_at (some at.started))
                (set_latency_gauge "latency.emit_to_receive_ms"
                  (elapsed signal.emitted_at signal.received_at)
                  (set_latency_gauge "latency.market_signal_age_ms" age m))))))

  -- The trade enters the store, may move the stops of earlier ones, and is saved.
  abbrev pub store_trade : Trade F → EngineState F B → EngineState F B
  store_trade trade s =
      let moved =
        cascade_sl_to_stacked_position api.modify_position at.opened trade
          (Store.add trade s.positions, s.broker) in
      note_failed_save trade
        (record s { positions = moved.0; broker = moved.1; saved = s.saved ++ trade ∷ [] })

  abbrev pub report_opened : Trade F → EngineState F B → EngineState F B
  report_opened trade s =
      let counted = increment "trades.opened" 1 s.risk.metrics in
      with_metrics
        (latency_gauges
          (set_gauge "trades.open_count" (num (length (get_open_trades s.positions))) counted))
        (emit (EngineEvent.trade_opened trade) s)

  -- The trade is at the broker but not in the store.
  abbrev pub note_failed_tracking : Trade F → EngineState F B → EngineState F B
  note_failed_tracking trade s =
      let freed = give_back at.opened signal (record s { saved = s.saved ++ trade ∷ [] }) in
      emit (EngineEvent.trade_error "trade_tracking_failed_after_fill")
        (count "trades.tracking_failures" freed)

  abbrev pub book_trade : Trade F → EngineState F B → EngineState F B
  book_trade trade s =
      let stored = store_trade trade s in
      let marked = record stored { risk = mark_opened at.opened trade stored.risk } in
      report_opened trade (release (symbol_of signal) signal.id marked)

  unfoldable pub open_trade :
      TradePlan F
      → (ticket : ℕ) → (executed_price filled_volume : F) → EngineState F B
      → Executed F × EngineState F B
  open_trade plan ticket executed_price filled_volume s =
      let trade =
        new_trade (ports.uuid ticket) (symbol_of signal) signal
          (filled_plan exec plan executed_price filled_volume) ticket at.opened in
      let synced = sync_levels plan executed_price ticket s in
      if ports.copies trade
      then (trade_of trade, book_trade trade synced)
      else (nothing, note_failed_tracking trade synced)

  abbrev pub on_market :
      TradePlan F → MarketOutcome F → EngineState F B → Executed F × EngineState F B
  on_market plan (placed ticket executed_price filled_volume) s =
      open_trade plan ticket executed_price filled_volume s
  on_market plan (Market.failed error) s = (
    nothing,
    count "orders.rejected"
        (emit (EngineEvent.trade_error (error_reason error)) (give_back at.sent signal s)),
  )

  unfoldable pub place_market :
      TradePlan F → SymbolInfo F → EngineState F B → Executed F × EngineState F B
  place_market plan si s =
      let answer = execute_market_order api exec plan si s.broker s.risk.metrics in
      on_market plan answer.0 (after_order at.sent signal answer.1 s)

  abbrev pub on_plan :
      SymbolInfo F → Option (TradePlan F) → EngineState F B → Executed F × EngineState F B
  on_plan si none s =
      (nothing, emit (EngineEvent.trade_error "planning_failed") (give_back at.started signal s))
  on_plan si (some plan) s =
      let announced = emit (EngineEvent.trade_planned plan) s in
      if signal.entry_type == "limit"
      then place_limit plan si announced
      else place_market plan si announced

  abbrev pub proceed : Admission F × EngineState F B → Executed F × EngineState F B
  proceed (refused, s) = (nothing, s)
  proceed (crashed, s) = (raised, s)
  proceed (admitted si account multiplier, s) =
      on_plan si (ports.plan_of signal account si multiplier)
        (emit EngineEvent.execution_attempted (emit EngineEvent.risk_approved s))

  -- `minutes` is the length of the signal's higher timeframe, and 0 where it has none.
  unfoldable pub execute :
      List (Rule F) → RiskConfig F → (minutes : ℕ) → EngineState F B → Executed F × EngineState F B
  execute rules risk_config minutes s =
      proceed (admit api exec rules risk_config at.started minutes signal s)
