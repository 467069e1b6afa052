-- ===== src/Execution/Engine.antt =====
-- ExecutionEngine of src/execution/engine.py: its state, its reservations and how it refuses a signal.
-- Counters, gauges and the trackers are those of the risk engine, which shares them. What it emits on the
-- bus and saves is kept in lists, in order. A time that is absent or 0 counts as absent where the code
-- tests its truth, and a difference of two times is a float.
pub mod Gate
pub mod Run
pub mod Balance
use bobis_quote_mt5_trading.Prelude.{
  ℕ, zero, suc, ◌+◌, ◌-◌, ◌*◌, String, Bool, true, false, Option, none, some, List, [], ◌∷◌, ◌++◌,
  nat_eq, keep, not, ◌==◌, if◌then◌else◌, Eq_string,
}
use bobis_quote_mt5_trading.Prelude.Dict.{Dict, lookup_or, insert, remove, values}
use bobis_quote_mt5_trading.Prelude.Floats.{Floats, num, sub}
use bobis_quote_mt5_trading.Infra.Metrics.{Metrics, increment, set_gauge}
use bobis_quote_mt5_trading.Domain.Signal.{InboundSignal}
use bobis_quote_mt5_trading.Domain.Trade.{Trade, TradePlan}
use bobis_quote_mt5_trading.Positions.Store.{Store}
use bobis_quote_mt5_trading.Positions.Pending.{PendingOrderStore}
use bobis_quote_mt5_trading.Risk.Rules.{RuleReason, RiskState, Rejection}

pub data EngineEvent (F : Type 0) : Type 0 where
  risk_rejected trade_error : String → EngineEvent F
  rule_rejected : RuleReason F → EngineEvent F
  risk_approved execution_attempted : EngineEvent F
  trade_planned : TradePlan F → EngineEvent F
  trade_opened : Trade F → EngineEvent F

pub record EngineState (F B : Type 0) : Type 0 where
  pub risk : RiskState F
  pub daily_loss_pct : F
  pub positions : Store F
  pub pending : Dict String ℕ
  pub pending_signal_ids : List String
  pub resting : PendingOrderStore F
  pub broker : B
  pub saved : List (Trade F)
  pub events : List (EngineEvent F)

-- The readings of the clock: at the start, before and after the order, and when the trade is built.
pub record Times : Type 0 where
  pub started : ℕ
  pub sent : ℕ
  pub filled : ℕ
  pub opened : ℕ

-- sum() of the counts.
unfoldable pub total : List ℕ → ℕ
total [] = 0
total (n ∷ ns) = n + total ns

abbrev pub contains : String → List String → Bool
contains x [] = false
contains x (y ∷ ys) = let rest = contains x ys in if y == x then true else rest

module _ {F B : Type 0} where
  unfoldable pub pending_total : EngineState F B → ℕ
  pending_total s = total (values s.pending)

  unfoldable pub pending_for : String → EngineState F B → ℕ
  pending_for symbol s = lookup_or symbol 0 s.pending

  unfoldable pub reserve : (symbol signal_id : String) → EngineState F B → EngineState F B
  reserve symbol signal_id s = record s {
    pending = insert symbol (lookup_or symbol 0 s.pending + 1) s.pending;
    pending_signal_ids = signal_id ∷ s.pending_signal_ids;
  }

  -- A count that reaches 0 leaves the dict.
  unfoldable pub release : (symbol signal_id : String) → EngineState F B → EngineState F B
  release symbol signal_id s =
      let left = lookup_or symbol 0 s.pending - 1 in
      record s {
        pending = if nat_eq left 0 then remove symbol s.pending else insert symbol left s.pending;
        pending_signal_ids = keep (λ i. not (i == signal_id)) s.pending_signal_ids;
      }

  abbrev pub emit : EngineEvent F → EngineState F B → EngineState F B
  emit e s = record s { events = s.events ++ e ∷ [] }

  abbrev pub with_metrics : Metrics F (Rejection F) → EngineState F B → EngineState F B
  with_metrics m s = record s { risk = record s.risk { metrics = m } }

  abbrev pub count : String → EngineState F B → EngineState F B
  count name s = with_metrics (increment name 1 s.risk.metrics) s

-- `a or b` of two times.
abbrev pub or_time : Option ℕ → Option ℕ → Option ℕ
or_time none b = b
or_time (some zero) b = b
or_time (some (suc n)) b = some (suc n)

module _ {F : Type 0} where
  unfoldable pub actionable_signal_at : InboundSignal F → Option ℕ
  actionable_signal_at signal =
      or_time signal.setup_candle_close_at
        (or_time signal.triggered_at (or_time signal.emitted_at signal.received_at))

module _ {F : Type 0} ⦃fl : Floats F⦄ where
  unfoldable pub elapsed : (start end : Option ℕ) → Option F
  elapsed (some a) (some b) = some (sub (num b) (num a))
  elapsed _ _ = none

  unfoldable pub set_latency_gauge :
      String → Option F → Metrics F (Rejection F) → Metrics F (Rejection F)
  set_latency_gauge name none m = m
  set_latency_gauge name (some value) m = set_gauge name value m

  unfoldable pub emit_reject_latency_gauges :
      InboundSignal F → (now : ℕ) → Metrics F (Rejection F) → Metrics F (Rejection F)
  emit_reject_latency_gauges signal now m =
      set_latency_gauge "latency.receive_to_execute_ms" (elapsed signal.received_at (some now)) (
        set_latency_gauge "latency.emit_to_receive_ms"
          (elapsed signal.emitted_at signal.received_at)
          (set_latency_gauge "latency.market_signal_age_ms"
            (elapsed (actionable_signal_at signal) (some now)) m))

module _ {F B : Type 0} ⦃fl : Floats F⦄ where
  -- The gauges of a refusal and its announcement.
  abbrev pub refuse :
      InboundSignal F → (now : ℕ) → EngineEvent F → EngineState F B → EngineState F B
  refuse signal now e s =
      emit e (with_metrics (emit_reject_latency_gauges signal now s.risk.metrics) s)
