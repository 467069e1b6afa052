-- ===== src/Examples/EngineRuns.antt =====
-- The engine's and the rules' properties, on the sample signal.
use bobis_quote_mt5_trading.Prelude.{
  ◌==◌, if◌then◌else◌, Eq_string, ℕ, String, ◌<◌, ◌≡◌, ◌↔◌, ◌⊎◌, refl, Bool, true, false, Option,
  none, some, List, [], ◌∷◌, ◌++◌, arith, All,
}
use bobis_quote_mt5_trading.Prelude.Dict.{Dict, lookup, lookup_or}
use bobis_quote_mt5_trading.Prelude.Floats.{num, decimal}
use bobis_quote_mt5_trading.Risk.Rules.{
  no_reason, number, text, RuleContext, RiskState, Rule, Value, reads,
}
use bobis_quote_mt5_trading.Risk.Rules.Memory.{
  loss_guard_rule, cluster_risk_rule, equity_throttle_rule, is_conflict, is_duplicate,
  no_hedging_rule, duplicate_signal_rule, daily_loss_limit_rule, max_open_trades_rule,
}
use bobis_quote_mt5_trading.Risk.Rules.Live.{
  min_rr_rule, rr_on, check_rr, actual_reward_risk, resolve_fill_price,
}
use bobis_quote_mt5_trading.Utils.Price.{pip_size}
use bobis_quote_mt5_trading.Risk.LossTracker.{is_paused}
use bobis_quote_mt5_trading.Risk.Rules.All.{all_rules}
use bobis_quote_mt5_trading.Risk.Engine.{
  conclude, run_rules, set_gauges, Outcome, RiskDecision, decided, evaluate, log_rejection,
  compose_multipliers, dict_update,
}
use bobis_quote_mt5_trading.Risk.Engine.Order.{
  Passes, done, next, evaluate-first_rejection, evaluate-approved,
}
use bobis_quote_mt5_trading.Risk.Engine.Safety.{IsSafe, evaluate-IsSafe}
use bobis_quote_mt5_trading.Examples.Fixed.{Fixed, floats}
use bobis_quote_mt5_trading.Examples.Samples.{context, risk_state, metrics}

abbrev run : Outcome Fixed × RiskState Fixed
unfolding evaluate all_rules
run = evaluate all_rules context risk_state

abbrev decision : RiskDecision Fixed
decision = record {
  approved = true;
  reason = no_reason;
  data_of =
      ("cluster_name", text "majors")
      ∷ ("risk_multiplier", number (num 1))
      ∷ ("planned_cluster_risk_r", number (num 1))
      ∷ ("entry_drift_price", number (decimal 1 3))
      ∷ ("entry_drift_pct_of_risk", number (num 1))
      ∷ ("fill_price", number (decimal 1101 3))
      ∷ [];
}

run_decided : evaluate all_rules context risk_state ≡ (decided decision, run.1)
unfolding run bobis_quote_mt5_trading.Risk.Engine.evaluate
    bobis_quote_mt5_trading.Risk.Rules.All.all_rules
    bobis_quote_mt5_trading.Risk.ClusterTracker.match_signal
    bobis_quote_mt5_trading.Risk.ClusterTracker.state_for
    bobis_quote_mt5_trading.Risk.ClusterTracker.used_r
    bobis_quote_mt5_trading.Risk.ClusterTracker.planned_risk
    bobis_quote_mt5_trading.Risk.ClusterTracker.preview_state
    bobis_quote_mt5_trading.Risk.ClusterTracker.preview_of
    bobis_quote_mt5_trading.Risk.ClusterTracker.preview
    bobis_quote_mt5_trading.Risk.LossTracker.is_paused
    bobis_quote_mt5_trading.Risk.EquityThrottle.prune
    bobis_quote_mt5_trading.Risk.EquityThrottle.switch
    bobis_quote_mt5_trading.Risk.EquityThrottle.refreshed
    bobis_quote_mt5_trading.Risk.EquityThrottle.refresh
    bobis_quote_mt5_trading.Risk.EquityThrottle.preview_of
    bobis_quote_mt5_trading.Risk.EquityThrottle.preview
    bobis_quote_mt5_trading.Risk.EquityThrottle.Contribution.compute_drawdown_r
    bobis_quote_mt5_trading.Risk.Rules.Memory.loss_guard_rule
    bobis_quote_mt5_trading.Risk.Rules.Memory.cluster_risk_rule
    bobis_quote_mt5_trading.Risk.Rules.Memory.equity_throttle_rule
    bobis_quote_mt5_trading.Risk.Rules.Memory.no_hedging_rule
    bobis_quote_mt5_trading.Risk.Rules.Memory.max_open_trades_rule
    bobis_quote_mt5_trading.Risk.Rules.Memory.max_symbol_exposure_rule
    bobis_quote_mt5_trading.Risk.Rules.Memory.duplicate_signal_rule
    bobis_quote_mt5_trading.Risk.Rules.Memory.daily_loss_limit_rule
    bobis_quote_mt5_trading.Risk.Rules.Live.actual_reward_risk
    bobis_quote_mt5_trading.Risk.Rules.Live.entry_drift_rule
    bobis_quote_mt5_trading.Risk.Rules.Live.check_rr
    bobis_quote_mt5_trading.Risk.Rules.Live.min_rr_rule
    bobis_quote_mt5_trading.Risk.Rules.Live.spread_quality_rule
    bobis_quote_mt5_trading.Risk.Engine.dict_update bobis_quote_mt5_trading.Risk.Engine.run_rules
    bobis_quote_mt5_trading.Risk.Engine.compose_multipliers
    bobis_quote_mt5_trading.Risk.Engine.conclude bobis_quote_mt5_trading.Prelude.Dict.insert
    bobis_quote_mt5_trading.Prelude.Dict.lookup_or bobis_quote_mt5_trading.Positions.Store.first
    bobis_quote_mt5_trading.Utils.Price.pip_size
    bobis_quote_mt5_trading.Utils.Symbol.normalise_symbol
    bobis_quote_mt5_trading.Prelude.Dict.remove
run_decided = refl

evaluate-IsSafe_example : IsSafe context risk_state
evaluate-IsSafe_example = evaluate-IsSafe context risk_state run.1 decision run_decided refl

evaluate-approved_example :
    (e : Dict String (Value Fixed)) × (u : RiskState Fixed) × Passes context all_rules [] risk_state
      e u
    × (compose_multipliers e ≡ some decision.data_of)
evaluate-approved_example =
    evaluate-approved all_rules context risk_state run.1 decision run_decided refl

-- Three trades open: as many as the losing streak leaves slots for.
abbrev full_context : RuleContext Fixed
full_context = record context { effective_open = 3 }

abbrev guard : Rule Fixed
guard = record { name = "loss_guard_rule"; run = loss_guard_rule }

abbrev slot_rule : Rule Fixed
slot_rule = record { name = "max_open_trades_rule"; run = reads max_open_trades_rule }

guard-Passes : Passes full_context (guard ∷ []) [] risk_state [] risk_state
unfolding loss_guard_rule is_paused dict_update
guard-Passes = next refl (done refl refl)

slot_rejects : (max_open_trades_rule full_context).approved ≡ false
unfolding max_open_trades_rule
slot_rejects = refl

evaluate-first_rejection_example : evaluate (guard ∷ slot_rule ∷ []) full_context risk_state ≡ (
  decided (record {
    approved = false;
    reason = (max_open_trades_rule full_context).reason;
    data_of = [];
  }),
  record risk_state {
    metrics =
        log_rejection full_context "max_open_trades_rule"
          (max_open_trades_rule full_context)
          metrics;
  },
)
evaluate-first_rejection_example =
    evaluate-first_rejection full_context (guard ∷ []) [] slot_rule [] risk_state risk_state
      guard-Passes slot_rejects

tick_approved : (min_rr_rule context).approved ≡ true
unfolding min_rr_rule rr_on check_rr actual_reward_risk resolve_fill_price pip_size
tick_approved = refl

-- A cluster that halves the size and a throttle that halves it again.
abbrev halved : Dict String (Value Fixed)
halved =
    ("cluster_name", text "majors")
    ∷ ("risk_multiplier", number (decimal 5 1))
    ∷ ("equity_throttle_multiplier", number (decimal 5 1))
    ∷ []
