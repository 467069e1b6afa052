-- ===== src/Risk/Rules/All.antt =====
-- ALL_RULES, in its order.
use bobis_quote_mt5_trading.Prelude.{List, [], ◌∷◌}
use bobis_quote_mt5_trading.Prelude.Floats.{Floats}
use bobis_quote_mt5_trading.Risk.Rules.{Rule, reads}
use bobis_quote_mt5_trading.Risk.Rules.Memory.{
  loss_guard_rule, cluster_risk_rule, equity_throttle_rule, no_hedging_rule, max_open_trades_rule,
  max_symbol_exposure_rule, duplicate_signal_rule, daily_loss_limit_rule,
}
use bobis_quote_mt5_trading.Risk.Rules.Live.{entry_drift_rule, min_rr_rule, spread_quality_rule}

module _ {F : Type 0} ⦃fl : Floats F⦄ where
  unfoldable pub all_rules : List (Rule F)
  all_rules =
      record { name = "loss_guard_rule"; run = loss_guard_rule }
      ∷ record { name = "cluster_risk_rule"; run = cluster_risk_rule }
      ∷ record { name = "equity_throttle_rule"; run = equity_throttle_rule }
      ∷ record { name = "no_hedging_rule"; run = reads no_hedging_rule }
      ∷ record { name = "max_open_trades_rule"; run = reads max_open_trades_rule }
      ∷ record { name = "max_symbol_exposure_rule"; run = reads max_symbol_exposure_rule }
      ∷ record { name = "duplicate_signal_rule"; run = reads duplicate_signal_rule }
      ∷ record { name = "daily_loss_limit_rule"; run = reads daily_loss_limit_rule }
      ∷ record { name = "entry_drift_rule"; run = reads entry_drift_rule }
      ∷ record { name = "min_rr_rule"; run = reads min_rr_rule }
      ∷ record { name = "spread_quality_rule"; run = reads spread_quality_rule }
      ∷ []
