-- ===== src/Config.antt =====
-- src/config/settings.py: the settings that the modelled code reads. Loading and merging of the YAML
-- files are not modelled.
use bobis_quote_mt5_trading.Prelude.{ℕ, String, Bool, Option}
use bobis_quote_mt5_trading.Prelude.Dict.{Dict}

pub record EntryDriftConfig (F : Type 0) : Type 0 where
  pub enabled : Bool
  pub max_drift_pct_of_risk : F

pub record RiskConfig (F : Type 0) : Type 0 where
  pub max_losing_streak : ℕ
  pub max_daily_loss_percent : F
  pub max_exposure_per_symbol : ℕ
  pub min_rr_ratio : F
  pub max_lot_size : F
  pub min_lot_size : F
  pub sl_ratio_threshold : F
  pub symbol_sl_ratio_threshold : Dict String F
  pub symbol_risk_multiplier : Dict String F
  pub no_hedging : Bool
  pub entry_drift : EntryDriftConfig F
  pub balance_tier_base_threshold : F
  pub balance_tier_base_cap_pct : F
  pub balance_tier_floor_pct : F

-- An entry of `tf_overrides`: the keys that the code reads.
pub record TfOverride (F : Type 0) : Type 0 where
  pub tp1_trigger_pct : Option F
  pub tp1_percentage : Option F

pub record ExecutionConfig (F : Type 0) : Type 0 where
  pub tp1_trigger_pct : F
  pub tp1_percentage : F
  pub move_sl_to_be_on_tp1 : Bool
  pub slippage : ℕ
  pub magic : ℕ
  pub spread_risk_multiplier : F
  pub order_retry_count : ℕ
  pub max_entry_slippage_pct_of_stop : F
  pub close_on_slippage_exceed : Bool
  pub breakeven_spread_multiplier : F
  pub breakeven_max_buffer_pct_of_risk : F
  pub adjust_levels_on_slippage : Bool
  pub max_signal_age_ms : ℕ
  pub tf_overrides : Dict String (Dict String (TfOverride F))
  pub limit_order_expiry_seconds : ℕ
  pub use_limit_to_stop_fallback : Bool
  pub use_gtc_fallback_on_invalid_expiration : Bool
