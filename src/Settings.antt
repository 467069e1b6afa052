-- ===== src/Settings.antt =====
-- src/config/settings.py: what the settings must satisfy, the merging of two files, and the port of the
-- monitoring. A validation gives the first key that is out of range, or `none`.
pub mod Ranges
pub mod Merge
use bobis_quote_mt5_trading.Prelude.{
  ℕ, ◌+◌, ◌%◌, String, Bool, true, false, not, ◌&&◌, ◌||◌, ltb, nat_eq, if◌then◌else◌, Option, none,
  some, List, [], ◌∷◌, ◌++◌, ◌==◌, Eq_string,
}
use bobis_quote_mt5_trading.Prelude.Dict.{Dict, lookup}
use bobis_quote_mt5_trading.Prelude.Floats.{Floats, num, le, lt}
use bobis_quote_mt5_trading.Config.{RiskConfig, ExecutionConfig, TfOverride, EntryDriftConfig}
use bobis_quote_mt5_trading.Risk.ClusterTracker.{ClusterGroupConfig}
use bobis_quote_mt5_trading.Risk.EquityThrottle.{EquityThrottleConfig}
use bobis_quote_mt5_trading.Utils.Text.{strip, to_lower}

-- A test that fails raises, and names its key.
unfoldable pub first_error : List (Bool × String) → Option String
first_error [] = none
first_error ((bad, key) ∷ checks) = let rest = first_error checks in if bad then some key else rest

module _ {F : Type 0} ⦃fl : Floats F⦄ where
  abbrev pub out_of_range : F → Bool
  out_of_range value = le value (num 0) || le (num 100) value

  abbrev pub out_of_inclusive : F → Bool
  out_of_inclusive value = lt value (num 0) || lt (num 100) value

  -- A factor that is not above 0 and at most 1.
  abbrev pub out_of_unit : F → Bool
  out_of_unit value = not (lt (num 0) value && le value (num 1))

  unfoldable pub check_cluster_group : ClusterGroupConfig F → Option String
  check_cluster_group g = first_error (
      (le g.max_same_day_loss_r (num 0), "max_same_day_loss_r")
      ∷ (ltb g.max_concurrent_positions 1, "max_concurrent_positions")
      ∷ (ltb g.max_same_day_losses 1, "max_same_day_losses")
      ∷ (out_of_unit g.after_first_loss_risk_multiplier, "after_first_loss_risk_multiplier")
      ∷ (out_of_unit g.min_trade_risk_multiplier, "min_trade_risk_multiplier")
      ∷ [])

  unfoldable pub check_equity_throttle : EquityThrottleConfig F → Option String
  check_equity_throttle t = first_error (
      (le t.drawdown_threshold_r (num 0), "drawdown_threshold_r")
      ∷ (
        not (lt (num 0) t.release_threshold_r && le t.release_threshold_r t.drawdown_threshold_r),
        "release_threshold_r",
      )
      ∷ (out_of_unit t.risk_multiplier, "risk_multiplier")
      ∷ (ltb t.window_days 1, "window_days")
      ∷ [])

  unfoldable pub check_entry_drift : EntryDriftConfig F → Option String
  check_entry_drift d =
      first_error ((le d.max_drift_pct_of_risk (num 0), "max_drift_pct_of_risk") ∷ [])

  unfoldable pub multiplier_checks : Dict String F → List (Bool × String)
  multiplier_checks [] = []
  multiplier_checks ((symbol, multiplier) ∷ d) =
      (lt multiplier (num 0), symbol) ∷ multiplier_checks d

  unfoldable pub check_risk : RiskConfig F → Option String
  check_risk r = first_error (
      (ltb r.max_losing_streak 1, "max_losing_streak")
      ∷ (le r.balance_tier_base_threshold (num 0), "balance_tier_base_threshold")
      ∷ (
        le r.balance_tier_floor_pct (num 0)
            || lt r.balance_tier_base_cap_pct r.balance_tier_floor_pct,
        "balance_tier_floor_pct",
      )
      ∷ multiplier_checks r.symbol_risk_multiplier)

  -- A key that an entry does not have is not tested.
  abbrev pub absent_or : (F → Bool) → Option F → Bool
  absent_or test none = false
  absent_or test (some value) = test value

  unfoldable pub entry_checks : Dict String (TfOverride F) → List (Bool × String)
  entry_checks [] = []
  entry_checks ((tf_key, o) ∷ d) =
      (absent_or out_of_range o.tp1_trigger_pct, "tp1_trigger_pct")
      ∷ (absent_or out_of_inclusive o.tp1_percentage, "tp1_percentage")
      ∷ entry_checks d

  unfoldable pub override_checks : Dict String (Dict String (TfOverride F)) → List (Bool × String)
  override_checks [] = []
  override_checks ((symbol, by_tf) ∷ d) = entry_checks by_tf ++ override_checks d

  unfoldable pub check_execution : ExecutionConfig F → Option String
  check_execution e = first_error (
      (out_of_range e.tp1_trigger_pct, "tp1_trigger_pct")
      ∷ (out_of_inclusive e.tp1_percentage, "tp1_percentage")
      ∷ (nat_eq e.limit_order_expiry_seconds 0, "expiry_seconds")
      ∷ (
        lt e.breakeven_spread_multiplier (num 0)
            || (lt (num 0) e.breakeven_spread_multiplier
                && lt e.breakeven_spread_multiplier (num 1)),
        "breakeven_spread_multiplier",
      )
      ∷ (out_of_inclusive e.breakeven_max_buffer_pct_of_risk, "breakeven_max_buffer_pct_of_risk")
      ∷ override_checks e.tf_overrides)

unfoldable pub known_ports : Dict String ℕ
known_ports = ("fbs", 8091) ∷ ("exness", 8092) ∷ ("fundednext", 8093) ∷ ("deriv", 8094) ∷ []

-- zlib.crc32 is an argument.
unfoldable pub default_monitoring_port : (crc32 : String → ℕ) → (profile : String) → ℕ
default_monitoring_port crc32 profile =
    let key = to_lower (strip profile) in
    if key == ""
    then 8080
    else elim (lookup key known_ports) [ some port ↦ port | none ↦ 8100 + crc32 key % 200 ]
