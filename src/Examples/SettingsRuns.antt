-- ===== src/Examples/SettingsRuns.antt =====
-- Settings that are accepted, and two files that both have a section.
use bobis_quote_mt5_trading.Prelude.{ℕ, some, none, [], ◌∷◌, ◌≡◌, refl, Eq_string}
use bobis_quote_mt5_trading.Prelude.Floats.{num}
use bobis_quote_mt5_trading.Config.{ExecutionConfig}
use bobis_quote_mt5_trading.Execution.Planner.{tp1_trigger_pct_for, tp1_percentage_for}
use bobis_quote_mt5_trading.Settings.{
  first_error, multiplier_checks, entry_checks, override_checks, check_execution, check_risk,
}
use bobis_quote_mt5_trading.Settings.Ranges.{IsOpenPct, IsPct, check_execution-InRange}
use bobis_quote_mt5_trading.Settings.Merge.{
  leaf, mapping, Entries, end, entry, get, put, deep_merge, merged, HasKeys, get-deep_merge,
}
use bobis_quote_mt5_trading.Examples.Fixed.{Fixed, floats}
use bobis_quote_mt5_trading.Examples.Samples.{config}
use bobis_quote_mt5_trading.Examples.Desk.{exec_config}

abbrev overridden : ExecutionConfig Fixed
overridden = record exec_config {
  tf_overrides =
      ("EURUSD", ("H1_M5", record { tp1_trigger_pct = some (num 70); tp1_percentage = none }) ∷ [])
      ∷ [];
}

overridden-is_accepted : check_execution overridden ≡ none
unfolding check_execution first_error override_checks entry_checks
overridden-is_accepted = refl

check_execution-InRange_example :
    IsOpenPct (tp1_trigger_pct_for overridden (some "EURUSD") (some "H1_M5"))
    × IsPct (tp1_percentage_for overridden (some "EURUSD") (some "H1_M5"))
check_execution-InRange_example =
    check_execution-InRange overridden (some "EURUSD") (some "H1_M5") overridden-is_accepted

config-is_accepted : check_risk config ≡ none
unfolding check_risk first_error multiplier_checks
config-is_accepted = refl

abbrev common : Entries ℕ
common =
    entry "monitoring" (mapping (entry "port" (leaf 8080) (entry "enabled" (leaf 1) end)))
      (entry "magic" (leaf 7) end)

abbrev of_broker : Entries ℕ
of_broker =
    entry "monitoring" (mapping (entry "port" (leaf 8094) end)) (entry "slippage" (leaf 10) end)

of_broker-HasKeys : HasKeys of_broker
unfolding get
of_broker-HasKeys = (refl, (refl, tt))

get-deep_merge_example :
    get "monitoring" (deep_merge common of_broker)
    ≡ merged (get "monitoring" common) (get "monitoring" of_broker)
get-deep_merge_example = get-deep_merge "monitoring" common of_broker of_broker-HasKeys

-- The port is the broker's, and the key that the broker does not have is kept.
merged_monitoring :
    get "monitoring" (deep_merge common of_broker)
    ≡ some (mapping (entry "port" (leaf 8094) (entry "enabled" (leaf 1) end)))
unfolding get put deep_merge
merged_monitoring = refl
