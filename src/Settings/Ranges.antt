-- ===== src/Settings/Ranges.antt =====
-- What accepted settings guarantee to the code that reads them.
use bobis_quote_mt5_trading.Prelude.{
  ◌≤◌, String, Bool, true, false, if◌then◌else◌, if_holds, ◌≡◌, refl, Option, none, some, List, [],
  ◌∷◌, ◌++◌, All, ◌==◌, Eq_string, arith,
}
use bobis_quote_mt5_trading.Prelude.Dict.{Dict, lookup}
use bobis_quote_mt5_trading.Prelude.Floats.{Floats, IsOrdered, num, le, lt}
use bobis_quote_mt5_trading.Config.{ExecutionConfig, RiskConfig, TfOverride}
use bobis_quote_mt5_trading.Risk.LossTracker.{LossTracker, balance_tier_cap_pct}
use bobis_quote_mt5_trading.Risk.LossTracker.Sizing.{tier_cap_pct_bounds}
use bobis_quote_mt5_trading.Execution.Planner.{
  override_candidates, has_value, first_override, resolve_tf_override, get_or, tp1_trigger_pct_for,
  tp1_percentage_for,
}
use bobis_quote_mt5_trading.Settings.{
  first_error, out_of_range, out_of_inclusive, absent_or, entry_checks, override_checks,
  check_execution, check_risk,
}

abbrev Passed : Bool × String → Type 0
Passed c = c.0 ≡ false

first_error-none : (cs : List (Bool × String)) → first_error cs ≡ none → All Passed cs
unfolding first_error
first_error-none [] h = tt
first_error-none ((true, key) ∷ cs) h = cc
first_error-none ((false, key) ∷ cs) h = (refl, first_error-none cs h)

All-split : (xs ys : List (Bool × String)) → All Passed (xs ++ ys) → All Passed xs × All Passed ys
All-split [] ys h = (tt, h)
All-split (x ∷ xs) ys h = let ih = All-split xs ys h.1 in ((h.0, ih.0), ih.1)

module _ {F : Type 0} ⦃fl : Floats F⦄ where
  abbrev IsEntry : TfOverride F → Type 0
  IsEntry o =
      (absent_or out_of_range o.tp1_trigger_pct ≡ false)
      × (absent_or out_of_inclusive o.tp1_percentage ≡ false)

  abbrev EachEntry : Option (TfOverride F) → Type 0
  EachEntry none = Unit
  EachEntry (some o) = IsEntry o

  lookup-EachEntry :
      (tf_key : String) (d : Dict String (TfOverride F))
      → All Passed (entry_checks d)
      → EachEntry (lookup tf_key d)
  unfolding lookup entry_checks
  lookup-EachEntry tf_key [] h = tt
  lookup-EachEntry tf_key ((k, o) ∷ d) h =
      if_holds EachEntry (k == tf_key) (some o) (lookup tf_key d) (λ _. (h.0, h.1.0))
        (λ _. lookup-EachEntry tf_key d h.1.1)

  abbrev EachTable : Option (Dict String (TfOverride F)) → Type 0
  EachTable none = Unit
  EachTable (some d) = All Passed (entry_checks d)

  lookup-EachTable :
      (symbol : String) (d : Dict String (Dict String (TfOverride F)))
      → All Passed (override_checks d)
      → EachTable (lookup symbol d)
  unfolding lookup override_checks
  lookup-EachTable symbol [] h = tt
  lookup-EachTable symbol ((k, by_tf) ∷ d) h =
      let parts = All-split (entry_checks by_tf) (override_checks d) h in
      if_holds EachTable (k == symbol) (some by_tf) (lookup symbol d) (λ _. parts.0)
        (λ _. lookup-EachTable symbol d parts.1)

  from_table :
      (tf_key : String) (table : Option (Dict String (TfOverride F)))
      (later : Option (TfOverride F))
      → EachTable table
      → EachEntry later
      → EachEntry (elim table [
        | none ↦ later
        | some by_tf ↦ elim (lookup tf_key by_tf) [
          | none ↦ later
          | some o ↦ if has_value o then some o else later
        ]
      ])
  from_table tf_key none later h k = k
  from_table tf_key (some by_tf) later h k =
      from_entry (lookup tf_key by_tf) (lookup-EachEntry tf_key by_tf h)
    where
      from_entry :
          (found : Option (TfOverride F))
          → EachEntry found
          → EachEntry (elim found [ none ↦ later | some o ↦ if has_value o then some o else later ])
      from_entry none e = k
      from_entry (some o) e = if_holds EachEntry (has_value o) (some o) later (λ _. e) (λ _. k)

  first_override-EachEntry :
      (overrides : Dict String (Dict String (TfOverride F))) (candidates : List (String × String))
      → All Passed (override_checks overrides)
      → EachEntry (first_override overrides candidates)
  unfolding first_override
  first_override-EachEntry overrides [] h = tt
  first_override-EachEntry overrides ((s, t) ∷ rest) h =
      from_table t (lookup s overrides) _ (lookup-EachTable s overrides h)
        (first_override-EachEntry overrides rest h)

  -- A percentage strictly between 0 and 100, and one from 0 to 100.
  abbrev pub IsOpenPct : F → Type 0
  IsOpenPct value = (lt (num 0) value ≡ true) × (lt value (num 100) ≡ true)

  abbrev pub IsPct : F → Type 0
  IsPct value = (le (num 0) value ≡ true) × (le value (num 100) ≡ true)

  out_of_range-IsOpenPct : (value : F) → out_of_range value ≡ false → IsOpenPct value
  out_of_range-IsOpenPct value h = ground (arith, h)

  out_of_inclusive-IsPct : (value : F) → out_of_inclusive value ≡ false → IsPct value
  out_of_inclusive-IsPct value h = ground (arith, h)

  trigger_or :
      (entry : Option F) (default : F)
      → absent_or out_of_range entry ≡ false
      → out_of_range default ≡ false
      → IsOpenPct (get_or entry default)
  trigger_or none default h k = out_of_range-IsOpenPct default k
  trigger_or (some value) default h k = out_of_range-IsOpenPct value h

  percentage_or :
      (entry : Option F) (default : F)
      → absent_or out_of_inclusive entry ≡ false
      → out_of_inclusive default ≡ false
      → IsPct (get_or entry default)
  percentage_or none default h k = out_of_inclusive-IsPct default k
  percentage_or (some value) default h k = out_of_inclusive-IsPct value h

  resolved-InRange :
      (exec : ExecutionConfig F) (found : Option (TfOverride F))
      → EachEntry found
      → out_of_range exec.tp1_trigger_pct ≡ false
      → out_of_inclusive exec.tp1_percentage ≡ false
      → IsOpenPct (elim found [
        | none ↦ exec.tp1_trigger_pct
        | some o ↦ get_or o.tp1_trigger_pct exec.tp1_trigger_pct
      ])
        × IsPct (elim found [
          | none ↦ exec.tp1_percentage
          | some o ↦ get_or o.tp1_percentage exec.tp1_percentage
        ])
  resolved-InRange exec none e h k = (out_of_range-IsOpenPct _ h, out_of_inclusive-IsPct _ k)
  resolved-InRange exec (some o) e h k = (
    trigger_or o.tp1_trigger_pct exec.tp1_trigger_pct e.0 h,
    percentage_or o.tp1_percentage exec.tp1_percentage e.1 k,
  )

  -- With execution settings that are accepted, the trigger of the first target lies strictly between 0 and
  -- 100 percent, and the part that is closed there between 0 and 100, for every symbol and timeframe,
  -- whatever overrides the settings hold.
  pub check_execution-InRange :
      (exec : ExecutionConfig F) (symbol tf_key : Option String)
      → check_execution exec ≡ none
      → IsOpenPct (tp1_trigger_pct_for exec symbol tf_key)
        × IsPct (tp1_percentage_for exec symbol tf_key)
  unfolding check_execution tp1_trigger_pct_for tp1_percentage_for resolve_tf_override
  check_execution-InRange exec symbol tf_key h =
      let passed = first_error-none _ h in
      resolved-InRange exec _
        (first_override-EachEntry exec.tf_overrides (override_candidates symbol tf_key)
          passed.1.1.1.1.1)
        passed.0 passed.1.0

  -- With risk settings that are accepted, the ceiling of the balance tiers lies between its floor, which is
  -- above 0, and the base ceiling, at every balance, and at least one losing trade is planned for.
  pub check_risk-IsCapped :
      (o : IsOrdered F) (risk : RiskConfig F) (tracker : LossTracker F)
      → check_risk risk ≡ none
      → (1 ≤ risk.max_losing_streak)
        × (lt (num 0) risk.balance_tier_floor_pct ≡ true)
        × (le risk.balance_tier_floor_pct (
              balance_tier_cap_pct risk.balance_tier_base_threshold risk.balance_tier_base_cap_pct
                risk.balance_tier_floor_pct tracker)
            ≡ true)
        × (le
              (balance_tier_cap_pct risk.balance_tier_base_threshold risk.balance_tier_base_cap_pct
                risk.balance_tier_floor_pct tracker)
              risk.balance_tier_base_cap_pct
            ≡ true)
  unfolding check_risk balance_tier_cap_pct
  check_risk-IsCapped o risk tracker h =
      let passed = first_error-none _ h in
      let streak : 1 ≤ risk.max_losing_streak = ground (arith, passed.0) in
      let floor_pos : lt (num 0) risk.balance_tier_floor_pct ≡ true =
        ground (arith, passed.1.1.0) in
      let cap : le risk.balance_tier_floor_pct risk.balance_tier_base_cap_pct ≡ true =
        ground (arith, passed.1.1.0) in
      let positive : le (num 0) risk.balance_tier_floor_pct ≡ true =
        ground (arith, floor_pos, o.le_total (num 0) risk.balance_tier_floor_pct) in
      let bounds =
        tier_cap_pct_bounds o tracker.start_of_day_equity risk.balance_tier_base_threshold
          risk.balance_tier_base_cap_pct risk.balance_tier_floor_pct positive cap in
      (streak, floor_pos, bounds.0, bounds.1)
