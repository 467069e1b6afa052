-- ===== src/Execution/Planner.antt =====
-- src/execution/planner.py: the plan of a trade. `keys_of` gives the texts under which the settings hold the
-- symbol and the pair of intervals; writing them is not modelled. A division by zero is an exception, and
-- its result `none`.
pub mod Lots
pub mod Bounds
use bobis_quote_mt5_trading.Prelude.{
  ℕ, String, Bool, true, false, not, ◌&&◌, ◌||◌, Option, none, some, List, [], ◌∷◌, ◌++◌,
  if◌then◌else◌, Eq_string,
}
use bobis_quote_mt5_trading.Prelude.Dict.{Dict, lookup, lookup_or}
use bobis_quote_mt5_trading.Prelude.Floats.{
  Floats, num, decimal, add, sub, mul, div, le, lt, eq, truthy, fmin, fmax, fabs,
}
use bobis_quote_mt5_trading.Config.{ExecutionConfig, RiskConfig, TfOverride}
use bobis_quote_mt5_trading.Domain.Signal.{InboundSignal, SignalDirection, long, short}
use bobis_quote_mt5_trading.Domain.Trade.{TradePlan}
use bobis_quote_mt5_trading.Domain.Position.{SymbolInfo, AccountInfo}
use bobis_quote_mt5_trading.Utils.Symbol.{normalise_symbol}
use bobis_quote_mt5_trading.Risk.ClusterTracker.{or_text}
use bobis_quote_mt5_trading.Risk.LossTracker.{
  LossTracker, daily_risk_amount, balance_tier_cap_amount,
}
use bobis_quote_mt5_trading.Execution.Engine.Gate.{side_of_direction}
use bobis_quote_mt5_trading.Execution.Planner.Lots.{LotCalcResult, calculate_lot_size}

-- The order of _resolve_tf_override: symbol and timeframe, symbol, timeframe, neither.
unfoldable pub override_candidates : (symbol tf_key : Option String) → List (String × String)
override_candidates (some s) (some t) = (s, t) ∷ (s, "*") ∷ ("*", t) ∷ ("*", "*") ∷ []
override_candidates (some s) none = (s, "*") ∷ ("*", "*") ∷ []
override_candidates none (some t) = ("*", t) ∷ ("*", "*") ∷ []
override_candidates none none = ("*", "*") ∷ []

module _ {F : Type 0} where
  -- An entry without a value is an empty dict, which is passed over.
  abbrev pub has_value : TfOverride F → Bool
  has_value o = elim o.tp1_trigger_pct [
    | some x ↦ true
    | none ↦ elim o.tp1_percentage [ some x ↦ true | none ↦ false ]
  ]

  unfoldable pub first_override :
      Dict String (Dict String (TfOverride F)) → List (String × String) → Option (TfOverride F)
  first_override overrides [] = none
  first_override overrides ((s, t) ∷ rest) =
      let later = first_override overrides rest in
      elim (lookup s overrides) [
        | none ↦ later
        | some by_tf ↦ elim (lookup t by_tf) [
          | none ↦ later
          | some o ↦ if has_value o then some o else later
        ]
      ]

  unfoldable pub resolve_tf_override :
      ExecutionConfig F → (symbol tf_key : Option String) → Option (TfOverride F)
  resolve_tf_override exec symbol tf_key =
      first_override exec.tf_overrides (override_candidates symbol tf_key)

  abbrev pub get_or : Option F → F → F
  get_or none default = default
  get_or (some x) default = x

  unfoldable pub tp1_trigger_pct_for : ExecutionConfig F → (symbol tf_key : Option String) → F
  tp1_trigger_pct_for exec symbol tf_key = elim (resolve_tf_override exec symbol tf_key) [
    | none ↦ exec.tp1_trigger_pct
    | some o ↦ get_or o.tp1_trigger_pct exec.tp1_trigger_pct
  ]

  unfoldable pub tp1_percentage_for : ExecutionConfig F → (symbol tf_key : Option String) → F
  tp1_percentage_for exec symbol tf_key = elim (resolve_tf_override exec symbol tf_key) [
    | none ↦ exec.tp1_percentage
    | some o ↦ get_or o.tp1_percentage exec.tp1_percentage
  ]

-- An offset in the direction of the trade, and against it.
module _ {F : Type 0} ⦃fl : Floats F⦄ where
  abbrev pub ahead : SignalDirection → (price offset : F) → F
  ahead long price offset = add price offset
  ahead short price offset = sub price offset

  abbrev pub behind : SignalDirection → (price offset : F) → F
  behind long price offset = sub price offset
  behind short price offset = add price offset

  unfoldable pub spread_price : SymbolInfo F → F
  spread_price si = if truthy si.ask && truthy si.bid then sub si.ask si.bid else num 0

  -- The stop that the size is computed with: the worst fill within the slippage limit, and the spread.
  unfoldable pub sizing_stop : ExecutionConfig F → InboundSignal F → SymbolInfo F → F
  sizing_stop exec signal si =
      let stop_distance = fabs (sub signal.entry_price signal.stop_loss) in
      let max_slip = mul exec.max_entry_slippage_pct_of_stop stop_distance in
      let pessimistic_entry = ahead signal.direction signal.entry_price max_slip in
      let raw_distance = fabs (sub pessimistic_entry signal.stop_loss) in
      behind signal.direction signal.entry_price
        (add raw_distance (mul (spread_price si) exec.spread_risk_multiplier))

  unfoldable pub clamped_multiplier : F → F
  clamped_multiplier m = fmax (num 0) (fmin (num 1) m)

  abbrev pub traded_symbol : InboundSignal F → String
  traded_symbol signal = or_text signal.resolved_symbol signal.symbol

  abbrev pub tier_cap_of : RiskConfig F → LossTracker F → F
  tier_cap_of risk tracker =
      balance_tier_cap_amount risk.balance_tier_base_threshold risk.balance_tier_base_cap_pct
        risk.balance_tier_floor_pct tracker

  unfoldable pub risk_amount : RiskConfig F → LossTracker F → InboundSignal F → (multiplier : F) → F
  risk_amount risk tracker signal multiplier =
      let base = daily_risk_amount risk.max_losing_streak tracker in
      let symbol_multiplier =
        lookup_or (normalise_symbol (traded_symbol signal)) (num 1) risk.symbol_risk_multiplier in
      fmin (mul (mul base (clamped_multiplier multiplier)) symbol_multiplier)
        (tier_cap_of risk tracker)

  unfoldable pub static_tp1 : InboundSignal F → (tp1_trigger_pct : F) → F
  static_tp1 signal tp1_trigger_pct =
      ahead signal.direction signal.entry_price
        (mul (div tp1_trigger_pct (num 100)) (fabs (sub signal.tp2 signal.entry_price)))

  abbrev pub step_of : SymbolInfo F → F
  step_of si = if truthy si.volume_step then si.volume_step else decimal 1 2

  abbrev pub steps : (lots step : F) → F
  steps lots step = fl.round (mul (num (fl.floor (div lots step))) step) 2

  -- What is closed at the first target; nothing, where that is less than a step, and not all.
  unfoldable pub tp1_lots_of : (lot_size tp1_trigger_pct tp1_percentage step : F) → F
  tp1_lots_of lot_size tp1_trigger_pct tp1_percentage step =
      let part = steps (mul lot_size (div tp1_percentage (num 100))) step in
      if lt (num 0) tp1_percentage && lt (num 0) tp1_trigger_pct && lt tp1_trigger_pct (num 100)
      then (if lt part step
          then num 0
          else if le lot_size part
          then steps (sub lot_size step) step
          else part)
      else num 0

abbrev pub is_long : SignalDirection → Bool
is_long long = true
is_long short = false

module _ {F : Type 0} ⦃fl : Floats F⦄ (risk : RiskConfig F) (exec : ExecutionConfig F)
    (tracker : LossTracker F) (loss_per_lot_of : String → Bool → (entry stop : F) → Option F)
    (keys_of : InboundSignal F → Option String × Option String) (now : ℕ) where
  unfoldable pub plan_with :
      InboundSignal F
      → AccountInfo F
      → SymbolInfo F
      → (multiplier : F) → LotCalcResult F
      → TradePlan F
  plan_with signal account si multiplier calc =
      let keys = keys_of signal in
      let trigger = tp1_trigger_pct_for exec keys.0 keys.1 in
      record {
        signal_id = signal.id;
        symbol = si.symbol;
        side = side_of_direction signal.direction;
        entry_price = signal.entry_price;
        stop_loss = signal.stop_loss;
        tp1 = static_tp1 signal trigger;
        tp2 = signal.tp2;
        lot_size = calc.lot_size;
        risk_amount = calc.risk_amount;
        risk_percent =
            if truthy account.balance
            then mul (div calc.risk_amount account.balance) (num 100)
            else num 0;
        risk_reward_ratio = signal.risk_reward_ratio;
        planned_at = now;
        signal = some signal;
        tp1_lots =
            tp1_lots_of calc.lot_size trigger (tp1_percentage_for exec keys.0 keys.1) (step_of si);
        risk_multiplier = clamped_multiplier multiplier;
      }

  unfoldable pub plan :
      InboundSignal F → AccountInfo F → SymbolInfo F → (multiplier : F) → Option (TradePlan F)
  plan signal account si multiplier =
      let stop = sizing_stop exec signal si in
      elim (calculate_lot_size (risk_amount risk tracker signal multiplier) si risk.max_lot_size
        risk.min_lot_size signal.entry_price stop
        (loss_per_lot_of si.symbol (is_long signal.direction) signal.entry_price stop)) [
          | none ↦ none
          | some calc ↦ some (plan_with signal account si multiplier calc)
        ]
