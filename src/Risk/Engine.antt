-- ===== src/Risk/Engine.antt =====
-- src/risk/engine.py. The log lines are left out. A rejection's record keeps the rule's data in a field
-- of its own, since no key of a rule's data is one of the record's.
pub mod Order
pub mod Multipliers
pub mod Safety
use bobis_quote_mt5_trading.Prelude.{
  ℕ, String, Bool, true, false, Option, none, some, List, [], ◌∷◌, Eq_string,
}
use Prim.Native.String.{◌++◌ as append}
use bobis_quote_mt5_trading.Prelude.Dict.{Dict, lookup, lookup_or, insert, remove}
use bobis_quote_mt5_trading.Prelude.Floats.{Floats, num, sub, mul, lt}
use bobis_quote_mt5_trading.Domain.Signal.{InboundSignal, SignalDirection, long, short}
use bobis_quote_mt5_trading.Domain.Position.{SymbolInfo}
use bobis_quote_mt5_trading.Infra.Metrics.{increment, set_gauge, record_rejection, Metrics}
use bobis_quote_mt5_trading.Risk.Rules.{
  Value, number, text, null, RuleReason, no_reason, RuleResult, RuleContext, Rejection, RiskState,
  Rule,
}

pub record RiskDecision (F : Type 0) : Type 0 where
  pub approved : Bool
  pub reason : RuleReason F
  pub data_of : Dict String (Value F)

-- `raised_no_rules` and `raised_no_number` are the exceptions of an engine without rules, and of
-- `float` on what is no number.
pub data Outcome (F : Type 0) : Type 0 where
  decided : RiskDecision F → Outcome F
  raised_no_rules raised_no_number : Outcome F

-- What the loop over the rules ends with.
pub data Verdict (F : Type 0) : Type 0 where
  failed : (rule_name : String) → RuleResult F → Verdict F
  passed : Dict String (Value F) → Verdict F

abbrev option_map : {A B : Type 0} → (A → B) → Option A → Option B
option_map f none = none
option_map f (some a) = some (f a)

module _ {F : Type 0} where
  -- `d.update(e)`
  unfoldable pub dict_update : Dict String (Value F) → Dict String (Value F) → Dict String (Value F)
  dict_update d [] = d
  dict_update d ((k, v) ∷ e) = dict_update (insert k v d) e

  unfoldable pub run_rules :
      RuleContext F → List (Rule F) → Dict String (Value F) → RiskState F → Verdict F × RiskState F
  run_rules ctx [] d s = (passed d, s)
  run_rules ctx (r ∷ rs) d s =
      let (result, s') = r.run ctx s in
      elim result.approved [
        | true ↦ run_rules ctx rs (dict_update d result.data_of) s'
        | false ↦ (failed r.name result, s')
      ]

  abbrev broker_quote : SignalDirection → SymbolInfo F → F
  broker_quote long si = si.ask
  broker_quote short si = si.bid

  unfoldable pub rejection_record :
      ⦃fl : Floats F⦄ → RuleContext F → (rule_name : String) → RuleResult F → Rejection F
  rejection_record ctx rule_name result = record {
    rule = rule_name;
    signal = ctx.signal;
    reason = result.reason;
    broker_bid = option_map (λ si. si.bid) ctx.symbol_info;
    broker_ask = option_map (λ si. si.ask) ctx.symbol_info;
    broker_fill_price = option_map (broker_quote ctx.signal.direction) ctx.symbol_info;
    broker_spread = option_map (λ si. sub si.ask si.bid) ctx.symbol_info;
    data_of = result.data_of;
  }

module _ {F : Type 0} ⦃fl : Floats F⦄ where
  -- `float(value)`
  abbrev pub float_of : Value F → Option F
  float_of (number x) = some x
  float_of (text t) = fl.parse t
  float_of null = none

  unfoldable pub risk_multiplier : RiskDecision F → Option F
  risk_multiplier d = float_of (lookup_or "risk_multiplier" (number (num 1)) d.data_of)

  -- The throttle's multiplier leaves the data and is multiplied onto the other one.
  unfoldable pub compose_multipliers : Dict String (Value F) → Option (Dict String (Value F))
  compose_multipliers d =
      let d' = remove "equity_throttle_multiplier" d in
      elim (float_of (lookup_or "equity_throttle_multiplier" (number (num 1)) d)) [
        | none ↦ none
        | some throttle ↦ elim (lt throttle (num 1)) [
          | false ↦ some d'
          | true ↦ elim (float_of (lookup_or "risk_multiplier" (number (num 1)) d')) [
            | none ↦ none
            | some m ↦ some (insert "risk_multiplier" (number (mul m throttle)) d')
          ]
        ]
      ]

  unfoldable pub set_gauges :
      Dict String (Value F) → Metrics F (Rejection F) → Metrics F (Rejection F)
  set_gauges [] m = m
  set_gauges ((key, number x) ∷ d) m = set_gauges d (set_gauge (append "risk.last_" key) x m)
  set_gauges ((key, _) ∷ d) m = set_gauges d m

  unfoldable pub log_rejection :
      RuleContext F → String → RuleResult F → Metrics F (Rejection F) → Metrics F (Rejection F)
  log_rejection ctx rule_name result m =
      record_rejection (rejection_record ctx rule_name result)
        (increment (append "risk.rejected." rule_name) 1 (increment "risk.rejected" 1 m))

  unfoldable pub conclude : RuleContext F → Verdict F × RiskState F → Outcome F × RiskState F
  conclude ctx (failed rule_name result, s) = (
    decided (record { approved = false; reason = result.reason; data_of = [] }),
    record s { metrics = log_rejection ctx rule_name result s.metrics },
  )
  conclude ctx (passed d, s) = elim (compose_multipliers d) [
    | none ↦ (raised_no_number, s)
    | some d' ↦ (
      decided (record { approved = true; reason = no_reason; data_of = d' }),
      record s { metrics = set_gauges d' (increment "risk.approved" 1 s.metrics) },
    )
  ]

  unfoldable pub evaluate : List (Rule F) → RuleContext F → RiskState F → Outcome F × RiskState F
  evaluate [] ctx s = (raised_no_rules, s)
  evaluate (r ∷ rs) ctx s = conclude ctx (run_rules ctx (r ∷ rs) [] s)
