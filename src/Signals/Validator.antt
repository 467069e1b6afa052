-- ===== src/Signals/Validator.antt =====
-- src/signals/signal_validator.py: the structure and the age of an inbound signal. `now` is what
-- now_ms() returns. The tests for an unknown direction have no counterpart, since the enumerations
-- of the signal have no other value. Logging is left out.
pub mod Sound
use bobis_quote_mt5_trading.Prelude.{
  ℕ, ◌+◌, ◌-◌, String, Bool, true, false, ◌&&◌, ltb, nat_eq, not, if◌then◌else◌, Option, none, some,
  List, [], ◌∷◌, ◌++◌,
}
use bobis_quote_mt5_trading.Prelude.Floats.{Floats, num, le, eq}
use bobis_quote_mt5_trading.Domain.Signal.{InboundSignal, HtfRange, SignalDirection, long, short}

pub data ValidationError : Type 0 where
  not_positive : (name : String) → ValidationError
  misplaced : (side name : String) → ValidationError
  empty_range : ValidationError
  no_tp_level : ValidationError
  no_created_at : ValidationError
  stale : (age max_age : ℕ) → ValidationError

pub record ValidationResult : Type 0 where
  pub valid : Bool
  pub errors : List ValidationError

unfoldable pub default_max_age_ms : ℕ
default_max_age_ms = 90_000

-- The limit of a validator made with `max_age_ms`.
unfoldable pub max_age_of : Option ℕ → ℕ
max_age_of (some ms) = ms
max_age_of none = default_max_age_ms

-- One test: whether it fails, and what it then reports.
abbrev pub Check : Type 0
Check = Bool × ValidationError

-- The errors of the tests that fail, in the order of the tests.
unfoldable pub raised : List Check → List ValidationError
raised [] = []
raised ((bad, error) ∷ checks) = let rest = raised checks in if bad then error ∷ rest else rest

module _ {F : Type 0} ⦃fl : Floats F⦄ where
  unfoldable pub price_checks : InboundSignal F → List Check
  price_checks signal =
      (le signal.entry_price (num 0), not_positive "entryPrice")
      ∷ (le signal.stop_loss (num 0), not_positive "stopLoss")
      ∷ (le signal.tp1 (num 0), not_positive "tp1")
      ∷ (le signal.tp2 (num 0), not_positive "tp2")
      ∷ []

  unfoldable pub ladder_checks : SignalDirection → InboundSignal F → List Check
  ladder_checks long signal =
      (le signal.entry_price signal.stop_loss, misplaced "LONG" "stopLoss")
      ∷ (le signal.tp1 signal.entry_price, misplaced "LONG" "tp1")
      ∷ (le signal.tp2 signal.tp1, misplaced "LONG" "tp2")
      ∷ []
  ladder_checks short signal =
      (le signal.stop_loss signal.entry_price, misplaced "SHORT" "stopLoss")
      ∷ (le signal.entry_price signal.tp1, misplaced "SHORT" "tp1")
      ∷ (le signal.tp1 signal.tp2, misplaced "SHORT" "tp2")
      ∷ []

  unfoldable pub shape_checks : InboundSignal F → List Check
  shape_checks signal =
      (le signal.risk_reward_ratio (num 0), not_positive "riskRewardRatio")
      ∷ (le signal.risk_pips (num 0), not_positive "riskPips")
      ∷ (le signal.htf_range.range_high signal.htf_range.range_low, empty_range)
      ∷ (eq signal.htf_range.tp_level (num 0), no_tp_level)
      ∷ (nat_eq signal.created_at 0, no_created_at)
      ∷ []

  -- emitted_at or created_at
  unfoldable pub reference_ms : InboundSignal F → ℕ
  reference_ms signal = elim signal.emitted_at [
    | none ↦ signal.created_at
    | some ms ↦ if nat_eq ms 0 then signal.created_at else ms
  ]

  unfoldable pub freshness_checks : (max_age now : ℕ) → InboundSignal F → List Check
  freshness_checks max_age now signal =
      let reference = reference_ms signal in
      (
        ltb 0 max_age && (ltb 0 reference && ltb (reference + max_age) now),
        stale (now - reference) max_age,
      )
      ∷ []

  unfoldable pub validate : (max_age now : ℕ) → InboundSignal F → ValidationResult
  validate max_age now signal =
      let errors : List ValidationError = raised (
        price_checks signal
        ++ ladder_checks signal.direction signal
        ++ shape_checks signal
        ++ freshness_checks max_age now signal) in
      record { valid = elim errors [ [] ↦ true | _ ∷ _ ↦ false ]; errors = errors }
