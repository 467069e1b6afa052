-- ===== src/Infra/Metrics.antt =====
-- src/infra/metrics.py: counters, gauges and the ring of the last rejections. `R` is the type of a
-- rejection record. Saving to the database and restoring from it are not modelled.
pub mod Laws
use bobis_quote_mt5_trading.Prelude.{
  ℕ, ◌+◌, String, true, false, List, [], ◌∷◌, ◌++◌, Option, none, some, length, take_last, keep,
  ◌==◌, Eq_string,
}
use bobis_quote_mt5_trading.Prelude.Dict.{Dict, lookup_or, insert}
use bobis_quote_mt5_trading.Prelude.Floats.{Floats, num}

abbrev pub rejection_log_maxlen : ℕ
rejection_log_maxlen = 200

pub record Metrics (F R : Type 0) : Type 0 where
  pub counters : Dict String ℕ
  pub gauges : Dict String F
  pub rejections : List R

module _ {F R : Type 0} where
  unfoldable pub increment : String → ℕ → Metrics F R → Metrics F R
  increment name by m = record m {
    counters = insert name (lookup_or name 0 m.counters + by) m.counters;
  }

  unfoldable pub set_gauge : String → F → Metrics F R → Metrics F R
  set_gauge name value m = record m { gauges = insert name value m.gauges }

  unfoldable pub counter : String → Metrics F R → ℕ
  counter name m = lookup_or name 0 m.counters

  unfoldable pub gauge : ⦃fl : Floats F⦄ → String → Metrics F R → F
  gauge name m = lookup_or name (num 0) m.gauges

  unfoldable pub record_rejection : R → Metrics F R → Metrics F R
  record_rejection r m = record m {
    rejections = take_last rejection_log_maxlen (m.rejections ++ r ∷ []);
  }

  -- `rule_of` reads a record's "rule"; no rule, or the empty one, filters nothing.
  unfoldable pub recent_rejections : (R → String) → Option String → ℕ → Metrics F R → List R
  recent_rejections rule_of none limit m = take_last limit m.rejections
  recent_rejections rule_of (some rule) limit m = elim (rule == "") [
    | true ↦ take_last limit m.rejections
    | false ↦ take_last limit (keep (λ r. rule_of r == rule) m.rejections)
  ]
