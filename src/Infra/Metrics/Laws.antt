-- ===== src/Infra/Metrics/Laws.antt =====
-- Counters count, and the ring keeps the last records.
use bobis_quote_mt5_trading.Prelude.{
  ℕ, ◌+◌, ◌-◌, ◌≤◌, ◌≡◌, String, [], ◌∷◌, ◌++◌, length, length-drop, ◌==◌, Eq_string, if◌then◌else◌,
  arith,
}
use bobis_quote_mt5_trading.Prelude.Dict.{lookup_or, lookup-insert}
use bobis_quote_mt5_trading.Infra.Metrics.{
  Metrics, increment, counter, record_rejection, rejection_log_maxlen,
}

module _ {F R : Type 0} where
  -- An increment adds to its own counter and leaves the others.
  pub counter-increment :
      (name other : String) (by : ℕ) (m : Metrics F R)
      → counter other (increment name by m)
        ≡ (if name == other then counter other m + by else counter other m)
  unfolding counter increment lookup_or
  counter-increment name other by m = ground (
    arith,
    lookup-insert name other (lookup_or name 0 m.counters + by) m.counters,
    Eq_string.beq_iff name other,
  )

  -- However many rejections are recorded, at most 200 are kept, and the latest is the last of them.
  pub record_rejection_bounded :
      (r : R) (m : Metrics F R) → length (record_rejection r m).rejections ≤ rejection_log_maxlen
  unfolding record_rejection
  record_rejection_bounded r m = omega (
    arith,
    length-drop (length (m.rejections ++ r ∷ []) - rejection_log_maxlen) (m.rejections ++ r ∷ []),
  )
