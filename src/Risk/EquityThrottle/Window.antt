-- ===== src/Risk/EquityThrottle/Window.antt =====
-- The rolling window and the switch.
use bobis_quote_mt5_trading.Prelude.{
  ℕ, ◌+◌, ◌*◌, ◌≤◌, Bool, true, ◌≡◌, ◌↔◌, ◌⊎◌, refl, ap, List, [], ◌∷◌, map, keep, arith, not, ltb,
  Bool-cases, All,
}
use mathlib.Core.List.{Perm}
use mathlib.Core.List.Perm
use bobis_quote_mt5_trading.Prelude.Floats.{Floats, IsOrdered, num, le, lt}
use bobis_quote_mt5_trading.Infra.Metrics.{Metrics}
use bobis_quote_mt5_trading.Risk.EquityThrottle.Contribution.{Entry, Row, compute_drawdown_r}
use bobis_quote_mt5_trading.Risk.EquityThrottle.{
  EquityThrottle, EquityThrottleConfig, day_ms, prune, switch, refreshed, refresh, contributions,
  insert_entry, sort_entries, hydrate, preview_of, preview,
}

-- In order of the times of close.
abbrev pub IsSorted : {F : Type 0} → List (Entry F) → Type 0
IsSorted [] = Unit
IsSorted (x ∷ xs) = All (λ y. x.0 ≤ y.0) xs × IsSorted xs

abbrev pub is_recent : {F : Type 0} → ℕ → ℕ → Entry F → Bool
is_recent now days e = not (ltb (e.0 + days * day_ms) now)

module _ {F : Type 0} ⦃fl : Floats F⦄ where
  keep-All_later :
      (now days t : ℕ) (w : List (Entry F))
      → now ≤ t + days * day_ms
      → All (λ y. t ≤ y.0) w
      → keep (is_recent now days) w ≡ w
  keep-All_later now days t [] h a = refl
  keep-All_later now days t (x ∷ w) h a = ground (arith, keep-All_later now days t w h a.1)

  prune-eq-keep :
      (now days : ℕ) (w : List (Entry F))
      → IsSorted w
      → prune now days w ≡ keep (is_recent now days) w
  unfolding prune
  prune-eq-keep now days [] h = refl
  prune-eq-keep now days ((t, c) ∷ w) h =
      ground (arith, prune-eq-keep now days w h.1, keep-All_later now days t w)

  prune-prune :
      (now days : ℕ) (w : List (Entry F)) → prune now days (prune now days w) ≡ prune now days w
  unfolding prune
  prune-prune now days [] = refl
  prune-prune now days ((t, c) ∷ w) = ground (arith, prune-prune now days w)

  All-insert_entry :
      (t : ℕ) (e : Entry F) (xs : List (Entry F))
      → t ≤ e.0
      → All (λ y. t ≤ y.0) xs
      → All (λ y. t ≤ y.0) (insert_entry e xs)
  unfolding insert_entry
  All-insert_entry t e [] h a = (h, tt)
  All-insert_entry t e (x ∷ xs) h a = ground (arith, All-insert_entry t e xs h a.1)

  All-weaken :
      (t u : ℕ) (xs : List (Entry F)) → t ≤ u → All (λ y. u ≤ y.0) xs → All (λ y. t ≤ y.0) xs
  All-weaken t u [] h a = tt
  All-weaken t u (x ∷ xs) h a = (omega (arith, a.0), All-weaken t u xs h a.1)

  insert_entry-IsSorted :
      (e : Entry F) (xs : List (Entry F)) → IsSorted xs → IsSorted (insert_entry e xs)
  unfolding insert_entry
  insert_entry-IsSorted e [] h = (tt, tt)
  insert_entry-IsSorted e (x ∷ xs) h =
      ground
        (arith, insert_entry-IsSorted e xs h.1, All-insert_entry x.0 e xs, All-weaken e.0 x.0 xs)

  sort_entries-IsSorted : (xs : List (Entry F)) → IsSorted (sort_entries xs)
  unfolding sort_entries
  sort_entries-IsSorted [] = tt
  sort_entries-IsSorted (x ∷ xs) =
      insert_entry-IsSorted x (sort_entries xs) (sort_entries-IsSorted xs)

  insert_entry-perm : (e : Entry F) (xs : List (Entry F)) → Perm (insert_entry e xs) (e ∷ xs)
  unfolding insert_entry
  insert_entry-perm e [] = Perm.refl (e ∷ [])
  insert_entry-perm e (x ∷ xs) =
      let front = Perm.trans (Perm.cons x (insert_entry-perm e xs)) (Perm.swap e x xs) in
      ground (arith, front, Perm.refl (e ∷ x ∷ xs))

  sort_entries-perm : (xs : List (Entry F)) → Perm (sort_entries xs) xs
  unfolding sort_entries
  sort_entries-perm [] = Perm.refl []
  sort_entries-perm (x ∷ xs) =
      Perm.trans (insert_entry-perm x (sort_entries xs)) (Perm.cons x (sort_entries-perm xs))

  -- After a hydration the window holds, in order of the times of close, the contributions of the rows
  -- that are recent enough, each as often as the rows give it, whatever the order of the rows.
  pub hydrate_window :
      {R : Type 0} (now : ℕ) (rows : List (Row F)) (s : EquityThrottle F) (m : Metrics F R)
      → ((hydrate now rows s m).0.window
          ≡ keep (is_recent now s.config.window_days) (sort_entries (contributions rows)))
        × IsSorted (sort_entries (contributions rows))
        × Perm (sort_entries (contributions rows)) (contributions rows)
  unfolding hydrate refresh refreshed
  hydrate_window now rows s m =
      let sorted = sort_entries-IsSorted (contributions rows) in
      (
        prune-eq-keep now s.config.window_days (sort_entries (contributions rows)) sorted,
        sorted,
        sort_entries-perm (contributions rows),
      )

  switch-switch :
      (cfg : EquityThrottleConfig F) (dd : F) (was : Bool)
      → switch cfg dd (switch cfg dd was) ≡ switch cfg dd was
  unfolding switch
  switch-switch cfg dd was = ground arith

  -- Hydrating again from the same rows at the same time changes nothing.
  pub hydrate-hydrate :
      {R : Type 0} (now : ℕ) (rows : List (Row F)) (s : EquityThrottle F) (m m' : Metrics F R)
      → (hydrate now rows (hydrate now rows s m).0 m').0 ≡ (hydrate now rows s m).0
  unfolding hydrate refresh refreshed
  hydrate-hydrate now rows s m m' =
      let w = prune now s.config.window_days (sort_entries (contributions rows)) in
      let dd = compute_drawdown_r (map (λ (e : Entry F). e.1) w) in
      ap
        (λ (b : Bool).
          record (refreshed now (record s { window = sort_entries (contributions rows) })) {
            engaged = b;
          })
        (switch-switch s.config dd s.engaged)

  -- The switch goes on above the upper threshold, goes off below the lower one, and holds between.
  pub refreshed-engaged :
      (now : ℕ) (s : EquityThrottle F)
      → IsOrdered F
      → le s.config.release_threshold_r s.config.drawdown_threshold_r ≡ true
      → ((refreshed now s).engaged ≡ true) ↔ (
          (lt s.config.drawdown_threshold_r (refreshed now s).dd_r ≡ true)
          ⊎ ((s.engaged ≡ true) × (le s.config.release_threshold_r (refreshed now s).dd_r ≡ true)))
  unfolding refreshed switch
  refreshed-engaged now s o h =
      let dd =
        compute_drawdown_r (map (λ (e : Entry F). e.1) (prune now s.config.window_days s.window)) in
      let low = s.config.release_threshold_r in
      let high = s.config.drawdown_threshold_r in
      (
        λ e. ground (arith, o.le_trans low high dd h, o.le_total dd high),
        λ e. ground (arith, o.le_trans low high dd h, o.le_total dd high, e),
      )

  config-refreshed : (now : ℕ) (s : EquityThrottle F) → (refreshed now s).config ≡ s.config
  unfolding refreshed
  config-refreshed now s = refl

  -- A preview scales only while the switch is on and the throttle is enabled, and it never raises the
  -- size where the configured multiplier is at most one.
  pub preview_multiplier :
      {R : Type 0} (now : ℕ) (s : EquityThrottle F) (m : Metrics F R)
      → IsOrdered F
      → le s.config.risk_multiplier (num 1) ≡ true
      → (le (preview now s m).0.multiplier (num 1) ≡ true)
        × (((preview now s m).0.multiplier ≡ num 1)
            ⊎ (((refreshed now s).engaged ≡ true) × (s.config.enabled ≡ true)))
  unfolding preview preview_of refresh
  preview_multiplier now s m o h = ground (
    arith,
    o.le_refl (num 1),
    config-refreshed now s,
    Bool-cases (refreshed now s).engaged,
    Bool-cases s.config.enabled,
  )
