-- ===== src/Signals/Validator/Sound.antt =====
-- Which signals the validator lets through.
use bobis_quote_mt5_trading.Prelude.{
  ℕ, ◌+◌, ◌≤◌, Bool, true, false, ◌≡◌, refl, ◌⊎◌, ◌↔◌, List, [], ◌∷◌, ◌++◌, All, arith,
}
use bobis_quote_mt5_trading.Prelude.Floats.{Floats, IsOrdered, num, le, lt, eq}
use bobis_quote_mt5_trading.Domain.Signal.{InboundSignal, SignalDirection, long, short}
use bobis_quote_mt5_trading.Signals.Validator.{
  ValidationError, Check, raised, price_checks, ladder_checks, shape_checks, reference_ms,
  freshness_checks, validate,
}

abbrev is_silent : List ValidationError → Bool
is_silent errors = elim errors [ [] ↦ true | _ ∷ _ ↦ false ]

-- No error is raised where no test fails, and only there.
is_silent-raised : (cs : List Check) → (is_silent (raised cs) ≡ true) ↔ All (λ c. c.0 ≡ false) cs
unfolding raised
is_silent-raised [] = (λ _. tt, λ _. refl)
is_silent-raised ((true, e) ∷ cs) = (λ h. cc, λ h. cc (h.0))
is_silent-raised ((false, e) ∷ cs) =
    (λ h. (refl, (is_silent-raised cs).0 h), λ h. (is_silent-raised cs).1 (h.1))

-- Of an append, from both parts and to both parts.
All-halves : (P : Check → Type 0) (xs ys : List Check) → All P (xs ++ ys) ↔ (All P xs × All P ys)
All-halves P [] ys = (λ h. (tt, h), λ h. h.1)
All-halves P (x ∷ xs) ys =
    let ih = All-halves P xs ys in
    (λ h. ((h.0, (ih.0 h.1).0), (ih.0 h.1).1), λ h. (h.0.0, ih.1 (h.0.1, h.1)))

module _ {F : Type 0} ⦃fl : Floats F⦄ where
  -- The prices stand in the order of the direction, the lowest above zero.
  abbrev pub IsLadder : SignalDirection → InboundSignal F → Type 0
  IsLadder long s =
      (lt (num 0) s.stop_loss ≡ true)
      × (lt s.stop_loss s.entry_price ≡ true)
      × (lt s.entry_price s.tp1 ≡ true)
      × (lt s.tp1 s.tp2 ≡ true)
  IsLadder short s =
      (lt (num 0) s.tp2 ≡ true)
      × (lt s.tp2 s.tp1 ≡ true)
      × (lt s.tp1 s.entry_price ≡ true)
      × (lt s.entry_price s.stop_loss ≡ true)

  abbrev pub IsShaped : InboundSignal F → Type 0
  IsShaped s =
      (lt (num 0) s.risk_reward_ratio ≡ true)
      × (lt (num 0) s.risk_pips ≡ true)
      × (lt s.htf_range.range_low s.htf_range.range_high ≡ true)
      × (eq s.htf_range.tp_level (num 0) ≡ false)
      × (1 ≤ s.created_at)

  -- No limit is set, or the signal is no older than it.
  abbrev pub IsFresh : (max_age now : ℕ) → InboundSignal F → Type 0
  IsFresh max_age now s = (max_age ≡ 0) ⊎ (now ≤ reference_ms s + max_age)

  above-pos :
      (o : IsOrdered F) (a b : F)
      → lt (num 0) a ≡ true
      → lt a b ≡ true
      → (le b (num 0) ≡ false) × (lt (num 0) b ≡ true)
  above-pos o a b h k = ground (arith, o.le_total a (num 0), o.le_trans b (num 0) a)

  prices-IsLadder :
      (o : IsOrdered F) (d : SignalDirection) (s : InboundSignal F)
      → (All (λ (c : Check). c.0 ≡ false) (price_checks s)
          × All (λ (c : Check). c.0 ≡ false) (ladder_checks d s))
        ↔ IsLadder d s
  unfolding price_checks ladder_checks
  prices-IsLadder o long s = (
    λ h. ground (arith, h),
    λ h.
        let entry = above-pos o s.stop_loss s.entry_price h.0 h.1 in
        let first = above-pos o s.entry_price s.tp1 entry.1 h.2 in
        let second = above-pos o s.tp1 s.tp2 first.1 h.3 in ground (arith, h, entry, first, second),
  )
  prices-IsLadder o short s = (
    λ h. ground (arith, h),
    λ h.
        let first = above-pos o s.tp2 s.tp1 h.0 h.1 in
        let entry = above-pos o s.tp1 s.entry_price first.1 h.2 in
        let stop = above-pos o s.entry_price s.stop_loss entry.1 h.3 in
        ground (arith, h, entry, first, stop),
  )

  shape_checks-IsShaped :
      (s : InboundSignal F) → All (λ (c : Check). c.0 ≡ false) (shape_checks s) ↔ IsShaped s
  unfolding shape_checks
  shape_checks-IsShaped s = (λ h. ground (arith, h), λ h. ground (arith, h))

  reference_ms_pos : (s : InboundSignal F) → 1 ≤ s.created_at → 1 ≤ reference_ms s
  unfolding reference_ms
  reference_ms_pos s h = ground (arith, h)

  freshness_checks-IsFresh :
      (max_age now : ℕ) (s : InboundSignal F)
      → 1 ≤ reference_ms s
      → All (λ (c : Check). c.0 ≡ false) (freshness_checks max_age now s) ↔ IsFresh max_age now s
  unfolding freshness_checks
  freshness_checks-IsFresh max_age now s h =
      (λ k. ground (arith, k.0, h), λ k. (ground (arith, k, h), tt))

  -- The tests together, with the list split at its four parts.
  checks-IsAdmissible :
      (o : IsOrdered F) (max_age now : ℕ) (s : InboundSignal F)
      → All
          (λ (c : Check). c.0 ≡ false)
          (price_checks s
            ++ ladder_checks s.direction s
            ++ shape_checks s
            ++ freshness_checks max_age now s)
        ↔ (IsLadder s.direction s × IsShaped s × IsFresh max_age now s)
  checks-IsAdmissible o max_age now s = (
    λ h.
        let aged = (All-halves Holds _ _).0 h in
        let shaped = (All-halves Holds _ _).0 aged.0 in
        let is_shaped = (shape_checks-IsShaped s).0 shaped.1 in
        (
          (prices-IsLadder o s.direction s).0 ((All-halves Holds _ _).0 shaped.0),
          is_shaped,
          (freshness_checks-IsFresh max_age now s (reference_ms_pos s is_shaped.4)).0 aged.1,
        ),
    λ h.
        let prices = (prices-IsLadder o s.direction s).1 h.0 in
        let shaped = (shape_checks-IsShaped s).1 h.1 in
        let aged = (freshness_checks-IsFresh max_age now s (reference_ms_pos s h.1.4)).1 h.2 in
        (All-halves Holds _ _).1
          ((All-halves Holds _ _).1 ((All-halves Holds _ _).1 prices, shaped), aged),
  )
    where
      Holds : Check → Type 0
      Holds c = c.0 ≡ false

  -- A signal is valid exactly where its prices stand in the order of its direction, the lowest above
  -- zero, its ratio and its pips are positive, its range is not empty and has a level, it has a time
  -- of creation, and it is no older than the limit, if one is set.
  pub validate-IsSound :
      (o : IsOrdered F) (max_age now : ℕ) (signal : InboundSignal F)
      → ((validate max_age now signal).valid ≡ true)
        ↔ (IsLadder signal.direction signal × IsShaped signal × IsFresh max_age now signal)
  unfolding validate
  validate-IsSound o max_age now signal =
      let silent = is_silent-raised (
        price_checks signal
        ++ ladder_checks signal.direction signal
        ++ shape_checks signal
        ++ freshness_checks max_age now signal) in
      let admissible = checks-IsAdmissible o max_age now signal in
      (λ h. admissible.0 (silent.0 h), λ h. silent.1 (admissible.1 h))
