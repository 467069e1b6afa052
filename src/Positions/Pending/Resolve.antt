-- ===== src/Positions/Pending/Resolve.antt =====
-- Which records a poll resolves.
use bobis_quote_mt5_trading.Prelude.{
  ℕ, ◌≡◌, ◌⊎◌, inl, inr, refl, sym, subst, ap, ◌∙◌, true, false, none, some, List, [], ◌∷◌, leb,
  ◌==◌, Eq_nat, arith, All, Bool-cases, Option-cases,
}
use bobis_quote_mt5_trading.Prelude.Dict.{lookup, values, lookup-remove}
use bobis_quote_mt5_trading.Prelude.Floats.{Floats}
use bobis_quote_mt5_trading.Domain.Position.{Position, PendingOrder}
use bobis_quote_mt5_trading.Positions.Pending.{
  PendingOrderRecord, PendingOrderStore, PendingState, PendingPorts, handle_fill, drop_record,
  handle_our_expiry, handle_vanished, position_by_ticket, still_pending, resolve, resolve_all, poll,
}

-- Every record stands under its own ticket, once.
abbrev pub IsKeyed : {F : Type 0} → PendingOrderStore F → Type 0
IsKeyed d = All (λ e. (e.1.ticket ≡ e.0) × (lookup e.0 d ≡ some e.1)) d

-- What the broker and the clock say of a record: it still rests.
abbrev pub Rests :
    {F : Type 0} → ℕ → List (PendingOrder F) → List (Position F) → PendingOrderRecord F → Type 0
Rests now orders ps r =
    (position_by_ticket r.ticket ps ≡ none)
    × (still_pending r.ticket orders ≡ true)
    × (leb r.expiry_at now ≡ false)

-- Or it is over: filled, or gone from both lists.
abbrev pub IsOver :
    {F : Type 0} → List (PendingOrder F) → List (Position F) → PendingOrderRecord F → Type 0
IsOver {F} orders ps r =
    ((p : Position F) × (position_by_ticket r.ticket ps ≡ some p))
    ⊎ ((position_by_ticket r.ticket ps ≡ none) × (still_pending r.ticket orders ≡ false))

module _ {F : Type 0} where
  All-entries :
      (k : ℕ) (r : PendingOrderRecord F) (d : PendingOrderStore F) (entries : PendingOrderStore F)
      → lookup k d ≡ some r
      → All (λ e. (e.1.ticket ≡ e.0) × (lookup e.0 d ≡ some e.1)) entries
      → All (λ e. (e.1.ticket ≡ e.0) × (e.0 ≡ k → e.1 ≡ r)) entries
  All-entries k r d [] here a = tt
  All-entries k r d ((j, w) ∷ entries) here a = (
    (a.0.0, λ same. let q : some w ≡ some r = sym a.0.1 ∙ ap (λ x. lookup x d) same ∙ here in cc),
    All-entries k r d entries here a.1,
  )

module _ {F B R : Type 0} ⦃fl : Floats F⦄ (ports : PendingPorts F B) (now : ℕ) where
  -- A step of the poll takes away its own record at most.
  resolve-other :
      (orders : List (PendingOrder F)) (ps : List (Position F)) (r : PendingOrderRecord F)
      (s : PendingState F B R) (k : ℕ)
      → (r.ticket == k) ≡ false
      → lookup k (resolve ports now orders ps r s).records ≡ lookup k s.records
  unfolding resolve handle_fill handle_our_expiry handle_vanished drop_record
  resolve-other orders ps r s k apart =
      let removed = lookup-remove r.ticket k s.records in
      let answer = ports.cancel_pending_order s.broker r.ticket in
      elim (Option-cases (position_by_ticket r.ticket ps)) [
        | inr (p, filled) ↦ ground (arith, filled, removed, apart)
        | inl q ↦ elim (Bool-cases (still_pending r.ticket orders)) [
          | inr gone ↦ ground (arith, q, gone, removed, apart)
          | inl rests ↦ elim (Bool-cases (leb r.expiry_at now)) [
            | inr early ↦ ground (arith, q, rests, early)
            | inl late ↦ elim (Bool-cases answer.0) [
              | inl ok ↦ ground (arith, q, rests, late, ok, removed, apart)
              | inr failed ↦ ground (arith, q, rests, late, failed)
            ]
          ]
        ]
      ]

  resolve-Rests :
      (orders : List (PendingOrder F)) (ps : List (Position F)) (r : PendingOrderRecord F)
      (s : PendingState F B R)
      → Rests now orders ps r
      → resolve ports now orders ps r s ≡ s
  unfolding resolve
  resolve-Rests orders ps r s (a, b, c) = ground (arith, a, b, c)

  resolve-IsOver :
      (orders : List (PendingOrder F)) (ps : List (Position F)) (r : PendingOrderRecord F)
      (s : PendingState F B R)
      → IsOver orders ps r
      → lookup r.ticket (resolve ports now orders ps r s).records ≡ none
  unfolding resolve handle_fill handle_vanished drop_record
  resolve-IsOver orders ps r s (inl (p, filled)) = ground (
    arith,
    filled,
    lookup-remove r.ticket r.ticket s.records,
    (Eq_nat.beq_iff r.ticket r.ticket).1 refl,
  )
  resolve-IsOver orders ps r s (inr (q, gone)) = ground (
    arith,
    q,
    gone,
    lookup-remove r.ticket r.ticket s.records,
    (Eq_nat.beq_iff r.ticket r.ticket).1 refl,
  )

  resolve-none :
      (orders : List (PendingOrder F)) (ps : List (Position F)) (r : PendingOrderRecord F)
      (s : PendingState F B R) (k : ℕ)
      → lookup k s.records ≡ none
      → lookup k (resolve ports now orders ps r s).records ≡ none
  unfolding resolve handle_fill handle_our_expiry handle_vanished drop_record
  resolve-none orders ps r s k absent =
      let removed = lookup-remove r.ticket k s.records in
      let answer = ports.cancel_pending_order s.broker r.ticket in
      elim (Option-cases (position_by_ticket r.ticket ps)) [
        | inr (p, filled) ↦ ground (arith, filled, removed, absent)
        | inl q ↦ elim (Bool-cases (still_pending r.ticket orders)) [
          | inr gone ↦ ground (arith, q, gone, removed, absent)
          | inl rests ↦ elim (Bool-cases (leb r.expiry_at now)) [
            | inr early ↦ ground (arith, q, rests, early, absent)
            | inl late ↦ elim (Bool-cases answer.0) [
              | inl ok ↦ ground (arith, q, rests, late, ok, removed, absent)
              | inr failed ↦ ground (arith, q, rests, late, failed, absent)
            ]
          ]
        ]
      ]

  resolve_all-none :
      (orders : List (PendingOrder F)) (ps : List (Position F)) (rs : List (PendingOrderRecord F))
      (s : PendingState F B R) (k : ℕ)
      → lookup k s.records ≡ none
      → lookup k (resolve_all ports now orders ps rs s).records ≡ none
  unfolding resolve_all
  resolve_all-none orders ps [] s k absent = absent
  resolve_all-none orders ps (r ∷ rs) s k absent =
      resolve_all-none orders ps rs (resolve ports now orders ps r s) k
        (resolve-none orders ps r s k absent)

  resolve_all-Rests :
      (orders : List (PendingOrder F)) (ps : List (Position F)) (d : PendingOrderStore F)
      (r : PendingOrderRecord F) (s : PendingState F B R) (k : ℕ)
      → All (λ e. (e.1.ticket ≡ e.0) × (e.0 ≡ k → e.1 ≡ r)) d
      → Rests now orders ps r
      → lookup k (resolve_all ports now orders ps (values d) s).records ≡ lookup k s.records
  unfolding resolve_all
  resolve_all-Rests orders ps [] r s k a rests = refl
  resolve_all-Rests orders ps ((j, w) ∷ d) r s k a rests =
      resolve_all-Rests orders ps d r (resolve ports now orders ps w s) k a.1 rests
      ∙ (elim (Bool-cases (w.ticket == k)) [
        | inr apart ↦ resolve-other orders ps w s k apart
        | inl same ↦
            let at_key = sym a.0.0 ∙ (Eq_nat.beq_iff w.ticket k).0 same in
            let its = subst (Rests now orders ps) (sym (a.0.1 at_key)) rests in
            ap (λ x. lookup k x.records) (resolve-Rests orders ps w s its)
      ])

  resolve_all-IsOver :
      (orders : List (PendingOrder F)) (ps : List (Position F)) (d : PendingOrderStore F)
      (r : PendingOrderRecord F) (s : PendingState F B R) (k : ℕ)
      → lookup k d ≡ some r
      → r.ticket ≡ k
      → IsOver orders ps r
      → lookup k (resolve_all ports now orders ps (values d) s).records ≡ none
  unfolding resolve_all lookup
  resolve_all-IsOver orders ps [] r s k here own over = cc
  resolve_all-IsOver orders ps ((j, w) ∷ d) r s k here own over = elim (Bool-cases (j == k)) [
    | inr apart ↦
        resolve_all-IsOver orders ps d r (resolve ports now orders ps w s) k
          (ground (arith, apart, here)) own over
    | inl same ↦
        let is_r : w ≡ r = ground (arith, same, here) in
        let over_w = subst (IsOver orders ps) (sym is_r) over in
        let gone = resolve-IsOver orders ps w s over_w in
        let at_k = ap (λ x. x.ticket) is_r ∙ own in
        resolve_all-none orders ps (values d) (resolve ports now orders ps w s) k
          (subst (λ x. lookup x (resolve ports now orders ps w s).records ≡ none) at_k gone)
  ]

  -- A poll that reaches the broker keeps the record of an order that rests there, unfilled, before its
  -- expiry, whatever else it resolves.
  pub poll-Rests :
      (orders : List (PendingOrder F)) (ps : List (Position F)) (s : PendingState F B R) (k : ℕ)
      (r : PendingOrderRecord F)
      → IsKeyed s.records
      → lookup k s.records ≡ some r
      → Rests now orders ps r
      → lookup k (poll ports now (some orders) (some ps) s).records ≡ some r
  unfolding poll
  poll-Rests orders ps s k r keyed here rests =
      resolve_all-Rests orders ps s.records r s k (All-entries k r s.records s.records here keyed)
        rests
      ∙ here

  -- A poll that reaches the broker drops the record of an order that has been filled or is gone from the
  -- broker's two lists, whatever else it resolves.
  pub poll-IsOver :
      (orders : List (PendingOrder F)) (ps : List (Position F)) (s : PendingState F B R) (k : ℕ)
      (r : PendingOrderRecord F)
      → lookup k s.records ≡ some r
      → r.ticket ≡ k
      → IsOver orders ps r
      → lookup k (poll ports now (some orders) (some ps) s).records ≡ none
  unfolding poll
  poll-IsOver orders ps s k r here own over =
      resolve_all-IsOver orders ps s.records r s k here own over
