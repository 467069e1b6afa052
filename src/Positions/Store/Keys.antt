-- ===== src/Positions/Store/Keys.antt =====
-- The keys of the store: every trade stands under its own id, and what keeps a trade in.
use bobis_quote_mt5_trading.Prelude.{
  ℕ, ◌≡◌, refl, ◌∙◌, sym, ◌⊎◌, inl, inr, String, false, Option, none, some, List, [], ◌∷◌, All,
  arith, if_holds, Option-cases, ◌==◌, Eq_string, Eq_nat,
}
use bobis_quote_mt5_trading.Prelude.Dict.{lookup, insert, remove, lookup-insert, lookup-remove}
use bobis_quote_mt5_trading.Domain.Trade.{Trade}
use bobis_quote_mt5_trading.Positions.Store.{Store, Patch, update, patch, set_field, set_fields}
use bobis_quote_mt5_trading.Positions.Store.Laws.{update-found}

module _ {F : Type 0} where
  -- Every trade stands under its own id.
  abbrev pub AreKeyed : Store F → Type 0
  AreKeyed s = All (λ e. e.1.id ≡ e.0) s

  -- The store holds a trade of this id.
  abbrev pub Has : String → Store F → Type 0
  Has j s = (t : Trade F) × (lookup j s ≡ some t)

  abbrev pub Keeps : String → Store F → Type 0
  Keeps j s = AreKeyed s × Has j s

  pub insert-AreKeyed :
      (t : Trade F) (i : String) (s : Store F) → t.id ≡ i → AreKeyed s → AreKeyed (insert i t s)
  unfolding insert
  insert-AreKeyed t i [] e h = (e, tt)
  insert-AreKeyed t i ((k, u) ∷ s) e h =
      if_holds AreKeyed (k == i) _ _ (λ q. (e ∙ sym ((Eq_string.beq_iff k i).0 q), h.1))
        (λ q. (h.0, insert-AreKeyed t i s e h.1))

  pub remove-AreKeyed : (i : String) (s : Store F) → AreKeyed s → AreKeyed (remove i s)
  unfolding remove
  remove-AreKeyed i [] h = tt
  remove-AreKeyed i ((k, u) ∷ s) h =
      if_holds AreKeyed (k == i) _ _ (λ q. remove-AreKeyed i s h.1)
        (λ q. (h.0, remove-AreKeyed i s h.1))

  lookup-AreKeyed :
      (i : String) (s : Store F) (t : Trade F) → AreKeyed s → lookup i s ≡ some t → t.id ≡ i
  unfolding lookup
  lookup-AreKeyed i [] t h e = cc
  lookup-AreKeyed i ((k, u) ∷ s) t h e =
      ground (arith, Eq_string.beq_iff k i, lookup-AreKeyed i s t h.1, h.0, e)

  set_field-id : (p : Patch F) (t : Trade F) → (set_field p t).id ≡ t.id
  unfolding set_field
  set_field-id p t = ground arith

  set_fields-id : (ps : List (Patch F)) (t : Trade F) → (set_fields ps t).id ≡ t.id
  unfolding set_fields
  set_fields-id [] t = refl
  set_fields-id (p ∷ ps) t = set_fields-id ps (set_field p t) ∙ set_field-id p t

  IsSome : Option (Trade F) → Type 0
  IsSome o = (t : Trade F) × (o ≡ some t)

  insert-Has : (j i : String) (t : Trade F) (s : Store F) → Has j s → Has j (insert i t s)
  unfolding IsSome
  insert-Has j i t s (u, e) =
      rw (lookup-insert i j t s) (if_holds IsSome (i == j) _ _ (λ _. (t, refl)) (λ _. (u, e)))

  pub remove-Has : (j i : String) (s : Store F) → (i == j) ≡ false → Has j s → Has j (remove i s)
  remove-Has j i s d (u, e) = (u, ground (arith, lookup-remove i j s, d, e))

  pub update-cases :
      (now : ℕ) (i : String) (ps : List (Patch F)) (s : Store F)
      → (update now i ps s ≡ (none, s))
        ⊎ ((t : Trade F) × ((lookup i s ≡ some t)
              × (update now i ps s ≡ (some (patch now ps t), insert i (patch now ps t) s))))
  unfolding update
  update-cases now i ps s = elim (Option-cases (lookup i s)) [
    | inl e ↦ inl (rw (e, update) refl)
    | inr (t, e) ↦ inr (t, (e, update-found now i ps s t e))
  ]

  pub patched-id :
      (now : ℕ) (ps : List (Patch F)) (i : String) (s : Store F) (t : Trade F)
      → AreKeyed s
      → lookup i s ≡ some t
      → (patch now ps t).id ≡ i
  unfolding patch
  patched-id now ps i s t h e = set_fields-id ps t ∙ lookup-AreKeyed i s t h e

  pub insert-Keeps :
      (j i : String) (t : Trade F) (s : Store F) → t.id ≡ i → Keeps j s → Keeps j (insert i t s)
  insert-Keeps j i t s e h = (insert-AreKeyed t i s e h.0, insert-Has j i t s h.1)
