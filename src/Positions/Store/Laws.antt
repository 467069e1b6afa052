-- ===== src/Positions/Store/Laws.antt =====
-- PositionStore as a partial function of the trade id, and the invariant that every trade is kept
-- under its own id.
use bobis_quote_mt5_trading.Prelude.{
  ℕ, String, ◌≡◌, refl, fun_ext, ◌∙◌, Option, none, some, List, [], ◌∷◌, ◌==◌, if◌then◌else◌, arith,
  Eq_string, inl, inr, Option-cases,
}
use bobis_quote_mt5_trading.Prelude.Dict.{lookup, insert, lookup-insert, lookup-remove}
use bobis_quote_mt5_trading.Domain.Trade.{Trade}
use bobis_quote_mt5_trading.Positions.Store.{
  Store, Patch, patch, add, update, discard, hydrate, get,
}

-- A call that changes the store.
pub data Change (F : Type 0) : Type 0 where
  added : Trade F → Change F
  updated : ℕ → String → List (Patch F) → Change F
  discarded : String → Change F
  hydrated : List (Trade F) → Change F

-- The abstract store, and what each call does to it.
abbrev pub TradeMap : Type 0 → Type 0
TradeMap F = String → Option (Trade F)

module _ {F : Type 0} where
  unfoldable pub apply : Change F → Store F → Store F
  apply (added t) s = add t s
  apply (updated now i ps) s = (update now i ps s).1
  apply (discarded i) s = discard i s
  apply (hydrated ts) s = hydrate ts s

  unfoldable pub apply_all : List (Change F) → Store F → Store F
  apply_all [] s = s
  apply_all (c ∷ cs) s = apply_all cs (apply c s)

  abbrev pub at_id : String → Option (Trade F) → TradeMap F → TradeMap F
  at_id i o m j = if i == j then o else m j

  abbrev pub put_all : List (Trade F) → TradeMap F → TradeMap F
  put_all [] m = m
  put_all (t ∷ ts) m = put_all ts (at_id t.id (some t) m)

  abbrev pub patched : ℕ → List (Patch F) → Option (Trade F) → Option (Trade F)
  patched now ps none = none
  patched now ps (some t) = some (patch now ps t)

  abbrev pub apply_map : Change F → TradeMap F → TradeMap F
  apply_map (added t) m = at_id t.id (some t) m
  apply_map (updated now i ps) m = at_id i (patched now ps (m i)) m
  apply_map (discarded i) m = at_id i none m
  apply_map (hydrated ts) m = put_all ts m

  abbrev pub apply_map_all : List (Change F) → TradeMap F → TradeMap F
  apply_map_all [] m = m
  apply_map_all (c ∷ cs) m = apply_map_all cs (apply_map c m)

  abbrev pub view : Store F → TradeMap F
  view s j = get j s

  view-add : (t : Trade F) (s : Store F) → view (add t s) ≡ at_id t.id (some t) (view s)
  unfolding add get
  view-add t s = fun_ext λ j. lookup-insert t.id j t s

  view-hydrate : (ts : List (Trade F)) (s : Store F) → view (hydrate ts s) ≡ put_all ts (view s)
  unfolding hydrate add
  view-hydrate [] s = refl
  view-hydrate (t ∷ ts) s = view-hydrate ts (add t s) ∙ rw (view-add t s)

  pub view-update :
      (now : ℕ) (i : String) (ps : List (Patch F)) (s : Store F)
      → view (update now i ps s).1 ≡ at_id i (patched now ps (view s i)) (view s)
  unfolding update get
  view-update now i ps s = fun_ext λ j. elim (Option-cases (lookup i s)) [
    | inl absent ↦ ground (arith, absent, Eq_string.beq_iff i j)
    | inr (t, found) ↦ ground (arith, found, lookup-insert i j (patch now ps t) s)
  ]

  view-discard : (i : String) (s : Store F) → view (discard i s) ≡ at_id i none (view s)
  unfolding discard get
  view-discard i s = fun_ext λ j. lookup-remove i j s

  view-apply : (c : Change F) (s : Store F) → view (apply c s) ≡ apply_map c (view s)
  unfolding apply
  view-apply (added t) s = view-add t s
  view-apply (updated now i ps) s = view-update now i ps s
  view-apply (discarded i) s = view-discard i s
  view-apply (hydrated ts) s = view-hydrate ts s

  -- After any calls of add, update, remove and hydrate, from any store, `get` answers as the map from
  -- ids to trades does that each call changes at its own ids alone: an update of an absent id changes
  -- nothing, and the last of several hydrated trades of one id is kept.
  pub get-apply_all :
      (cs : List (Change F)) (s : Store F) (j : String)
      → get j (apply_all cs s) ≡ apply_map_all cs (λ i. get i s) j
  unfolding apply_all
  get-apply_all [] s j = refl
  get-apply_all (c ∷ cs) s j = get-apply_all cs (apply c s) j ∙ rw (view-apply c s)

  pub update-found :
      (now : ℕ) (i : String) (ps : List (Patch F)) (s : Store F) (t : Trade F)
      → lookup i s ≡ some t
      → update now i ps s ≡ (some (patch now ps t), insert i (patch now ps t) s)
  unfolding update
  update-found now i ps s t h = rw (h, update) refl
