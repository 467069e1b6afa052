-- ===== src/Positions/SlCascade/Favor.antt =====
-- A cascade moves stops in the trade's favor alone.
use bobis_quote_mt5_trading.Prelude.{
  ℕ, String, Bool, true, false, ◌≡◌, ◌⊎◌, inl, inr, refl, sym, subst, ◌∙◌, ap, Option, none, some,
  List, [], ◌∷◌, ◌==◌, if◌then◌else◌, Eq_string, All, arith, Bool-cases, keep,
}
use bobis_quote_mt5_trading.Prelude.Dict.{values}
use bobis_quote_mt5_trading.Prelude.Floats.{Floats, lt}
use bobis_quote_mt5_trading.Domain.Trade.{Trade, OrderSide, buy, sell}
use bobis_quote_mt5_trading.Positions.Store.{
  Store, get, update, patch, set_fields, set_field, stop_loss, get_open_trades, is_open,
}
use bobis_quote_mt5_trading.Positions.Store.Laws.{view-update, patched}
use bobis_quote_mt5_trading.Positions.SlCascade.{
  is_more_favorable, ticket_to_move, move, cascade_over, cascade_sl_to_stacked_position, same_side,
}

-- Every trade in the store is the one that its id looks up.
abbrev pub IsFaithful : {F : Type 0} → Store F → Type 0
IsFaithful s = All (λ t. get t.id s ≡ some t) (values s)

-- A stop that is nearer to the price: a higher one of a purchase, a lower one of a sale.
abbrev pub IsFavorable : {F : Type 0} ⦃fl : Floats F⦄ → OrderSide → (stop old : F) → Type 0
IsFavorable buy stop old = lt old stop ≡ true
IsFavorable sell stop old = lt stop old ≡ true

-- What becomes of a trade: it stays as it is, or only its stop moves (and the time of its update), to the
-- new trade's, and that in its favor.
abbrev pub IsMoved :
    {F : Type 0} ⦃fl : Floats F⦄ → (now : ℕ) (new_trade old now_kept : Trade F) → Type 0
IsMoved now new_trade old kept =
    (kept ≡ old)
    ⊎ (IsFavorable old.side new_trade.stop_loss old.stop_loss
        × (old.side ≡ new_trade.side)
        × (old.symbol ≡ new_trade.symbol)
        × (kept ≡ record old { stop_loss = new_trade.stop_loss; updated_at = now }))

is_more_favorable-IsFavorable :
    {F : Type 0} ⦃fl : Floats F⦄
    → (side : OrderSide) (stop old : F) → is_more_favorable side stop old ≡ true
    → IsFavorable side stop old
unfolding is_more_favorable
is_more_favorable-IsFavorable buy stop old h = h
is_more_favorable-IsFavorable sell stop old h = h

same_side-same : (a b : OrderSide) → same_side a b ≡ true → a ≡ b
same_side-same buy buy h = refl
same_side-same buy sell h = cc
same_side-same sell buy h = cc
same_side-same sell sell h = refl

All-keep : {A : Type 0} (P : A → Type 0) (p : A → Bool) (xs : List A) → All P xs → All P (keep p xs)
All-keep P p [] h = tt
All-keep P p (x ∷ xs) h =
    let rest = All-keep P p xs h.1 in
    elim (Bool-cases (p x)) [
      | inl yes_x ↦
          subst (λ b. All P (if b then x ∷ keep p xs else keep p xs)) (sym yes_x) (h.0, rest)
      | inr no_x ↦ subst (λ b. All P (if b then x ∷ keep p xs else keep p xs)) (sym no_x) rest
    ]

module _ {F : Type 0} where
  get-update-same :
      (now : ℕ) (j i : String) (v : F) (s : Store F) (kept : Trade F)
      → j ≡ i
      → get i s ≡ some kept
      → get i (update now j (stop_loss v ∷ []) s).1 ≡ some (patch now (stop_loss v ∷ []) kept)
  get-update-same now j i v s kept same here =
      let at_j = ap (λ x. patched now (stop_loss v ∷ []) (get x s)) same in
      let at_kept = ap (patched now (stop_loss v ∷ [])) here in
      ap (λ m. m i) (view-update now j (stop_loss v ∷ []) s)
      ∙ ground (arith, (Eq_string.beq_iff j i).1 same, at_j, at_kept)

  get-update-apart :
      (now : ℕ) (j i : String) (v : F) (s : Store F)
      → (j == i) ≡ false
      → get i (update now j (stop_loss v ∷ []) s).1 ≡ get i s
  get-update-apart now j i v s apart =
      ap (λ m. m i) (view-update now j (stop_loss v ∷ []) s) ∙ simp apart

module _ {F B : Type 0} ⦃fl : Floats F⦄ (modify_position : B → ℕ → (sl tp : F) → Bool × B) (now : ℕ)
    (new_trade : Trade F) where
  ticket_to_move-some :
      (existing : Trade F) (ticket : ℕ)
      → ticket_to_move new_trade existing ≡ some ticket
      → IsFavorable existing.side new_trade.stop_loss existing.stop_loss
        × (existing.side ≡ new_trade.side)
        × (existing.symbol ≡ new_trade.symbol)
  unfolding ticket_to_move
  ticket_to_move-some existing ticket h =
      let tests : (is_more_favorable existing.side new_trade.stop_loss existing.stop_loss ≡ true)
          × (same_side existing.side new_trade.side ≡ true)
          × (existing.symbol ≡ new_trade.symbol) =
        ground (arith, Eq_string.beq_iff existing.symbol new_trade.symbol) in
      (
        is_more_favorable-IsFavorable existing.side _ _ tests.0,
        same_side-same existing.side new_trade.side tests.1,
        tests.2,
      )

  -- A kept trade, moved once more, is moved.
  patch-IsMoved :
      (old kept : Trade F)
      → IsFavorable old.side new_trade.stop_loss old.stop_loss
        × (old.side ≡ new_trade.side)
        × (old.symbol ≡ new_trade.symbol)
      → IsMoved now new_trade old kept
      → IsMoved now new_trade old (patch now (stop_loss new_trade.stop_loss ∷ []) kept)
  unfolding patch set_fields set_field
  patch-IsMoved old kept (f, side, sym_eq) (inl e) =
      inr (f, side, sym_eq, ap (patch now (stop_loss new_trade.stop_loss ∷ [])) e)
  patch-IsMoved old kept (f, side, sym_eq) (inr (_, _, _, e)) =
      inr (f, side, sym_eq, ap (patch now (stop_loss new_trade.stop_loss ∷ [])) e)

  move-failed :
      (existing : Trade F) (ticket : ℕ) (s : Store F) (b : B)
      → (modify_position b ticket new_trade.stop_loss existing.tp2).0 ≡ false
      → (move modify_position now new_trade existing (some ticket) (s, b)).0 ≡ s
  unfolding move
  move-failed existing ticket s b failed = ground (arith, failed)

  move-ok :
      (existing : Trade F) (ticket : ℕ) (s : Store F) (b : B)
      → (modify_position b ticket new_trade.stop_loss existing.tp2).0 ≡ true
      → (move modify_position now new_trade existing (some ticket) (s, b)).0
        ≡ (update now existing.id (stop_loss new_trade.stop_loss ∷ []) s).1
  unfolding move
  move-ok existing ticket s b ok = ground (arith, ok)

  move-IsMoved :
      (existing old kept : Trade F) (i : String) (o : Option ℕ) (s : Store F) (b : B)
      → ticket_to_move new_trade existing ≡ o
      → (existing.id ≡ i → existing ≡ old)
      → get i s ≡ some kept
      → IsMoved now new_trade old kept
      → (t : Trade F) × (get i (move modify_position now new_trade existing o (s, b)).0 ≡ some t)
        × IsMoved now new_trade old t
  unfolding move
  move-IsMoved existing old kept i none s b e snapshot here moved = (kept, here, moved)
  move-IsMoved existing old kept i (some ticket) s b e snapshot here moved =
      elim (Bool-cases (modify_position b ticket new_trade.stop_loss existing.tp2).0) [
        | inr failed ↦ (kept, ap (get i) (move-failed existing ticket s b failed) ∙ here, moved)
        | inl ok ↦ elim (Bool-cases (existing.id == i)) [
          | inr apart ↦ (
            kept,
            ap (get i) (move-ok existing ticket s b ok)
                ∙ get-update-apart now existing.id i new_trade.stop_loss s apart
                ∙ here,
            moved,
          )
          | inl same ↦
              let fact =
                subst
                  (λ x.
                    IsFavorable x.side new_trade.stop_loss x.stop_loss
                    × (x.side ≡ new_trade.side)
                    × (x.symbol ≡ new_trade.symbol))
                  (snapshot ((Eq_string.beq_iff existing.id i).0 same))
                  (ticket_to_move-some existing ticket e) in
              (
                patch now (stop_loss new_trade.stop_loss ∷ []) kept,
                ap (get i) (move-ok existing ticket s b ok)
                    ∙ get-update-same now existing.id i new_trade.stop_loss s kept
                        ((Eq_string.beq_iff existing.id i).0 same) here,
                patch-IsMoved old kept fact moved,
              )
        ]
      ]

  cascade_over-IsMoved :
      (es : List (Trade F)) (old kept : Trade F) (i : String) (s : Store F) (b : B)
      → All (λ e. e.id ≡ i → e ≡ old) es
      → get i s ≡ some kept
      → IsMoved now new_trade old kept
      → (t : Trade F) × (get i (cascade_over modify_position now new_trade es (s, b)).0 ≡ some t)
        × IsMoved now new_trade old t
  unfolding cascade_over
  cascade_over-IsMoved [] old kept i s b a here moved = (kept, here, moved)
  cascade_over-IsMoved (e ∷ es) old kept i s b a here moved =
      let (t, there, moved') =
        move-IsMoved e old kept i (ticket_to_move new_trade e) s b refl a.0 here moved in
      let sb = move modify_position now new_trade e (ticket_to_move new_trade e) (s, b) in
      cascade_over-IsMoved es old t i sb.0 sb.1 a.1 there moved'

  All-snapshot :
      (i : String) (old : Trade F) (s : Store F) (es : List (Trade F))
      → get i s ≡ some old
      → All (λ t. get t.id s ≡ some t) es
      → All (λ e. e.id ≡ i → e ≡ old) es
  All-snapshot i old s [] here a = tt
  All-snapshot i old s (e ∷ es) here a = (
    λ same. let q : some e ≡ some old = sym a.0 ∙ ap (λ x. get x s) same ∙ here in cc,
    All-snapshot i old s es here a.1,
  )

  -- In a store whose trades are found under their ids, whatever the broker answers, no trade leaves the
  -- store, and each stays as it is or has its stop moved in its favor, to the stop of a new trade of its
  -- symbol and side; nothing else of it but the time of its update changes.
  pub cascade_sl_to_stacked_position-IsMoved :
      (old : Trade F) (i : String) (s : Store F) (b : B)
      → IsFaithful s
      → get i s ≡ some old
      → (t : Trade F) × (get i
            (cascade_sl_to_stacked_position modify_position now new_trade (s, b)).0
          ≡ some t)
        × IsMoved now new_trade old t
  unfolding cascade_sl_to_stacked_position get_open_trades
  cascade_sl_to_stacked_position-IsMoved old i s b faithful here =
      let open_ones =
        All-keep (λ t. get t.id s ≡ some t) (λ t. is_open t.status) (values s) faithful in
      cascade_over-IsMoved (get_open_trades s) old old i s b
        (All-snapshot i old s (get_open_trades s) here open_ones) here (inl refl)
