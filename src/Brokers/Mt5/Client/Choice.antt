-- ===== src/Brokers/Mt5/Client/Choice.antt =====
-- Which of the broker's names a search settles on.
use bobis_quote_mt5_trading.Prelude.{
  ◌≤◌, String, Bool, true, false, ltb, if◌then◌else◌, if_holds, ◌==◌, Eq_string, ◌≡◌, refl, ◌⊎◌,
  inl, inr, ◌∙◌, ap, sym, subst, Option, none, some, List, [], ◌∷◌, ◌++◌, All, keep, arith,
}
use mathlib.Core.List.{append_assoc, append-nil}
use bobis_quote_mt5_trading.Prelude.Floats.{Floats}
use bobis_quote_mt5_trading.Utils.Text.{text_length, to_upper}
use bobis_quote_mt5_trading.Brokers.Mt5.{Terminal, Session, Mt5Config, Result, ok, err}
use bobis_quote_mt5_trading.Brokers.Mt5.Client.{
  Matches, exact_match, matches, is_flexible, scan, shortest, remember, select_and_remember, settle,
  search_symbols,
}

abbrev pub Among : String → List String → Type 0
Among x [] = ⊥
Among x (y ∷ ys) = (x ≡ y) ⊎ Among x ys

abbrev IsShortest : String → List String → Type 0
IsShortest name names = All (λ n. text_length name ≤ text_length n) names

-- A name that the search may settle on: an exact match, or, where there is none, a shortest of the
-- names that start or end with the key.
abbrev pub IsBest : (key : String) → List String → String → Type 0
IsBest key names name =
    Among name names
    × ((to_upper name ≡ key)
        ⊎ (All (λ n. (to_upper n == key) ≡ false) names
            × (is_flexible key name ≡ true)
            × All (λ n. is_flexible key n ≡ true → text_length name ≤ text_length n) names))

abbrev pub HasNoMatch : (key : String) → List String → Type 0
HasNoMatch key names = All (λ n. ((to_upper n == key) ≡ false) × (is_flexible key n ≡ false)) names

abbrev Describes : (key : String) → (names found : List String) → Matches → Type 0
Describes key names found (exact_match name) = Among name names × (to_upper name ≡ key)
Describes key names found (matches ms) =
    All (λ n. (to_upper n == key) ≡ false) names × (ms ≡ found ++ keep (is_flexible key) names)

grow :
    (b : Bool) (name : String) (found rest : List String)
    → (if b then found ++ name ∷ [] else found) ++ rest ≡ found ++ (if b then name ∷ rest else rest)
grow true name found rest = append_assoc found (name ∷ []) rest
grow false name found rest = refl

Describes-widen :
    (key name : String) (names found : List String) (m : Matches)
    → (to_upper name == key) ≡ false
    → Describes key names (if is_flexible key name then found ++ name ∷ [] else found) m
    → Describes key (name ∷ names) found m
Describes-widen key name names found (exact_match n) e h = (inr h.0, h.1)
Describes-widen key name names found (matches ms) e h =
    ((e, h.0), h.1 ∙ grow (is_flexible key name) name found (keep (is_flexible key) names))

scan-Describes :
    (key : String) (names found : List String) → Describes key names found (scan key names found)
unfolding scan
scan-Describes key [] found = (tt, sym (append-nil found))
scan-Describes key (name ∷ names) found =
    if_holds (Describes key (name ∷ names) found) (to_upper name == key) _ _
      (λ e. (inl refl, (Eq_string.beq_iff (to_upper name) key).0 e))
      (λ e. Describes-widen key name names found _ e (scan-Describes key names _))

shortest-IsShortest :
    (best : String) (names : List String)
    → Among (shortest best names) (best ∷ names) × IsShortest (shortest best names) (best ∷ names)
unfolding shortest
shortest-IsShortest best [] = (inl refl, (omega arith, tt))
shortest-IsShortest best (name ∷ names) =
    if_holds
      (λ c.
        Among (shortest c names) (best ∷ name ∷ names)
        × IsShortest (shortest c names) (best ∷ name ∷ names))
      (ltb (text_length name) (text_length best)) name best
      (λ e.
        let ih = shortest-IsShortest name names in
        let less : text_length (shortest name names) ≤ text_length best =
          ground (arith, e, ih.1.0) in
        (inr ih.0, (less, ih.1)))
      (λ e.
        let ih = shortest-IsShortest best names in
        let less : text_length (shortest best names) ≤ text_length name =
          ground (arith, e, ih.1.0) in
        (move ih.0, (ih.1.0, (less, ih.1.1))))
  where
    move :
        Among (shortest best names) (best ∷ names)
        → Among (shortest best names) (best ∷ name ∷ names)
    move (inl h) = inl h
    move (inr h) = inr (inr h)

Among-keep :
    (p : String → Bool) (x : String) (names : List String)
    → Among x (keep p names)
    → Among x names × (p x ≡ true)
Among-keep p x [] h = absurd h
Among-keep p x (name ∷ names) h = pick (p name) refl h (Among-keep p x names)
  where
    pick :
        (b : Bool)
        → p name ≡ b
        → Among x (if b then name ∷ keep p names else keep p names)
        → (Among x (keep p names) → Among x names × (p x ≡ true))
        → Among x (name ∷ names) × (p x ≡ true)
    pick true e (inl h) ih = (inl h, ap p h ∙ e)
    pick true e (inr h) ih = (inr (ih h).0, (ih h).1)
    pick false e h ih = (inr (ih h).0, (ih h).1)

All-keep :
    (p : String → Bool) (P : String → Type 0) (names : List String)
    → All P (keep p names)
    → All (λ n. p n ≡ true → P n) names
All-keep p P [] h = tt
All-keep p P (name ∷ names) h = pick (p name) refl h (All-keep p P names)
  where
    pick :
        (b : Bool)
        → p name ≡ b
        → All P (if b then name ∷ keep p names else keep p names)
        → (All P (keep p names) → All (λ n. p n ≡ true → P n) names)
        → (p name ≡ true → P name) × All (λ n. p n ≡ true → P n) names
    pick true e h ih = (λ _. h.0, ih h.1)
    pick false e h ih = (λ t. cc, ih h)

-- Nothing kept: the test fails everywhere.
none_kept :
    (p : String → Bool) (names : List String) → keep p names ≡ [] → All (λ n. p n ≡ false) names
none_kept p [] h = tt
none_kept p (name ∷ names) h = pick (p name) refl h (none_kept p names)
  where
    pick :
        (b : Bool)
        → p name ≡ b
        → (if b then name ∷ keep p names else keep p names) ≡ []
        → (keep p names ≡ [] → All (λ n. p n ≡ false) names)
        → (p name ≡ false) × All (λ n. p n ≡ false) names
    pick true e h ih = cc
    pick false e h ih = (e, ih h)

All-both :
    (P Q : String → Type 0) (names : List String)
    → All P names
    → All Q names
    → All (λ n. P n × Q n) names
All-both P Q [] h k = tt
All-both P Q (name ∷ names) h k = ((h.0, k.0), All-both P Q names h.1 k.1)

abbrev pub IsAnswer : (key : String) → List String → Result (Option String) → Type 0
IsAnswer key names (ok (some name)) = IsBest key names name
IsAnswer key names (ok none) = HasNoMatch key names
IsAnswer key names (err e) = ⊥

module _ {F R T : Type 0} ⦃fl : Floats F⦄ (api : Terminal F T) (config : Mt5Config) where
  settle-IsAnswer :
      (key : String) (names : List String) (m : Matches) (s : Session F R T)
      → Describes key names [] m
      → IsAnswer key names (settle api config key m s).0
  unfolding settle select_and_remember remember
  settle-IsAnswer key names (exact_match name) s h = (h.0, inl h.1)
  settle-IsAnswer key names (matches []) s h =
      All-both _ _ names h.0 (none_kept (is_flexible key) names (sym h.1))
  settle-IsAnswer key names (matches (n ∷ ns)) s h =
      let best = shortest-IsShortest n ns in
      let kept =
        Among-keep (is_flexible key) (shortest n ns) names
          (subst (λ (ms : List String). Among (shortest n ns) ms) h.1 best.0) in
      (
        kept.0,
        inr (
          h.0,
          kept.1,
          All-keep (is_flexible key) _ names
              (subst (λ (ms : List String). IsShortest (shortest n ns) ms) h.1 best.1),
        ),
      )

  -- A search over the broker's names settles on one that is among them and either is the key but for
  -- its case or, where none is, starts or ends with it and is no longer than any other that does; it
  -- gives no name only where no name does either.
  pub search_symbols-IsAnswer :
      (key : String) (s : Session F R T)
      → IsAnswer key (api.symbols_get s.terminal).0 (search_symbols api config key s).0
  unfolding search_symbols
  search_symbols-IsAnswer key s =
      settle-IsAnswer key names (scan key names []) _ (scan-Describes key names [])
    where
      names : List String
      names = (api.symbols_get s.terminal).0
