-- ===== src/Utils/Symbol.antt =====
-- src/utils/symbol.py, for ASCII text: separators and white space go, small letters become capitals.
use Prim.Native.Char.{Char, code, IsScalar, char}
use Prim.Native.Nat.{compare, Ordering}
use Prim.Native.String.{[], ◌∷◌}
use bobis_quote_mt5_trading.Prelude.{
  ℕ, ◌-◌, ◌<◌, ◌≡◌, refl, String, Bool, true, false, ◌&&◌, ◌||◌, inl, inr, arith, leb, nat_eq,
  if◌then◌else◌, Bool-cases,
}

-- The characters of the class [/.\-_\s].
abbrev is_dropped : ℕ → Bool
is_dropped c =
    nat_eq c b'/'
    || nat_eq c b'.'
    || nat_eq c b'-'
    || nat_eq c b'_'
    || nat_eq c b' '
    || (leb 9 c && leb c 13)
    || (leb 28 c && leb c 31)

abbrev is_small : ℕ → Bool
is_small c = leb 97 c && leb c 122

pub IsScalar-below : (n : ℕ) → n < 55296 → IsScalar n
IsScalar-below n h = let e : compare n 55296 ≡ Ordering.lt = ground arith in rw e tt

pub capital-below : (n : ℕ) → is_small n ≡ true → n - 32 < 55296
capital-below n h = ground arith

upper_by : (c : Char) (b : Bool) → is_small (code c) ≡ b → Char
upper_by c true h = char (code c - 32) (IsScalar-below (code c - 32) (capital-below (code c) h))
upper_by c false h = c

unfoldable pub upper : Char → Char
unfolding upper_by
upper c = upper_by c (is_small (code c)) refl

-- re.sub, then upper().
unfoldable pub normalise_symbol : String → String
unfolding upper
normalise_symbol [] = []
normalise_symbol (c ∷ s) =
    let rest = normalise_symbol s in if is_dropped (code c) then rest else upper c ∷ rest

code-upper_by :
    (c : Char) (b : Bool) (h : is_small (code c) ≡ b)
    → code (upper_by c b h) ≡ (if b then code c - 32 else code c)
unfolding upper_by
code-upper_by c true h = refl
code-upper_by c false h = refl

code-upper : (c : Char) → code (upper c) ≡ (if is_small (code c) then code c - 32 else code c)
unfolding upper
code-upper c = code-upper_by c (is_small (code c)) refl

upper_by_same : (c : Char) (b : Bool) (h : is_small (code c) ≡ b) → b ≡ false → upper_by c b h ≡ c
unfolding upper_by
upper_by_same c true h e = cc
upper_by_same c false h e = refl

upper-upper : (c : Char) → upper (upper c) ≡ upper c
unfolding upper
upper-upper c = upper_by_same (upper c) _ refl (ground (arith, code-upper c))

kept-upper : (c : Char) → is_dropped (code c) ≡ false → is_dropped (code (upper c)) ≡ false
kept-upper c h = ground (arith, code-upper c)

module _ (c : Char) (s : String) where
  normalise_symbol-dropped :
      is_dropped (code c) ≡ true → normalise_symbol (c ∷ s) ≡ normalise_symbol s
  unfolding normalise_symbol
  normalise_symbol-dropped h = rw h

  normalise_symbol-kept :
      is_dropped (code c) ≡ false → normalise_symbol (c ∷ s) ≡ upper c ∷ normalise_symbol s
  unfolding normalise_symbol
  normalise_symbol-kept h = rw h

-- Normalising twice is normalising once.
pub normalise_symbol_idempotent :
    (s : String) → normalise_symbol (normalise_symbol s) ≡ normalise_symbol s
normalise_symbol_idempotent [] = unfold normalise_symbol in refl
normalise_symbol_idempotent (c ∷ s) =
    let ih = normalise_symbol_idempotent s in
    elim (Bool-cases (is_dropped (code c))) [
      | inl out ↦ rw (normalise_symbol-dropped c s out) ih
      | inr kept ↦ rw (
        normalise_symbol-kept c s kept,
        normalise_symbol-kept (upper c) (normalise_symbol s) (kept-upper c kept),
        upper-upper c,
        ih,
      )
    ]
