-- ===== src/Utils/Text.antt =====
-- The methods of Python's `str` that the program calls, for ASCII text.
use Prim.Native.Char.{Char, code, char}
use Prim.Native.String.{[], ◌∷◌}
use bobis_quote_mt5_trading.Prelude.{
  ℕ, suc, String, Bool, true, false, ◌&&◌, ◌||◌, nat_eq, leb, ◌+◌, ◌<◌, ◌≡◌, refl, arith,
  if◌then◌else◌, ◌==◌, Eq_string,
}
use bobis_quote_mt5_trading.Utils.Symbol.{upper, IsScalar-below}

-- len(s)
unfoldable pub text_length : String → ℕ
text_length [] = 0
text_length (c ∷ s) = suc (text_length s)

-- s.upper()
unfoldable pub to_upper : String → String
to_upper [] = []
to_upper (c ∷ s) = upper c ∷ to_upper s

abbrev is_capital : ℕ → Bool
is_capital c = leb 65 c && leb c 90

pub small-below : (n : ℕ) → is_capital n ≡ true → n + 32 < 55296
small-below n h = ground arith

lower_by : (c : Char) (b : Bool) → is_capital (code c) ≡ b → Char
lower_by c true h = char (code c + 32) (IsScalar-below (code c + 32) (small-below (code c) h))
lower_by c false h = c

-- s.lower()
unfoldable pub to_lower : String → String
unfolding lower_by
to_lower [] = []
to_lower (c ∷ s) = lower_by c (is_capital (code c)) refl ∷ to_lower s

abbrev is_space : ℕ → Bool
is_space c = nat_eq c 32 || (leb 9 c && leb c 13) || (leb 28 c && leb c 31)

unfoldable pub strip_end : String → String
strip_end [] = []
strip_end (c ∷ s) =
    let rest = strip_end s in if is_space (code c) && rest == "" then [] else c ∷ rest

unfoldable pub strip_start : String → String
strip_start [] = []
strip_start (c ∷ s) = let rest = strip_start s in if is_space (code c) then rest else c ∷ s

-- s.strip()
unfoldable pub strip : String → String
strip s = strip_start (strip_end s)

-- s.replace(c, "") for a text of one character
unfoldable pub without : ℕ → String → String
without k [] = []
without k (c ∷ s) = let rest = without k s in if nat_eq (code c) k then rest else c ∷ rest

-- s.startswith(prefix)
unfoldable pub starts_with : (prefix s : String) → Bool
starts_with [] s = true
starts_with (c ∷ p) [] = false
starts_with (c ∷ p) (d ∷ s) = nat_eq (code c) (code d) && starts_with p s

-- s.endswith(suffix)
unfoldable pub ends_with : (suffix s : String) → Bool
ends_with p [] = p == ""
ends_with p (d ∷ s) = p == (d ∷ s) || ends_with p s
