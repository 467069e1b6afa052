-- ===== src/Examples/Fixed.antt =====
-- Signed decimal numbers with four places, for concrete runs of what is written for floats.
use bobis_quote_mt5_trading.Prelude.{
  ℕ, zero, suc, ◌+◌, ◌-◌, ◌*◌, ◌/◌, ◌^◌, ◌≤◌, ◌≡◌, refl, Bool, true, false, none, List, [], ◌∷◌,
  leb, ltb, if◌then◌else◌, arith, ◌⊎◌,
}
use native.Mathlib.Nat.{mul-le-mul_left, div-le_of_le-mul, le-div_iff_mul-le, div-mul-le_self}
use bobis_quote_mt5_trading.Prelude.Floats.{Floats, IsOrdered}

-- `below n` is the value -(n + 1).
pub data Fixed : Type 0 where
  units below : ℕ → Fixed

abbrev scale : ℕ
scale = 10_000

abbrev negate : Fixed → Fixed
negate (units zero) = units zero
negate (units (suc n)) = below n
negate (below n) = units (suc n)

abbrev add_fixed : Fixed → Fixed → Fixed
add_fixed (units a) (units b) = units (a + b)
add_fixed (units a) (below b) = if ltb b a then units (a - suc b) else below (b - a)
add_fixed (below a) (units b) = if ltb a b then units (b - suc a) else below (a - b)
add_fixed (below a) (below b) = below (suc (a + b))

abbrev sub_fixed : Fixed → Fixed → Fixed
sub_fixed a b = add_fixed a (negate b)

abbrev mul_fixed : Fixed → Fixed → Fixed
mul_fixed (units a) (units b) = units (a * b / scale)
mul_fixed (units a) (below b) = negate (units (a * suc b / scale))
mul_fixed (below a) (units b) = negate (units (suc a * b / scale))
mul_fixed (below a) (below b) = units (suc a * suc b / scale)

abbrev div_fixed : Fixed → Fixed → Fixed
div_fixed (units a) (units b) = units (a * scale / b)
div_fixed (units a) (below b) = negate (units (a * scale / suc b))
div_fixed (below a) (units b) = negate (units (suc a * scale / b))
div_fixed (below a) (below b) = units (suc a * scale / suc b)

abbrev le_fixed : Fixed → Fixed → Bool
le_fixed (units a) (units b) = leb a b
le_fixed (units a) (below b) = false
le_fixed (below a) (units b) = true
le_fixed (below a) (below b) = leb b a

abbrev floor_fixed : Fixed → ℕ
floor_fixed (units a) = a / scale
floor_fixed (below a) = 0

abbrev sum_fixed : List Fixed → Fixed
sum_fixed [] = units 0
sum_fixed (x ∷ xs) = add_fixed x (sum_fixed xs)

instance abbrev pub floats : Floats Fixed
floats = record {
  decimal = λ m k. units (m * scale / suc (10 ^ k - 1));
  add = add_fixed;
  sub = sub_fixed;
  mul = mul_fixed;
  div = div_fixed;
  le = le_fixed;
  sum = sum_fixed;
  floor = floor_fixed;
  log2 = λ x. x;
  round = λ x k. x;
  parse = λ s. none;
}

sub-nonneg : (x y : Fixed) → le_fixed y x ≡ true → le_fixed (units 0) (sub_fixed x y) ≡ true
sub-nonneg (units a) (units zero) h = ground arith
sub-nonneg (units a) (units (suc b)) h = ground arith
sub-nonneg (units a) (below b) h = ground arith
sub-nonneg (below a) (units b) h = ground arith
sub-nonneg (below a) (below b) h = ground arith

add-nonneg : (x y : Fixed) → le_fixed (units 0) x ≡ true → le_fixed y (add_fixed y x) ≡ true
add-nonneg (units a) (units b) h = ground arith
add-nonneg (units a) (below b) h = ground arith
add-nonneg (below a) (units b) h = ground arith
add-nonneg (below a) (below b) h = ground arith

sub-le : (x y : Fixed) → le_fixed (units 0) x ≡ true → le_fixed (sub_fixed y x) y ≡ true
sub-le (units zero) (units b) h = ground arith
sub-le (units zero) (below b) h = ground arith
sub-le (units (suc a)) (units b) h = ground arith
sub-le (units (suc a)) (below b) h = ground arith
sub-le (below a) y h = ground arith

le_trans_fixed : (x y z : Fixed) → le_fixed x y ≡ true → le_fixed y z ≡ true → le_fixed x z ≡ true
le_trans_fixed x y z h k = ground arith

le_total_fixed : (x y : Fixed) → (le_fixed x y ≡ true) ⊎ (le_fixed y x ≡ true)
le_total_fixed x y = ground arith

mul-nonneg :
    (x y : Fixed)
    → le_fixed (units 0) x ≡ true
    → le_fixed (units 0) y ≡ true
    → le_fixed (units 0) (mul_fixed x y) ≡ true
mul-nonneg (units a) (units b) h k = ground arith
mul-nonneg (units a) (below b) h k = ground arith
mul-nonneg (below a) y h k = ground arith

div-nonneg :
    (x y : Fixed)
    → le_fixed (units 0) x ≡ true
    → le_fixed y (units 0) ≡ false
    → le_fixed (units 0) (div_fixed x y) ≡ true
div-nonneg (units a) (units b) h k = ground arith
div-nonneg (units a) (below b) h k = ground arith
div-nonneg (below a) y h k = ground arith

decimal_mono_nat : (m n d : ℕ) → m ≤ n → m * scale / suc d ≤ n * scale / suc d
decimal_mono_nat m n d h =
    (le-div_iff_mul-le {k = suc d} (omega arith)).1
      (omega (arith, div-mul-le_self (m * scale) (suc d)))

scale_le : (a b : ℕ) → scale ≤ b → a * scale ≤ b * a
scale_le a b h = omega (arith, mul-le-mul_left {m = scale} {n = b} a h)

div-le_fixed :
    (x y : Fixed)
    → le_fixed (units 0) x ≡ true
    → le_fixed (units scale) y ≡ true
    → le_fixed (div_fixed x y) x ≡ true
div-le_fixed (units a) (units b) h k =
    let bound = div-le_of_le-mul b (scale_le a b (ground arith)) in ground (arith, bound)
div-le_fixed (units a) (below b) h k = ground arith
div-le_fixed (below a) y h k = ground arith

pub floats-IsOrdered : IsOrdered Fixed
floats-IsOrdered = record {
  le_refl = λ x. ground arith;
  le_trans = le_trans_fixed;
  le_total = le_total_fixed;
  decimal_mono = λ m n k h. let fact = decimal_mono_nat m n (10 ^ k - 1) h in ground (arith, fact);
  one_pos = refl;
  sub-nonneg = sub-nonneg;
  add-nonneg = λ x y h. add-nonneg x y h;
  sub-le = λ x y h. sub-le x y h;
  mul-nonneg = mul-nonneg;
  div-nonneg = λ x y h k. div-nonneg x y h (ground (arith, k));
  div-le = λ x y h k. div-le_fixed x y h k;
}
