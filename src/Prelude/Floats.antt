-- ===== src/Prelude/Floats.antt =====
-- What the program does with Python floats, as an interface: the values are the floats other than
-- NaN, `decimal m k` is the float written m / 10^k, and the operations round as the hardware does.
-- No law below says that an operation is exact, beyond what rounding to nearest keeps.
use Prim.Native.Nat.{ℕ, ◌≤◌}
use Prim.Native.String.{String}
use mathlib.Core.Option.{Option}
use native.Mathlib.Omega.{arith}
use mathlib.Core.Path.{◌≡◌}
use mathlib.Core.List.{List}
use mathlib.Core.Logic.{◌⊎◌}
use mathlib.Core.Bool.{Bool, true, not, ◌&&◌}
use bobis_quote_mt5_trading.Prelude.Tests.{if◌then◌else◌}

pub record Floats (F : Type 0) : Type 0 where
  pub decimal : ℕ → ℕ → F
  pub add : F → F → F
  pub sub : F → F → F
  pub mul : F → F → F
  pub div : F → F → F
  pub le : F → F → Bool
  -- sum(values), which compensates its rounding in recent versions
  pub sum : List F → F
  -- math.floor and math.log2, of what the program gives them: numbers that are not negative
  pub floor : F → ℕ
  pub log2 : F → F
  -- round(x, digits)
  pub round : F → ℕ → F
  -- float(text), `none` where it raises
  pub parse : String → Option F

module _ {F : Type 0} ⦃fl : Floats F⦄ where
  abbrev pub decimal : ℕ → ℕ → F
  decimal = fl.decimal

  -- float(n)
  abbrev pub num : ℕ → F
  num n = fl.decimal n 0

  abbrev pub add : F → F → F
  add = fl.add

  abbrev pub sub : F → F → F
  sub = fl.sub

  abbrev pub mul : F → F → F
  mul = fl.mul

  abbrev pub div : F → F → F
  div = fl.div

  -- a <= b
  abbrev pub le : F → F → Bool
  le = fl.le

  -- a < b: away from NaN the order is total
  abbrev pub lt : F → F → Bool
  lt a b = not (fl.le b a)

  -- a == b
  abbrev pub eq : F → F → Bool
  eq a b = fl.le a b && fl.le b a

  -- the truth value of a float
  abbrev pub truthy : F → Bool
  truthy a = not (eq a (num 0))

  -- min(a, b) and max(a, b) return their first argument on a tie
  abbrev pub fmin : F → F → F
  fmin a b = if lt b a then b else a

  abbrev pub fmax : F → F → F
  fmax a b = if lt a b then b else a

  abbrev pub fabs : F → F
  fabs a = if lt a (num 0) then fl.sub (num 0) a else a

-- Laws that IEEE 754 arithmetic keeps away from NaN, whatever the rounding.
pub record IsOrdered (F : Type 0) ⦃fl : Floats F⦄ : Type 0 where
  pub le_refl : (x : F) → le x x ≡ true
  pub le_trans : (x y z : F) → le x y ≡ true → le y z ≡ true → le x z ≡ true
  pub le_total : (x y : F) → (le x y ≡ true) ⊎ (le y x ≡ true)
  pub decimal_mono : (m n k : ℕ) → m ≤ n → le (decimal {F = F} m k) (decimal n k) ≡ true
  pub one_pos : lt (num {F = F} 0) (num 1) ≡ true
  pub sub-nonneg : (x y : F) → le y x ≡ true → le (num 0) (sub x y) ≡ true
  pub add-nonneg : (x y : F) → le (num 0) x ≡ true → le y (add y x) ≡ true
  pub sub-le : (x y : F) → le (num 0) x ≡ true → le (sub y x) y ≡ true
  pub mul-nonneg :
      (x y : F) → le (num 0) x ≡ true → le (num 0) y ≡ true → le (num 0) (mul x y) ≡ true
  pub div-nonneg :
      (x y : F) → le (num 0) x ≡ true → lt (num 0) y ≡ true → le (num 0) (div x y) ≡ true
  pub div-le : (x y : F) → le (num 0) x ≡ true → le (num 1) y ≡ true → le (div x y) x ≡ true

module _ {F : Type 0} ⦃fl : Floats F⦄ (o : IsOrdered F) where
  pub num_pos : (n : ℕ) → 1 ≤ n → lt (num {F = F} 0) (num n) ≡ true
  num_pos n h =
      ground (arith, o.one_pos, o.decimal_mono 1 n 0 h, o.le_trans (num 1) (num n) (num 0))

  pub fmin-le : (a b c : F) → le a c ≡ true → le (fmin a b) c ≡ true
  fmin-le a b c h = ground (arith, o.le_total a b, o.le_trans b a c, h)

  pub fmin-right : (a b : F) → le (fmin a b) b ≡ true
  fmin-right a b = ground (arith, o.le_total a b, o.le_refl b)

  pub fmax-le : (a b c : F) → le c a ≡ true → le c (fmax a b) ≡ true
  fmax-le a b c h = ground (arith, o.le_total a b, o.le_trans c a b, h)
