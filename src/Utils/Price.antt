-- ===== src/Utils/Price.antt =====
-- src/utils/price.py.
use bobis_quote_mt5_trading.Prelude.{ℕ, ◌||◌, nat_eq, if◌then◌else◌}
use bobis_quote_mt5_trading.Prelude.Floats.{Floats, num, mul, div, sub, fmin, fmax, fabs}

module _ {F : Type 0} ⦃fl : Floats F⦄ where
  unfoldable pub pip_size : F → ℕ → F
  pip_size point digits = if nat_eq digits 5 || nat_eq digits 3 then mul point (num 10) else point

  unfoldable pub price_to_pips : F → F → ℕ → F
  unfolding pip_size
  price_to_pips price_diff point digits = div (fabs price_diff) (pip_size point digits)

  unfoldable pub pips_to_price : F → F → ℕ → F
  unfolding pip_size
  pips_to_price pips point digits = mul pips (pip_size point digits)

  unfoldable pub normalise_lots : (lots lot_step lot_min lot_max : F) → F
  normalise_lots lots lot_step lot_min lot_max =
      let stepped = mul (num (fl.floor (div lots lot_step))) lot_step in
      fl.round (fmax lot_min (fmin stepped lot_max)) 2

  unfoldable pub pip_distance : F → F → F → ℕ → F
  unfolding price_to_pips
  pip_distance a b point digits = price_to_pips (fabs (sub a b)) point digits
