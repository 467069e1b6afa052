-- ===== src/Risk/LossTracker/Sizing.antt =====
-- The risk budget and the balance-tiered ceiling.
use native.Mathlib.Nat.{one-le-pow}
use bobis_quote_mt5_trading.Prelude.{ℕ, ◌≤◌, ◌^◌, ◌≡◌, true, arith}
use bobis_quote_mt5_trading.Prelude.Floats.{Floats, IsOrdered, num_pos, num, mul, div, le, lt}
use bobis_quote_mt5_trading.Risk.LossTracker.{
  LossTracker, slots, daily_risk_amount, tier_cap_pct, balance_tier_cap_pct,
  balance_tier_cap_amount, balance_tier_cap,
}

module _ {F : Type 0} ⦃fl : Floats F⦄ where
  -- The one locked read gives the pair of what the two single-value methods give.
  pub balance_tier_cap-eq-pair :
      (threshold cap floor : F) (s : LossTracker F)
      → balance_tier_cap threshold cap floor s ≡ (
        balance_tier_cap_pct threshold cap floor s,
        balance_tier_cap_amount threshold cap floor s,
      )
  unfolding balance_tier_cap balance_tier_cap_pct balance_tier_cap_amount tier_cap_pct
  balance_tier_cap-eq-pair threshold cap floor s = ground arith

slots-pos : (streak : ℕ) → 1 ≤ slots streak
slots-pos streak = ground arith

pow-pos : (n : ℕ) → 1 ≤ 2 ^ n
pow-pos n = one-le-pow n 2 (omega arith)

module _ {F : Type 0} ⦃fl : Floats F⦄ (o : IsOrdered F) where
  -- The ceiling lies between the floor and the base ceiling, in every tier.
  pub tier_cap_pct_bounds :
      (balance threshold cap floor : F)
      → le (num 0) floor ≡ true
      → le floor cap ≡ true
      → (le floor (tier_cap_pct balance threshold cap floor) ≡ true)
        × (le (tier_cap_pct balance threshold cap floor) cap ≡ true)
  unfolding tier_cap_pct
  tier_cap_pct_bounds balance threshold cap floor pos h =
      let n = fl.floor (fl.log2 (div balance threshold)) in
      let halved =
        o.div-le cap (num (2 ^ n)) (o.le_trans (num 0) floor cap pos h)
          (o.decimal_mono 1 (2 ^ n) 0 (pow-pos n)) in
      ground
        (arith, halved, o.le_refl cap, o.le_refl floor, o.le_total floor (div cap (num (2 ^ n))))

  -- The risk of one trade is not negative and at most the daily budget, whatever the losing streak.
  pub daily_risk_amount_bounds :
      (streak : ℕ) (s : LossTracker F)
      → le (num 0) s.limit ≡ true
      → lt (num 0) s.start_of_day_equity ≡ true
      → (le (num 0) (daily_risk_amount streak s) ≡ true)
        × (le (daily_risk_amount streak s) (mul s.start_of_day_equity (div s.limit (num 100)))
            ≡ true)
  unfolding daily_risk_amount
  daily_risk_amount_bounds streak s lim pos =
      let budget = mul s.start_of_day_equity (div s.limit (num 100)) in
      let rate = o.div-nonneg s.limit (num 100) lim (num_pos o 100 (omega arith)) in
      let start : le (num 0) s.start_of_day_equity ≡ true =
        ground (arith, o.le_total (num 0) s.start_of_day_equity) in
      let whole = o.mul-nonneg s.start_of_day_equity (div s.limit (num 100)) start rate in
      let least = slots-pos streak in
      ground (
        arith,
        o.div-nonneg budget (num (slots streak)) whole (num_pos o (slots streak) least),
        o.div-le budget (num (slots streak)) whole (o.decimal_mono 1 (slots streak) 0 least),
      )
