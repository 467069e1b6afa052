-- ===== src/Risk/EquityThrottle/Drawdown.antt =====
-- What a close counts, and the drawdown of a window.
use bobis_quote_mt5_trading.Prelude.{
  ℕ, String, Bool, true, ◌≡◌, ◌↔◌, ◌⊎◌, inl, inr, refl, Option, none, some, List, [], ◌∷◌, arith,
  Option-cases, if◌then◌else◌,
}
use bobis_quote_mt5_trading.Prelude.Floats.{Floats, IsOrdered, num, add, sub, le, lt}
use bobis_quote_mt5_trading.Risk.EquityThrottle.Contribution.{
  Row, money_r, drawdown_from, compute_drawdown_r, contribution_from_trade, contribution_from_row,
  weigh, row_contribution,
}
use bobis_quote_mt5_trading.Domain.Trade.{Trade}

module _ {F : Type 0} ⦃fl : Floats F⦄ where
  money_r-none :
      (side : String) (entry sl close rr : Option F) (hit : Bool) (fraction : F) (exit : Option F)
      → (money_r side entry sl close rr hit fraction exit ≡ none) ↔ (rr ≡ none)
  unfolding money_r
  money_r-none side entry sl close none hit fraction exit = (λ _. refl, λ _. refl)
  money_r-none side entry sl close (some rr) hit fraction exit =
      (λ h. ground arith, λ h. ground arith)

  weigh-none : (t : ℕ) (r : Option F) (k : F) → (weigh t r k ≡ none) ↔ (r ≡ none)
  weigh-none t none k = (λ _. refl, λ _. refl)
  weigh-none t (some r) k = (λ h. cc, λ h. cc)

  skipped-trade :
      (now : ℕ) (trade : Trade F)
      → (contribution_from_trade now trade ≡ none) ↔ (trade.realized_rr ≡ none)
  unfolding contribution_from_trade
  skipped-trade now trade = (
    λ h. (money_r-none _ _ _ _ _ _ _ _).0 ((weigh-none _ _ _).0 h),
    λ h. (weigh-none _ _ _).1 ((money_r-none _ _ _ _ _ _ _ _).1 h),
  )

  skipped-row : (row : Row F) (t : ℕ) → (row_contribution row t ≡ none) ↔ (row.realized_rr ≡ none)
  skipped-row row t = (
    λ h. (money_r-none _ _ _ _ _ _ _ _).0 ((weigh-none _ _ _).0 h),
    λ h. (weigh-none _ _ _).1 ((money_r-none _ _ _ _ _ _ _ _).1 h),
  )

  skipped-dated :
      (row : Row F)
      → (contribution_from_row row ≡ none) ↔ ((row.realized_rr ≡ none) ⊎ (row.closed_at ≡ none))
  unfolding contribution_from_row
  skipped-dated row = elim (Option-cases row.closed_at) [
    | inl undated ↦ (λ h. inr undated, λ h. ground (arith, undated))
    | inr (t, dated) ↦ (
      λ h. ground (arith, dated, skipped-row row t),
      λ h. ground (arith, dated, skipped-row row t, h),
    )
  ]

  -- A live close is left out of the window exactly where the trade has no realized R; a stored one
  -- exactly where its row has no realized R or no time of close.
  pub contributions_skipped :
      (now : ℕ) (trade : Trade F) (row : Row F)
      → ((contribution_from_trade now trade ≡ none) ↔ (trade.realized_rr ≡ none))
        × ((contribution_from_row row ≡ none) ↔ ((row.realized_rr ≡ none) ⊎ (row.closed_at ≡ none)))
  contributions_skipped now trade row = (skipped-trade now trade, skipped-dated row)

  drawdown_from-nonneg :
      IsOrdered F → (total peak : F) (cs : List F) → le (num 0) (drawdown_from total peak cs) ≡ true
  unfolding drawdown_from
  drawdown_from-nonneg o total peak [] =
      ground (arith, o.le_refl (num 0), o.le_total (num 0) (sub peak total))
  drawdown_from-nonneg o total peak (c ∷ cs) =
      drawdown_from-nonneg o (add total c) (if lt peak (add total c) then add total c else peak) cs

  -- The drawdown of a window is never negative.
  pub compute_drawdown_r-nonneg :
      IsOrdered F → (cs : List F) → le (num 0) (compute_drawdown_r cs) ≡ true
  unfolding compute_drawdown_r
  compute_drawdown_r-nonneg o cs = drawdown_from-nonneg o (num 0) (num 0) cs
