-- ===== src/Risk/Engine/Multipliers.antt =====
-- How the multipliers of the rules make up that of the decision.
use bobis_quote_mt5_trading.Prelude.{
  ◌≡◌, refl, sym, ap, ◌∙◌, String, true, false, ◌&&◌, none, some, ◌==◌, if◌then◌else◌, Eq_string,
  arith, Bool-cases, inl, inr,
}
use bobis_quote_mt5_trading.Prelude.Dict.{
  Dict, lookup, lookup_or, insert, remove, lookup-insert, lookup-remove,
}
use bobis_quote_mt5_trading.Prelude.Floats.{Floats, num, mul, lt}
use bobis_quote_mt5_trading.Risk.Rules.{Value, number}
use bobis_quote_mt5_trading.Risk.Engine.{compose_multipliers}

apart_keys :
    (k : String) → ("risk_multiplier" == k) ≡ true → ("equity_throttle_multiplier" == k) ≡ false
apart_keys k same =
    sym
      (ap (λ x. "equity_throttle_multiplier" == x) ((Eq_string.beq_iff "risk_multiplier" k).0 same))

module _ {F : Type 0} ⦃fl : Floats F⦄ where
  abbrev one : Value F
  one = number (num 1)

  lookup_or-remove :
      (k j : String) (v : Value F) (d : Dict String (Value F))
      → (k == j) ≡ false
      → lookup_or j v (remove k d) ≡ lookup_or j v d
  unfolding lookup_or
  lookup_or-remove k j v d apart = ground (arith, lookup-remove k j d, apart)

  -- Where the rules report the multipliers as numbers, or leave them out for 1, the decision's data have no
  -- throttle multiplier, a risk multiplier that is the product of the two if the throttle's is below 1,
  -- and every other entry as the rules reported it.
  pub compose_multipliers-product :
      (d : Dict String (Value F)) (m throttle : F)
      → lookup_or "risk_multiplier" one d ≡ number m
      → lookup_or "equity_throttle_multiplier" one d ≡ number throttle
      → (e : Dict String (Value F)) × (compose_multipliers d ≡ some e)
        × ((k : String)
            → lookup k e ≡ (
                if "equity_throttle_multiplier" == k
                then none
                else if lt throttle (num 1) && "risk_multiplier" == k
                then some (number (mul m throttle))
                else lookup k d))
  unfolding compose_multipliers
  compose_multipliers-product d m throttle risk thr =
      let rest = remove "equity_throttle_multiplier" d in
      let risk' =
        lookup_or-remove "equity_throttle_multiplier" "risk_multiplier" one d refl ∙ risk in
      let at_k = λ (k : String). lookup-remove "equity_throttle_multiplier" k d in
      elim (Bool-cases (lt throttle (num 1))) [
        | inr full ↦ (rest, ground (arith, thr, full), λ k. ground (arith, at_k k, full))
        | inl low ↦ (
          insert "risk_multiplier" (number (mul m throttle)) rest,
          ground (arith, thr, low, risk'),
          λ k.
              let written = lookup-insert "risk_multiplier" k (number (mul m throttle)) rest in
              elim (Bool-cases ("risk_multiplier" == k)) [
                | inl same ↦ ground (arith, at_k k, low, written, same, apart_keys k same)
                | inr other ↦ ground (arith, at_k k, low, written, other)
              ],
        )
      ]
