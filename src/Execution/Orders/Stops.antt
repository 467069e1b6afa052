-- ===== src/Execution/Orders/Stops.antt =====
-- What a rejected attempt leaves of the volume and of the stops, for the loops of order_manager.py.
use bobis_quote_mt5_trading.Prelude.{
  ◌≡◌, refl, ap, if◌then◌else◌, ◌⊎◌, inl, inr, Bool, true, false, ◌||◌, not, ℕ, suc, ◌+◌, ◌≤◌,
  length, length-append, List, All, All-append, [], ◌∷◌, ◌++◌, arith, some, Eq_nat, Eq_option, ◌==◌,
}
use bobis_quote_mt5_trading.Prelude.Floats.{
  Floats, IsOrdered, num, sub, add, mul, lt, le, fmin-le, fmax-le,
}
use bobis_quote_mt5_trading.Domain.Trade.{TradePlan, OrderSide, buy, sell}
use bobis_quote_mt5_trading.Domain.Position.{SymbolInfo}
use bobis_quote_mt5_trading.Brokers.{BrokerError, OrderRequest}
use bobis_quote_mt5_trading.Execution.Orders.{
  Work, Next, retry, give_up, widen_stops, widen, halve, on_no_money, on_error, is_retryable,
  retcode_no_money, retcode_invalid_stops,
}

module _ {F : Type 0} ⦃fl : Floats F⦄ where
  -- Stops that stand no nearer to the price than the plan's.
  abbrev pub Outward : OrderSide → (plan_sl plan_tp sl tp : F) → Type 0
  Outward buy plan_sl plan_tp sl tp = (le sl plan_sl ≡ true) × (le plan_tp tp ≡ true)
  Outward sell plan_sl plan_tp sl tp = (le plan_sl sl ≡ true) × (le tp plan_tp ≡ true)

module _ {F : Type 0} ⦃fl : Floats F⦄ (o : IsOrdered F) where
  pub Outward-refl : (side : OrderSide) (sl tp : F) → Outward side sl tp sl tp
  Outward-refl buy sl tp = (o.le_refl sl, o.le_refl tp)
  Outward-refl sell sl tp = (o.le_refl sl, o.le_refl tp)

  widen_stops-Outward :
      (side : OrderSide) (plan_sl plan_tp entry sl tp dist : F)
      → Outward side plan_sl plan_tp sl tp
      → Outward side plan_sl plan_tp
          (widen_stops side entry sl tp dist).0
          (widen_stops side entry sl tp dist).1
  unfolding widen_stops
  widen_stops-Outward buy plan_sl plan_tp entry sl tp dist h =
      (fmin-le o sl (sub entry dist) plan_sl h.0, fmax-le o tp (add entry dist) plan_tp h.1)
  widen_stops-Outward sell plan_sl plan_tp entry sl tp dist h =
      (fmax-le o sl (add entry dist) plan_sl h.0, fmin-le o tp (sub entry dist) plan_tp h.1)

module _ {F : Type 0} ⦃fl : Floats F⦄ (plan : TradePlan F) (si : SymbolInfo F) where
  -- The plan's volume, or half of it, rounded to the symbol's lots.
  abbrev pub Sized : F → Type 0
  Sized volume = (volume ≡ plan.lot_size) ⊎ (volume ≡ halve si plan.lot_size)

  -- What every order that is sent asks for.
  abbrev pub IsWithin : OrderRequest F → Type 0
  IsWithin r =
      (r.symbol ≡ plan.symbol)
      × Sized r.volume
      × Outward plan.side plan.stop_loss plan.tp2 r.sl r.tp

module _ {F B R : Type 0} ⦃fl : Floats F⦄ (plan : TradePlan F) (si : SymbolInfo F) where
  -- The state of a call between two attempts.
  abbrev pub IsOnPlan : Work F B R → Type 0
  IsOnPlan w =
      (((w.margin_halved ≡ false) × (w.volume ≡ plan.lot_size))
        ⊎ ((w.margin_halved ≡ true) × (w.volume ≡ halve si plan.lot_size)))
      × Outward plan.side plan.stop_loss plan.tp2 w.sl w.tp

  abbrev pub work_of : Next F B R → Work F B R
  work_of (retry w) = w
  work_of (give_up w) = w

  pub on_plan-Sized : (w : Work F B R) → IsOnPlan w → Sized plan si w.volume
  on_plan-Sized w (inl h, _) = inl h.1
  on_plan-Sized w (inr h, _) = inr h.1

  -- What a handler leaves: a state on plan, with the orders as they were.
  abbrev pub Keeps : Work F B R → Next F B R → Type 0
  Keeps w next =
      IsOnPlan (work_of next)
      × ((work_of next).requests ≡ w.requests)
      × ((work_of next).closes ≡ w.closes)

  if-Keeps :
      (b : Bool) (w : Work F B R) (x y : Next F B R)
      → Keeps w x
      → Keeps w y
      → Keeps w (if b then x else y)
  if-Keeps true w x y h k = h
  if-Keeps false w x y h k = k

  on_no_money-Keeps :
      (error : BrokerError) (w : Work F B R)
      → IsOnPlan w
      → Keeps w (on_no_money plan.side si error w)
  unfolding on_no_money
  on_no_money-Keeps error w (inl (e, v), out) =
      if-Keeps (w.margin_halved || lt (halve si w.volume) si.lot_min) w _ _
        ((inl (e, v), out), refl, refl) ((inr (refl, ap (halve si) v), out), refl, refl)
  on_no_money-Keeps error w (inr (e, v), out) = rw e ((inr (refl, v), out), refl, refl)

  pub on_error-Keeps :
      (o : IsOrdered F) (is_last : Bool) (price : F) (error : BrokerError) (w : Work F B R)
      → IsOnPlan w
      → Keeps w (on_error plan.side si is_last price error w)
  unfolding on_error widen
  on_error-Keeps o is_last price error w h =
      let wide =
        widen_stops-Outward o plan.side plan.stop_loss plan.tp2 price w.sl w.tp
          (mul (num si.stops_level) si.point) h.1 in
      let halved = on_no_money-Keeps error w h in
      if-Keeps (error.retcode == some retcode_no_money) w _ _ halved (
        if-Keeps (not (is_retryable error.retcode) || is_last) w _ _ (h, refl, refl)
          (if-Keeps (error.retcode == some retcode_invalid_stops) w _ _ ((h.0, wide), refl, refl)
            (h, refl, refl)))

module _ {F : Type 0} ⦃fl : Floats F⦄ (plan : TradePlan F) (si : SymbolInfo F) where
  -- No more orders than `bound`, each within the plan.
  abbrev pub IsBounded : ℕ → List (OrderRequest F) → Type 0
  IsBounded bound rs = (length rs ≤ bound) × All (IsWithin plan si) rs

  pub snoc-IsBounded :
      (rs : List (OrderRequest F)) (r : OrderRequest F) (n : ℕ)
      → All (IsWithin plan si) rs
      → IsWithin plan si r
      → IsBounded (length rs + suc n) (rs ++ r ∷ [])
  snoc-IsBounded rs r n hs h = (
    omega (arith, length-append rs (r ∷ [])),
    All-append (IsWithin plan si) rs (r ∷ []) hs (h, tt),
  )
