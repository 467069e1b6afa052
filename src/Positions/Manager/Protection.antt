-- ===== src/Positions/Manager/Protection.antt =====
-- What a breakeven stop guarantees where one is given.
use bobis_quote_mt5_trading.Prelude.{
  ℕ, suc, ◌<◌, ◌≡◌, refl, ◌⊎◌, inl, inr, true, Option, none, some, if_holds, arith,
}
use bobis_quote_mt5_trading.Prelude.Floats.{
  Floats, IsOrdered, num, add, sub, mul, le, lt, eq, fmax, fmax-le, fabs,
}
use bobis_quote_mt5_trading.Domain.Trade.{Trade, OrderSide, buy, sell}
use bobis_quote_mt5_trading.Domain.Position.{SymbolInfo, Tick}
use bobis_quote_mt5_trading.Positions.Manager.Breakeven.{
  breakeven_anchor, spread_of, breakeven_buffer, breakeven_distance, digits_of, protect, buffer_for,
  breakeven_from, valid_breakeven_sl, larger,
}

module _ {F : Type 0} ⦃fl : Floats F⦄ where
  -- A number of points that is above the broker's stop distance and its freeze distance.
  abbrev pub IsDistance : SymbolInfo F → ℕ → Type 0
  IsDistance si n = (si.stops_level < n) × (si.freeze_level < n)

  -- The level before it is rounded: it stands behind the price by the broker's distance, on the
  -- profitable side of the entry by `buffer`.
  abbrev pub Behind : OrderSide → SymbolInfo F → Tick F → (entry buffer level : F) → Type 0
  Behind buy si tick entry buffer level =
      (level ≡ add entry buffer)
      × (le entry level ≡ true)
      × (lt (num 0) tick.bid ≡ true)
      × (n : ℕ) × IsDistance si n
      × (le level (sub tick.bid (mul (num n) si.point)) ≡ true)
  Behind sell si tick entry buffer level =
      (level ≡ sub entry buffer)
      × (le level entry ≡ true)
      × (lt (num 0) tick.ask ≡ true)
      × (n : ℕ) × IsDistance si n
      × (le (add tick.ask (mul (num n) si.point)) level ≡ true)

  abbrev pub IsProtected :
      OrderSide → SymbolInfo F → Tick F → (entry buffer : F) → Option F → Type 0
  IsProtected side si tick entry buffer none = Unit
  IsProtected side si tick entry buffer (some sl) =
      (level : F) × ((sl ≡ fl.round level (digits_of si)) × Behind side si tick entry buffer level)

  spread_of-nonneg : (o : IsOrdered F) (tick : Tick F) → le (num 0) (spread_of tick) ≡ true
  unfolding spread_of
  spread_of-nonneg o tick =
      ground (arith, o.le_refl (num 0), o.le_total (sub tick.ask tick.bid) (num 0))

  -- The buffer is not negative, and it is a whole spread at least where the multiplier is on.
  breakeven_buffer-nonneg :
      (o : IsOrdered F) (multiplier cap risk spread : F)
      → le (num 0) spread ≡ true
      → (le (num 0) (breakeven_buffer multiplier cap risk spread) ≡ true)
        × ((le multiplier (num 0) ≡ true)
            ⊎ (le spread (breakeven_buffer multiplier cap risk spread) ≡ true))
  unfolding breakeven_buffer
  breakeven_buffer-nonneg o multiplier cap risk spread h =
      if_holds P (eq (fmax multiplier (num 0)) (num 0)) _ _
        (λ e. (o.le_refl (num 0), inl (ground (arith, e, o.le_total multiplier (num 0)))))
        (λ e. (fmax-le o spread _ (num 0) h, inr (fmax-le o spread _ spread (o.le_refl spread))))
    where
      P : F → Type 0
      P x = (le (num 0) x ≡ true) × ((le multiplier (num 0) ≡ true) ⊎ (le spread x ≡ true))

  protect-IsProtected :
      (o : IsOrdered F) (side : OrderSide) (si : SymbolInfo F) (tick : Tick F) (entry buffer : F)
      → le (num 0) buffer ≡ true
      → IsProtected side si tick entry buffer (protect side si tick entry buffer)
  unfolding protect breakeven_distance
  protect-IsProtected o buy si tick entry buffer h =
      if_holds (IsProtected buy si tick entry buffer) (le tick.bid (num 0)) _ _ (λ _. tt)
        (λ e.
          if_holds (IsProtected buy si tick entry buffer)
            (le (add entry buffer) (sub tick.bid (breakeven_distance si))) _ _
            (λ k. (
              add entry buffer,
              (
                refl,
                (
                  refl,
                  o.add-nonneg buffer entry h,
                  ground (arith, e),
                  suc (larger si.stops_level si.freeze_level),
                  (ground arith, ground arith),
                  k,
                ),
              ),
            ))
            (λ _. tt))
  protect-IsProtected o sell si tick entry buffer h =
      if_holds (IsProtected sell si tick entry buffer) (le tick.ask (num 0)) _ _ (λ _. tt)
        (λ e.
          if_holds (IsProtected sell si tick entry buffer)
            (le (add tick.ask (breakeven_distance si)) (sub entry buffer)) _ _
            (λ k. (
              sub entry buffer,
              (
                refl,
                (
                  refl,
                  o.sub-le buffer entry h,
                  ground (arith, e),
                  suc (larger si.stops_level si.freeze_level),
                  (ground arith, ground arith),
                  k,
                ),
              ),
            ))
            (λ _. tt))

module _ {F : Type 0} ⦃fl : Floats F⦄ (trade : Trade F) (si : SymbolInfo F) (tick : Tick F)
    (multiplier cap : F) where
  -- The answer for a trade that was filled at a price, or has none.
  abbrev pub Guards : (filled answer : Option F) → Type 0
  Guards none answer = answer ≡ none
  Guards (some filled) answer =
      let entry = breakeven_anchor trade filled in
      let buffer = buffer_for trade tick multiplier cap entry in
      ((le multiplier (num 0) ≡ true) ⊎ (le (spread_of tick) buffer ≡ true))
      × IsProtected trade.side si tick entry buffer answer

  breakeven_from-Guards :
      (o : IsOrdered F) (filled : Option F)
      → Guards filled (breakeven_from trade si tick multiplier cap filled)
  unfolding breakeven_from
  breakeven_from-Guards o none = refl
  breakeven_from-Guards o (some filled) =
      let entry = breakeven_anchor trade filled in
      let kept =
        breakeven_buffer-nonneg o multiplier cap (fabs (sub entry trade.plan.stop_loss))
          (spread_of tick) (spread_of-nonneg o tick) in
      (kept.1, protect-IsProtected o trade.side si tick entry _ kept.0)

  -- A breakeven stop is given only for a trade with an entry. It is the rounding, to the symbol's digits, of
  -- a level that lies on the profitable side of the entry, or on it, by a buffer of a whole spread at
  -- least where the multiplier is positive, and that is away from a positive price by a number of
  -- points above both the broker's stop distance and its freeze distance.
  pub valid_breakeven_sl-Guards :
      (o : IsOrdered F) → Guards trade.entry_price (valid_breakeven_sl trade si tick multiplier cap)
  unfolding valid_breakeven_sl
  valid_breakeven_sl-Guards o = breakeven_from-Guards o trade.entry_price
