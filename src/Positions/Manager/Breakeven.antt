-- ===== src/Positions/Manager/Breakeven.antt =====
-- _valid_breakeven_sl: the stop that protects a position after its first target.
use bobis_quote_mt5_trading.Prelude.{ℕ, suc, Option, none, some, ltb, nat_eq, if◌then◌else◌}
use bobis_quote_mt5_trading.Prelude.Floats.{
  Floats, num, add, sub, mul, div, le, eq, fmin, fmax, fabs,
}
use bobis_quote_mt5_trading.Domain.Trade.{Trade, OrderSide, buy, sell}
use bobis_quote_mt5_trading.Domain.Position.{SymbolInfo, Tick}

abbrev pub larger : ℕ → ℕ → ℕ
larger a b = if ltb a b then b else a

module _ {F : Type 0} ⦃fl : Floats F⦄ where
  -- The signal's entry where the plan has a signal, and the fill's otherwise.
  unfoldable pub breakeven_anchor : Trade F → F → F
  breakeven_anchor trade filled = elim trade.plan.signal [
    | none ↦ filled
    | some signal ↦ signal.entry_price
  ]

  unfoldable pub spread_of : Tick F → F
  spread_of tick = fmax (sub tick.ask tick.bid) (num 0)

  -- What the stop keeps beyond the entry.
  unfoldable pub breakeven_buffer :
      (spread_multiplier max_buffer_pct_of_risk initial_risk spread : F) → F
  breakeven_buffer spread_multiplier max_buffer_pct_of_risk initial_risk spread =
      let multiplier = fmax spread_multiplier (num 0) in
      let risk_cap = div (mul initial_risk (fmax max_buffer_pct_of_risk (num 0))) (num 100) in
      if eq multiplier (num 0) then num 0 else fmax spread (fmin (mul spread multiplier) risk_cap)

  unfoldable pub breakeven_distance : SymbolInfo F → F
  breakeven_distance si = mul (num (suc (larger si.stops_level si.freeze_level))) si.point

  -- `int(digits or 5)`
  unfoldable pub digits_of : SymbolInfo F → ℕ
  digits_of si = if nat_eq si.digits 0 then 5 else si.digits

  unfoldable pub protect : OrderSide → SymbolInfo F → Tick F → (entry buffer : F) → Option F
  protect buy si tick entry buffer =
      let protected_sl = add entry buffer in
      if le tick.bid (num 0)
      then none
      else if le protected_sl (sub tick.bid (breakeven_distance si))
      then some (fl.round protected_sl (digits_of si))
      else none
  protect sell si tick entry buffer =
      let protected_sl = sub entry buffer in
      if le tick.ask (num 0)
      then none
      else if le (add tick.ask (breakeven_distance si)) protected_sl
      then some (fl.round protected_sl (digits_of si))
      else none

  abbrev pub buffer_for :
      Trade F → Tick F → (spread_multiplier max_buffer_pct_of_risk entry : F) → F
  buffer_for trade tick spread_multiplier max_buffer_pct_of_risk entry =
      breakeven_buffer spread_multiplier max_buffer_pct_of_risk
        (fabs (sub entry trade.plan.stop_loss)) (spread_of tick)

  unfoldable pub breakeven_from :
      Trade F
      → SymbolInfo F
      → Tick F
      → (spread_multiplier max_buffer_pct_of_risk : F) → Option F
      → Option F
  breakeven_from trade si tick spread_multiplier max_buffer_pct_of_risk none = none
  breakeven_from trade si tick spread_multiplier max_buffer_pct_of_risk (some filled) =
      let entry = breakeven_anchor trade filled in
      protect trade.side si tick entry
        (buffer_for trade tick spread_multiplier max_buffer_pct_of_risk entry)

  unfoldable pub valid_breakeven_sl :
      Trade F → SymbolInfo F → Tick F → (spread_multiplier max_buffer_pct_of_risk : F) → Option F
  valid_breakeven_sl trade si tick spread_multiplier max_buffer_pct_of_risk =
      breakeven_from trade si tick spread_multiplier max_buffer_pct_of_risk trade.entry_price
