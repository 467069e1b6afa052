-- ===== src/Risk/EquityThrottle/Contribution.antt =====
-- What a closed trade counts in the drawdown window: money R, weighted with the size it was taken at.
use bobis_quote_mt5_trading.Prelude.{
  ℕ, String, Bool, not, ◌&&◌, ◌||◌, Option, none, some, List, [], ◌∷◌, ◌==◌, if◌then◌else◌,
  Eq_string, Eq_nat,
}
use bobis_quote_mt5_trading.Prelude.Floats.{
  Floats, num, add, sub, mul, div, le, lt, fmin, fmax, truthy,
}
use bobis_quote_mt5_trading.Domain.Trade.{Trade, OrderSide, buy, sell}

-- The originals that `plan_json` keeps; all absent where it is missing or does not parse.
pub record PlanJson (F : Type 0) : Type 0 where
  pub risk_multiplier : Option F
  pub entry_price : Option F
  pub stop_loss : Option F

-- A row of the trades table, with its `plan_json` read.
pub record Row (F : Type 0) : Type 0 where
  pub realized_rr : Option F
  pub closed_at : Option ℕ
  pub plan : PlanJson F
  pub entry_lots : Option F
  pub current_lots : Option F
  pub tp1_hit : Bool
  pub side : Option String
  pub entry_price : Option F
  pub close_price : Option F
  pub tp1 : Option F

-- A close: when, and the weighted R.
abbrev pub Entry : Type 0 → Type 0
Entry F = ℕ × F

abbrev pub side_text : OrderSide → String
side_text buy = "BUY"
side_text sell = "SELL"

abbrev or_now : ℕ → Option ℕ → ℕ
or_now now none = now
or_now now (some t) = if t == 0 then now else t

abbrev or_side : Option String → String
or_side none = "BUY"
or_side (some s) = if s == "" then "BUY" else s

module _ {F : Type 0} ⦃fl : Floats F⦄ where
  -- Python's `a or b` on an optional float: zero counts as absent.
  abbrev pub or_float : Option F → Option F → Option F
  or_float none b = b
  or_float (some a) b = if truthy a then some a else b

  abbrev pub or_value : Option F → F → F
  or_value none b = b
  or_value (some a) b = if truthy a then a else b

  -- Both legs against the original stop distance.
  unfoldable pub blend : (risk r_tp1 r_final fraction : F) → F
  blend risk tp1_reward final_reward tp1_fraction =
      let fraction : F = fmin (num 1) (fmax (num 0) tp1_fraction) in
      add (mul fraction (div tp1_reward risk)) (mul (sub (num 1) fraction) (div final_reward risk))

  unfoldable pub two_legs :
      (side : String)
      → (entry_price original_sl close_price realized_rr tp1_fraction tp1_exit : F) → F
  unfolding blend
  two_legs side entry_price original_sl close_price realized_rr tp1_fraction tp1_exit =
      if side == "BUY"
      then if le (sub entry_price original_sl) (num 0)
        then realized_rr
        else blend (sub entry_price original_sl) (sub tp1_exit entry_price)
            (sub close_price entry_price) tp1_fraction
      else if side == "SELL"
      then if le (sub original_sl entry_price) (num 0)
        then realized_rr
        else blend (sub original_sl entry_price) (sub entry_price tp1_exit)
            (sub entry_price close_price) tp1_fraction
      else realized_rr

  -- The prices where all four are there and not zero.
  unfoldable pub with_prices :
      Option F → Option F → Option F → Option F → (F → F → F → F → F) → F → F
  with_prices (some a) (some b) (some c) (some d) f other =
      if truthy a && truthy b && truthy c && truthy d then f a b c d else other
  with_prices _ _ _ _ f other = other

  unfoldable pub money_r :
      (side : String)
      → (entry_price original_sl close_price realized_rr : Option F) → (tp1_hit : Bool)
      → (tp1_fraction : F) → (tp1_exit_price : Option F) → Option F
  unfolding two_legs with_prices
  money_r side entry_price original_sl close_price none tp1_hit tp1_fraction tp1_exit_price = none
  money_r side entry_price original_sl close_price (some rr) tp1_hit tp1_fraction tp1_exit_price =
      if not tp1_hit || le tp1_fraction (num 0)
      then some rr
      else some (
          with_prices entry_price original_sl close_price tp1_exit_price
            (λ entry sl close exit. two_legs side entry sl close rr tp1_fraction exit) rr)

  unfoldable pub drawdown_from : (total peak : F) → List F → F
  drawdown_from total peak [] = fmax (num 0) (sub peak total)
  drawdown_from total peak (c ∷ cs) =
      let total' = add total c in drawdown_from total' (if lt peak total' then total' else peak) cs

  unfoldable pub compute_drawdown_r : List F → F
  unfolding drawdown_from
  compute_drawdown_r = drawdown_from (num 0) (num 0)

  abbrev pub weigh : ℕ → Option F → F → Option (Entry F)
  weigh closed_at none multiplier = none
  weigh closed_at (some r) multiplier = some (closed_at, mul r multiplier)

  unfoldable pub contribution_from_trade : ℕ → Trade F → Option (Entry F)
  contribution_from_trade now trade =
      let tp1_fraction : F =
        if lt (num 0) trade.entry_lots then div trade.tp1_lots trade.entry_lots else num 0 in
      let r =
        money_r (side_text trade.side) (or_float trade.entry_price (some trade.plan.entry_price))
          (some trade.plan.stop_loss) trade.close_price trade.realized_rr trade.tp1_hit tp1_fraction
          (or_float trade.tp1_close_price (some trade.tp1)) in
      weigh (or_now now trade.closed_at) r (or_value (some trade.plan.risk_multiplier) (num 1))

  abbrev pub row_contribution : Row F → ℕ → Option (Entry F)
  row_contribution row closed_at =
      let entry_lots = or_value row.entry_lots (num 0) in
      let current_lots = or_value row.current_lots (num 0) in
      let tp1_fraction : F =
        if row.tp1_hit
          && lt (num 0) entry_lots
          && le (num 0) current_lots
          && lt current_lots entry_lots
        then sub (num 1) (div current_lots entry_lots)
        else num 0 in
      let r =
        money_r (or_side row.side) (or_float row.plan.entry_price row.entry_price)
          row.plan.stop_loss row.close_price row.realized_rr row.tp1_hit tp1_fraction row.tp1 in
      weigh closed_at r (or_value row.plan.risk_multiplier (num 1))

  unfoldable pub contribution_from_row : Row F → Option (Entry F)
  contribution_from_row row = elim row.closed_at [
    | none ↦ none
    | some closed_at ↦ row_contribution row closed_at
  ]
