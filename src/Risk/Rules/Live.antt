-- ===== src/Risk/Rules/Live.antt =====
-- The rules that need a live tick.
use bobis_quote_mt5_trading.Prelude.{
  String, true, false, ◌&&◌, ◌||◌, Option, none, some, [], ◌∷◌, ◌==◌, if◌then◌else◌, Eq_string,
}
use bobis_quote_mt5_trading.Prelude.Dict.{lookup_or, Dict}
use bobis_quote_mt5_trading.Prelude.Floats.{Floats, num, sub, mul, div, le, lt, eq, fmax, fabs}
use bobis_quote_mt5_trading.Utils.Price.{pip_size}
use bobis_quote_mt5_trading.Utils.Symbol.{normalise_symbol}
use bobis_quote_mt5_trading.Domain.Signal.{InboundSignal, SignalDirection, long, short}
use bobis_quote_mt5_trading.Domain.Position.{SymbolInfo}
use bobis_quote_mt5_trading.Risk.ClusterTracker.{or_text}
use bobis_quote_mt5_trading.Risk.Rules.{
  Value, number, RuleReason, no_market_data, invalid_prices, invalid_pip_size, zero_stop_distance,
  negative_spread, bad_level, entry_drift, reward_risk, spread_ratio, RuleResult, RuleContext,
  approve, approve_with, reject, reject_with,
}

-- The directional distances, or the rejection of the levels.
pub data Distances (F : Type 0) : Type 0 where
  distances : (sl_pips tp_pips : F) → Distances F
  bad : RuleReason F → Distances F

module _ {F : Type 0} ⦃fl : Floats F⦄ where
  abbrev quote : SymbolInfo F → SignalDirection → F
  quote si long = si.ask
  quote si short = si.bid

  unfoldable pub resolve_fill_price : SymbolInfo F → InboundSignal F → F
  resolve_fill_price si signal =
      if signal.entry_type == "limit" then signal.entry_price else quote si signal.direction

  -- `_validate_symbol_info`, and then the rule on valid market data.
  abbrev pub on_market : Option (SymbolInfo F) → (SymbolInfo F → RuleResult F) → RuleResult F
  on_market none rule = reject no_market_data
  on_market (some si) rule =
      if le si.ask (num 0) || le si.bid (num 0) then reject invalid_prices else rule si

  unfoldable pub actual_reward_risk : SignalDirection → (fill stop_loss tp2 pip : F) → Distances F
  actual_reward_risk long fill stop_loss tp2 pip =
      if le fill stop_loss
      then bad (bad_level true long fill stop_loss)
      else if le tp2 fill
      then bad (bad_level false long fill tp2)
      else distances (div (sub fill stop_loss) pip) (div (sub tp2 fill) pip)
  actual_reward_risk short fill stop_loss tp2 pip =
      if le stop_loss fill
      then bad (bad_level true short fill stop_loss)
      else if le fill tp2
      then bad (bad_level false short fill tp2)
      else distances (div (sub stop_loss fill) pip) (div (sub fill tp2) pip)

  abbrev against : SignalDirection → F → F → F
  against long fill entry = sub fill entry
  against short fill entry = sub entry fill

  unfoldable pub drift_on : RuleContext F → SymbolInfo F → RuleResult F
  unfolding resolve_fill_price
  drift_on ctx si =
      let signal_risk = fabs (sub ctx.signal.entry_price ctx.signal.stop_loss) in
      let fill_price = resolve_fill_price si ctx.signal in
      let adverse_drift : F =
        fmax (num 0) (against ctx.signal.direction fill_price ctx.signal.entry_price) in
      let drift_pct_of_risk = mul (div adverse_drift signal_risk) (num 100) in
      let drift_data : Dict String (Value F) =
        ("entry_drift_price", number adverse_drift)
        ∷ ("entry_drift_pct_of_risk", number drift_pct_of_risk)
        ∷ ("fill_price", number fill_price)
        ∷ [] in
      if eq signal_risk (num 0)
      then approve
      else if ctx.config.entry_drift.enabled
          && lt ctx.config.entry_drift.max_drift_pct_of_risk drift_pct_of_risk
      then reject_with
          (entry_drift drift_pct_of_risk ctx.config.entry_drift.max_drift_pct_of_risk fill_price
            ctx.signal.entry_price)
          drift_data
      else approve_with drift_data

  unfoldable pub entry_drift_rule : RuleContext F → RuleResult F
  unfolding drift_on
  entry_drift_rule ctx = on_market ctx.symbol_info (drift_on ctx)

  unfoldable pub check_rr : RuleContext F → (fill_price : F) → Distances F → RuleResult F
  check_rr ctx fill_price (bad reason) = reject reason
  check_rr ctx fill_price (distances sl_pips tp_pips) =
      let actual_rr = div tp_pips sl_pips in
      if eq sl_pips (num 0)
      then reject zero_stop_distance
      else if lt actual_rr ctx.config.min_rr_ratio
      then reject_with (reward_risk actual_rr ctx.config.min_rr_ratio ctx.signal.risk_reward_ratio)
          (("actual_rr", number actual_rr)
            ∷ ("min_rr", number ctx.config.min_rr_ratio)
            ∷ ("fill_price", number fill_price)
            ∷ ("sl_pips", number sl_pips)
            ∷ ("tp_pips", number tp_pips)
            ∷ [])
      else approve

  unfoldable pub rr_on : RuleContext F → SymbolInfo F → RuleResult F
  rr_on ctx si =
      let pip = pip_size si.point si.digits in
      let fill_price = resolve_fill_price si ctx.signal in
      if le pip (num 0)
      then reject invalid_pip_size
      else check_rr ctx fill_price (
          actual_reward_risk ctx.signal.direction fill_price ctx.signal.stop_loss ctx.signal.tp2
            pip)

  unfoldable pub min_rr_rule : RuleContext F → RuleResult F
  unfolding rr_on
  min_rr_rule ctx = on_market ctx.symbol_info (rr_on ctx)

  unfoldable pub spread_on : RuleContext F → SymbolInfo F → RuleResult F
  spread_on ctx si =
      let pip = pip_size si.point si.digits in
      let spread_pips = div (sub si.ask si.bid) pip in
      let sl_pips = div (fabs (sub (resolve_fill_price si ctx.signal) ctx.signal.stop_loss)) pip in
      let symbol = normalise_symbol (or_text ctx.signal.resolved_symbol ctx.signal.symbol) in
      let threshold =
        lookup_or symbol ctx.config.sl_ratio_threshold ctx.config.symbol_sl_ratio_threshold in
      let ratio = div spread_pips sl_pips in
      if le pip (num 0)
      then reject invalid_pip_size
      else if lt spread_pips (num 0)
      then reject negative_spread
      else if eq sl_pips (num 0)
      then reject zero_stop_distance
      else if lt threshold ratio
      then reject_with (spread_ratio ratio threshold spread_pips sl_pips) (
          ("spread_pips", number spread_pips)
          ∷ ("sl_pips", number sl_pips)
          ∷ ("ratio", number ratio)
          ∷ ("threshold", number threshold)
          ∷ [])
      else approve

  unfoldable pub spread_quality_rule : RuleContext F → RuleResult F
  unfolding spread_on
  spread_quality_rule ctx = on_market ctx.symbol_info (spread_on ctx)
