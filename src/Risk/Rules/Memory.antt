-- ===== src/Risk/Rules/Memory.antt =====
-- The rules that need no broker.
use bobis_quote_mt5_trading.Prelude.{
  String, Bool, true, false, not, ◌&&◌, Option, none, some, [], ◌∷◌, leb, ◌==◌, if◌then◌else◌,
  Eq_string,
}
use bobis_quote_mt5_trading.Prelude.Floats.{Floats, num, decimal, add, mul, div, le, lt}
use bobis_quote_mt5_trading.Domain.Signal.{InboundSignal, SignalDirection, long, short}
use bobis_quote_mt5_trading.Domain.Trade.{
  Trade, OrderSide, buy, sell, TradeStatus, planned, opened, partially_closed,
}
use bobis_quote_mt5_trading.Positions.Store.{first}
use bobis_quote_mt5_trading.Risk.LossTracker.{is_paused, slots}
use bobis_quote_mt5_trading.Risk.ClusterTracker
use bobis_quote_mt5_trading.Risk.ClusterTracker.{or_text, ClusterPreview}
use bobis_quote_mt5_trading.Risk.EquityThrottle
use bobis_quote_mt5_trading.Risk.EquityThrottle.{ThrottlePreview}
use bobis_quote_mt5_trading.Risk.Rules.{
  Value, number, text, null, loss_guard, cluster, hedging, open_trades_reached, symbol_exposure,
  duplicate_signal, daily_loss_stop, daily_loss_projection, RuleResult, RuleContext, RiskState,
  approve, approve_with, reject,
}

abbrev pub side_of : SignalDirection → OrderSide
side_of long = buy
side_of short = sell

abbrev pub opposite : OrderSide → OrderSide
opposite buy = sell
opposite sell = buy

abbrev pub same_side : OrderSide → OrderSide → Bool
same_side buy buy = true
same_side sell sell = true
same_side _ _ = false

abbrev pub is_live : TradeStatus → Bool
is_live planned = true
is_live opened = true
is_live partially_closed = true
is_live _ = false

module _ {F : Type 0} ⦃fl : Floats F⦄ where
  unfoldable pub loss_guard_rule : RuleContext F → RiskState F → RuleResult F × RiskState F
  loss_guard_rule ctx s = elim s.loss_tracker [
    | none ↦ (approve, s)
    | some tracker ↦ elim (is_paused ctx.now tracker) [
      | some (reason, minutes) ↦ (reject (loss_guard reason minutes), s)
      | none ↦ (approve, s)
    ]
  ]

  abbrev name_value : Option String → Value F
  name_value none = null
  name_value (some n) = text n

  abbrev pub cluster_result : ClusterPreview F → RuleResult F
  cluster_result p =
      if not p.approved
      then reject (cluster p.reason)
      else approve_with (
          ("cluster_name", name_value p.cluster_name)
          ∷ ("risk_multiplier", number p.risk_multiplier)
          ∷ ("planned_cluster_risk_r", number p.planned_risk_r)
          ∷ [])

  unfoldable pub cluster_risk_rule : RuleContext F → RiskState F → RuleResult F × RiskState F
  cluster_risk_rule ctx s = elim s.cluster_tracker [
    | none ↦ (approve, s)
    | some tracker ↦
        let (p, tracker') = ClusterTracker.preview ctx.now ctx.signal tracker in
        (cluster_result p, record s { cluster_tracker = some tracker' })
  ]

  abbrev pub throttle_result : ThrottlePreview F → RuleResult F
  throttle_result p =
      if lt p.multiplier (num 1)
      then approve_with (
          ("equity_throttle_multiplier", number p.multiplier)
          ∷ ("equity_throttle_dd_r", number (fl.round p.drawdown_r 4))
          ∷ [])
      else approve

  unfoldable pub equity_throttle_rule : RuleContext F → RiskState F → RuleResult F × RiskState F
  equity_throttle_rule ctx s = elim s.equity_throttle [
    | none ↦ (approve, s)
    | some throttle ↦
        let (p, throttle', metrics') = EquityThrottle.preview ctx.now throttle s.metrics in
        (throttle_result p, record s { equity_throttle = some throttle'; metrics = metrics' })
  ]

  unfoldable pub is_conflict : InboundSignal F → Trade F → Bool
  is_conflict signal t =
      t.symbol == or_text signal.resolved_symbol signal.symbol
      && same_side t.side (opposite (side_of signal.direction))
      && is_live t.status

  unfoldable pub no_hedging_rule : RuleContext F → RuleResult F
  unfolding is_conflict
  no_hedging_rule ctx =
      if not ctx.config.no_hedging
      then approve
      else elim (first (is_conflict ctx.signal) ctx.open_trades) [
        | none ↦ approve
        | some t ↦ reject (
            hedging (opposite (side_of ctx.signal.direction)) t.id
              (or_text ctx.signal.resolved_symbol ctx.signal.symbol))
      ]

  unfoldable pub max_open_trades_rule : RuleContext F → RuleResult F
  max_open_trades_rule ctx =
      let max_open = slots ctx.config.max_losing_streak in
      if leb max_open ctx.effective_open
      then reject (open_trades_reached ctx.effective_open max_open)
      else approve

  unfoldable pub max_symbol_exposure_rule : RuleContext F → RuleResult F
  max_symbol_exposure_rule ctx =
      if leb ctx.config.max_exposure_per_symbol ctx.effective_symbol
      then reject (
          symbol_exposure ctx.signal.symbol ctx.effective_symbol ctx.config.max_exposure_per_symbol)
      else approve

  unfoldable pub is_duplicate : InboundSignal F → Trade F → Bool
  is_duplicate signal t = t.signal_id == signal.id && not (t.signal_id == "unknown")

  unfoldable pub duplicate_signal_rule : RuleContext F → RuleResult F
  unfolding is_duplicate
  duplicate_signal_rule ctx = elim (first (is_duplicate ctx.signal) ctx.open_trades) [
    | none ↦ approve
    | some t ↦ reject (duplicate_signal t.id ctx.signal.id)
  ]

  unfoldable pub daily_loss_limit_rule : RuleContext F → RuleResult F
  daily_loss_limit_rule ctx =
      let budget = ctx.config.max_daily_loss_percent in
      let safety_threshold = mul budget (decimal 95 2) in
      let per_trade_risk_pct = div budget (num (slots ctx.config.max_losing_streak)) in
      let projected = add ctx.daily_loss_pct per_trade_risk_pct in
      if le safety_threshold ctx.daily_loss_pct
      then reject (daily_loss_stop ctx.daily_loss_pct safety_threshold budget)
      else if lt safety_threshold projected
      then reject (
          daily_loss_projection ctx.daily_loss_pct per_trade_risk_pct projected safety_threshold
            budget)
      else approve
