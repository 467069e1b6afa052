-- ===== src/Execution/Orders/Market.antt =====
-- OrderManager.execute_market_order and `_emergency_close`.
use bobis_quote_mt5_trading.Prelude.{
  ℕ, zero, suc, Bool, false, not, ◌&&◌, Option, none, some, [], ◌∷◌, ◌++◌, nat_eq, if◌then◌else◌,
}
use bobis_quote_mt5_trading.Prelude.Floats.{Floats, num, sub, div, lt, fabs}
use bobis_quote_mt5_trading.Config.{ExecutionConfig}
use bobis_quote_mt5_trading.Infra.Metrics.{Metrics, increment}
use bobis_quote_mt5_trading.Domain.Trade.{TradePlan, OrderSide, buy, sell}
use bobis_quote_mt5_trading.Domain.Position.{SymbolInfo, Tick}
use bobis_quote_mt5_trading.Brokers.{
  Broker, BrokerError, OrderType, OrderRequest, OrderResult, CloseRequest, found, missing, raised,
  SendResult, accepted, rejected, broken,
}
use bobis_quote_mt5_trading.Execution.Orders.{Work, retry, give_up, is_better_price, on_error}

-- The answer: a fill, or an exception.
pub data MarketOutcome (F : Type 0) : Type 0 where
  placed : (ticket : ℕ) → (executed_price filled_volume : F) → MarketOutcome F
  failed : BrokerError → MarketOutcome F

-- An exception of the manager's own: it carries no code.
abbrev pub plain_error : BrokerError
plain_error = record { retcode = none; autotrading_disabled = false }

abbrev pub market_type : OrderSide → OrderType
market_type buy = OrderType.buy
market_type sell = OrderType.sell

abbrev pub last_or_plain : Option BrokerError → BrokerError
last_or_plain none = plain_error
last_or_plain (some e) = e

module _ {F : Type 0} where
  abbrev pub entry_quote : OrderSide → Tick F → F
  entry_quote buy t = t.ask
  entry_quote sell t = t.bid

  abbrev pub exit_quote : OrderSide → Tick F → F
  exit_quote buy t = t.bid
  exit_quote sell t = t.ask

module _ {F : Type 0} ⦃fl : Floats F⦄ (cfg : ExecutionConfig F) (plan : TradePlan F) where
  -- The fill's adverse distance from the plan, against the distance to the stop.
  unfoldable pub exceeds_slippage : F → Bool
  exceeds_slippage executed =
      let raw_slippage = fabs (sub executed plan.entry_price) in
      let stop_distance = fabs (sub plan.entry_price plan.stop_loss) in
      let pct = if lt (num 0) stop_distance then div raw_slippage stop_distance else num 0 in
      lt (num 0) raw_slippage
      && not (is_better_price plan.side executed plan.entry_price)
      && lt cfg.max_entry_slippage_pct_of_stop pct

module _ {F : Type 0} (plan : TradePlan F) where
  abbrev pub request_of : (price volume sl tp : F) → OrderRequest F
  request_of price volume sl tp = record {
    symbol = plan.symbol;
    order_type = market_type plan.side;
    volume = volume;
    price = price;
    sl = sl;
    tp = tp;
    expiry_seconds = none;
    use_gtc = false;
  }

module _ {F B R : Type 0} ⦃fl : Floats F⦄ (api : Broker F B) (cfg : ExecutionConfig F)
    (plan : TradePlan F) (si : SymbolInfo F) where
  abbrev pub close_with : F → ℕ → Work F B R → Work F B R
  close_with price ticket w =
      let request : CloseRequest F = record {
        ticket = ticket;
        symbol = plan.symbol;
        side = market_type plan.side;
        volume = plan.lot_size;
        price = price;
        comment = "slippage-close";
      } in
      let answer = api.close_position w.broker request in
      let sent = record w { broker = answer.1; closes = w.closes ++ request ∷ [] } in
      if answer.0
      then record sent { metrics = increment "orders.emergency_closes" 1 w.metrics }
      else sent

  -- An exception in it is logged and swallowed.
  unfoldable pub emergency_close : ℕ → F → Work F B R → Work F B R
  emergency_close ticket price w = elim (api.current_tick w.broker plan.symbol) [
    | found tick ↦ close_with (exit_quote plan.side tick) ticket w
    | missing ↦ close_with price ticket w
    | raised ↦ w
  ]

  unfoldable pub on_accepted : OrderResult F → Work F B R → MarketOutcome F × Work F B R
  on_accepted result w =
      let counted : Metrics F R =
        if lt result.volume w.volume
        then increment "orders.partial_fills" 1 w.metrics
        else w.metrics in
      let filled = placed result.ticket result.executed_price result.volume in
      let rejected_fill = record w { metrics = increment "orders.slippage_rejected" 1 counted } in
      if exceeds_slippage cfg plan result.executed_price
      then (if cfg.close_on_slippage_exceed
          then (
            failed plain_error,
            emergency_close result.ticket result.executed_price rejected_fill,
          )
          else (
            filled,
            record rejected_fill { metrics = increment "orders.filled" 1 rejected_fill.metrics },
          ))
      else (filled, record w { metrics = increment "orders.filled" 1 counted })

  abbrev pub send : F → Work F B R → SendResult F × Work F B R
  send price w =
      let request = request_of plan price w.volume w.sl w.tp in
      let answer = api.open_order w.broker request in
      (answer.0, record w { broker = answer.1; requests = w.requests ++ request ∷ [] })

  -- The loop, on the number of attempts left.
  unfoldable pub market_attempts : ℕ → Work F B R → MarketOutcome F × Work F B R
  market_attempts zero w = (failed (last_or_plain w.last_error), w)
  market_attempts (suc n) w = elim (api.current_tick w.broker plan.symbol) [
    | missing ↦ (failed plain_error, w)
    | raised ↦ (failed plain_error, w)
    | found tick ↦
        let price = entry_quote plan.side tick in
        let sent = send price w in
        elim sent.0 [
          | accepted result ↦ on_accepted result sent.1
          | broken error ↦ (failed error, sent.1)
          | rejected error ↦ elim (on_error plan.side si (nat_eq n 0) price error sent.1) [
            | retry w' ↦ market_attempts n w'
            | give_up w' ↦ (failed error, w')
          ]
        ]
  ]

  abbrev pub fresh_work : (tp : F) → B → Metrics F R → Work F B R
  fresh_work tp broker metrics = record {
    sl = plan.stop_loss;
    tp = tp;
    volume = plan.lot_size;
    margin_halved = false;
    last_error = none;
    broker = broker;
    metrics = metrics;
    requests = [];
    closes = [];
  }

  -- The one caller gives plan.tp2 as `tp_override`.
  unfoldable pub execute_market_order : B → Metrics F R → MarketOutcome F × Work F B R
  execute_market_order broker metrics =
      market_attempts (suc cfg.order_retry_count) (fresh_work plan.tp2 broker metrics)
