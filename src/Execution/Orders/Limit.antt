-- ===== src/Execution/Orders/Limit.antt =====
-- OrderManager.execute_limit_order, with its two fallbacks.
use bobis_quote_mt5_trading.Prelude.{
  ℕ, zero, suc, String, Bool, true, false, none, some, [], ◌∷◌, ◌++◌, nat_eq, ◌==◌, if◌then◌else◌,
  Eq_nat, Eq_option,
}
use bobis_quote_mt5_trading.Prelude.Floats.{Floats}
use bobis_quote_mt5_trading.Config.{ExecutionConfig}
use bobis_quote_mt5_trading.Infra.Metrics.{Metrics, increment}
use bobis_quote_mt5_trading.Domain.Trade.{TradePlan, OrderSide, buy, sell}
use bobis_quote_mt5_trading.Domain.Position.{SymbolInfo}
use bobis_quote_mt5_trading.Brokers.{
  Broker, BrokerError, OrderType, OrderRequest, SendResult, accepted, rejected, broken,
}
use bobis_quote_mt5_trading.Execution.Orders.{Work, retry, give_up, on_error}
use bobis_quote_mt5_trading.Execution.Orders.Market.{last_or_plain}

abbrev pub retcode_invalid_price : ℕ
retcode_invalid_price = 10015

abbrev pub retcode_invalid_expiration : ℕ
retcode_invalid_expiration = 10022

pub data LimitOutcome (F : Type 0) : Type 0 where
  resting : (ticket : ℕ) → (price : F) → LimitOutcome F
  failed : BrokerError → LimitOutcome F

abbrev pub limit_type : OrderSide → OrderType
limit_type buy = OrderType.buy_limit
limit_type sell = OrderType.sell_limit

-- _LIMIT_TO_STOP, at the type of the order's side.
abbrev pub stop_type : OrderSide → OrderType
stop_type buy = OrderType.buy_stop
stop_type sell = OrderType.sell_stop

module _ {F : Type 0} (plan : TradePlan F) (expiry_seconds : ℕ) where
  abbrev pub limit_request : OrderType → (use_gtc : Bool) → (volume sl tp : F) → OrderRequest F
  limit_request order_type use_gtc volume sl tp = record {
    symbol = plan.symbol;
    order_type = order_type;
    volume = volume;
    price = plan.entry_price;
    sl = sl;
    tp = tp;
    expiry_seconds = some expiry_seconds;
    use_gtc = use_gtc;
  }

module _ {F B R : Type 0} ⦃fl : Floats F⦄ (api : Broker F B) (cfg : ExecutionConfig F)
    (plan : TradePlan F) (si : SymbolInfo F) (expiry_seconds : ℕ) where
  abbrev pub send_limit : OrderType → Bool → Work F B R → SendResult F × Work F B R
  send_limit order_type use_gtc w =
      let request = limit_request plan expiry_seconds order_type use_gtc w.volume w.sl w.tp in
      let answer = api.open_order w.broker request in
      (answer.0, record w { broker = answer.1; requests = w.requests ++ request ∷ [] })

  abbrev pub count : String → Work F B R → Work F B R
  count name w = record w { metrics = increment name 1 w.metrics }

  -- One more order, of another type or without an expiration; if it is rejected too, the first error is
  -- raised.
  unfoldable pub fall_back :
      (placed_name failed_name : String)
      → OrderType
      → (use_gtc : Bool) → BrokerError
      → Work F B R
      → LimitOutcome F × Work F B R
  fall_back placed_name failed_name order_type use_gtc error w =
      let sent = send_limit order_type use_gtc w in
      elim sent.0 [
        | accepted result ↦ (resting result.ticket result.executed_price, count placed_name sent.1)
        | rejected _ ↦ (failed error, count failed_name sent.1)
        | broken other ↦ (failed other, sent.1)
      ]

  unfoldable pub on_give_up : BrokerError → Work F B R → LimitOutcome F × Work F B R
  on_give_up error w =
      if error.retcode == some retcode_invalid_price
      then (let missed = count "orders.limit_price_missed" w in
          if cfg.use_limit_to_stop_fallback
          then fall_back "orders.limit_to_stop_fallback_placed"
              "orders.limit_to_stop_fallback_failed" (stop_type plan.side) false error missed
          else (failed error, missed))
      else if error.retcode == some retcode_invalid_expiration
      then (let counted = count "orders.limit_expiration_rejected" w in
          if cfg.use_gtc_fallback_on_invalid_expiration
          then fall_back "orders.gtc_fallback_placed" "orders.gtc_fallback_failed"
              (limit_type plan.side) true error counted
          else (failed error, counted))
      else (failed error, w)

  -- The loop, on the number of attempts left.
  unfoldable pub limit_attempts : ℕ → Work F B R → LimitOutcome F × Work F B R
  limit_attempts zero w = (failed (last_or_plain w.last_error), w)
  limit_attempts (suc n) w =
      let sent = send_limit (limit_type plan.side) false w in
      elim sent.0 [
        | accepted result ↦
            (resting result.ticket result.executed_price, count "orders.limit_placed" sent.1)
        | broken error ↦ (failed error, sent.1)
        | rejected error ↦ elim (on_error plan.side si (nat_eq n 0) plan.entry_price error sent.1) [
          | retry w' ↦ limit_attempts n w'
          | give_up w' ↦ on_give_up error w'
        ]
      ]

  unfoldable pub execute_limit_order : B → Metrics F R → LimitOutcome F × Work F B R
  execute_limit_order broker metrics = limit_attempts (suc cfg.order_retry_count) (record {
    sl = plan.stop_loss;
    tp = plan.tp2;
    volume = plan.lot_size;
    margin_halved = false;
    last_error = none;
    broker = broker;
    metrics = metrics;
    requests = [];
    closes = [];
  })
