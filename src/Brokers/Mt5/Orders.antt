-- ===== src/Brokers/Mt5/Orders.antt =====
-- src/brokers/mt5/orders.py: what is sent to the terminal, and how its answer is read. A parameter
-- `expiry_seconds` counts from the clock's whole seconds.
pub mod Confirmed
use bobis_quote_mt5_trading.Prelude.{
  ℕ, ◌+◌, String, Bool, ◌||◌, nat_eq, if◌then◌else◌, Option, none, some,
}
use bobis_quote_mt5_trading.Prelude.Floats.{Floats}
use bobis_quote_mt5_trading.Infra.Metrics.{increment}
use bobis_quote_mt5_trading.Brokers.{OrderType, buy, sell, OrderResult}
use bobis_quote_mt5_trading.Brokers.Mt5.{
  Terminal, Session, Mt5Config, TradeRequest, SendAnswer, TradeAction, deal, pending, sltp, remove,
  gtc, specified, runtime_error, ok, err, Call, ◌>>=◌, ◌>>◌, pure, modify, reads, ask,
}
use bobis_quote_mt5_trading.Brokers.Mt5.Client.{ensure_connected}

abbrev pub retcode_done : ℕ
retcode_done = 10009

abbrev pub retcode_placed : ℕ
retcode_placed = 10008

pub record ModifyResult : Type 0 where
  pub retcode : ℕ
  pub comment : String

unfoldable pub is_done : ℕ → Bool
is_done code = nat_eq code retcode_done

unfoldable pub is_done_or_placed : ℕ → Bool
is_done_or_placed code = nat_eq code retcode_done || nat_eq code retcode_placed

-- The order that closes a position of a side.
unfoldable pub opposite : OrderType → OrderType
opposite OrderType.buy = sell
opposite _ = buy

module _ {F : Type 0} where
  abbrev empty_request : TradeAction → TradeRequest F
  empty_request action = record {
    action = action;
    symbol = none;
    volume = none;
    order_type = none;
    price = none;
    sl = none;
    tp = none;
    position = none;
    order = none;
    deviation = none;
    magic = none;
    comment = none;
    type_filling = none;
    type_time = none;
    expiration = none;
  }

  unfoldable pub market_request :
      (symbol : String) (order_type : OrderType) (volume price sl tp : F) (slippage magic : ℕ)
      (comment : String) (filling_mode : ℕ)
      → TradeRequest F
  market_request symbol order_type volume price sl tp slippage magic comment filling_mode =
      record (empty_request deal) {
        symbol = some symbol;
        volume = some volume;
        order_type = some order_type;
        price = some price;
        sl = some sl;
        tp = some tp;
        deviation = some slippage;
        magic = some magic;
        comment = some comment;
        type_filling = some filling_mode;
      }

  -- No expiration is sent with an order that is good till cancelled.
  unfoldable pub limit_request :
      (symbol : String) (order_type : OrderType) (volume price sl tp : F) (magic : ℕ)
      (comment : String) (expiry_seconds : ℕ) (use_gtc : Bool) (now_sec : ℕ)
      → TradeRequest F
  limit_request symbol order_type volume price sl tp magic comment expiry_seconds use_gtc now_sec =
      record (empty_request pending) {
        symbol = some symbol;
        volume = some volume;
        order_type = some order_type;
        price = some price;
        sl = some sl;
        tp = some tp;
        magic = some magic;
        comment = some comment;
        type_time = some (if use_gtc then gtc else specified);
        expiration = if use_gtc then none else some (now_sec + expiry_seconds);
      }

  unfoldable pub cancel_request : (ticket : ℕ) → TradeRequest F
  cancel_request ticket = record (empty_request remove) { order = some ticket }

  unfoldable pub modify_request : (ticket : ℕ) (sl tp : F) → TradeRequest F
  modify_request ticket sl tp = record (empty_request sltp) {
    position = some ticket;
    sl = some sl;
    tp = some tp;
  }

  unfoldable pub close_request :
      (ticket : ℕ) (symbol : String) (side : OrderType) (volume price : F) (slippage magic : ℕ)
      (comment : String) (filling_mode : ℕ)
      → TradeRequest F
  close_request ticket symbol side volume price slippage magic comment filling_mode =
      record (empty_request deal) {
        symbol = some symbol;
        volume = some volume;
        order_type = some (opposite side);
        position = some ticket;
        price = some price;
        deviation = some slippage;
        magic = some magic;
        comment = some comment;
        type_filling = some filling_mode;
      }

  unfoldable pub order_result : (executed_price : F) → SendAnswer F → OrderResult F
  order_result executed_price a = record {
    ticket = a.order;
    executed_price = executed_price;
    volume = a.volume;
    retcode = a.retcode;
    comment = a.comment;
  }

  unfoldable pub modify_result : SendAnswer F → ModifyResult
  modify_result a = record { retcode = a.retcode; comment = a.comment }

module _ {F R T : Type 0} ⦃fl : Floats F⦄ (api : Terminal F T) (config : Mt5Config) where
  -- No answer, or one with another code, is a RuntimeError.
  unfoldable pub check :
      (accepts : ℕ → Bool) → Option (SendAnswer F) → Call (Session F R T) (SendAnswer F)
  check accepts none s = (err (runtime_error none), s)
  check accepts (some a) s =
      if accepts a.retcode then (ok a, s) else (err (runtime_error (some a.retcode)), s)

  unfoldable pub submit :
      (accepts : ℕ → Bool) → TradeRequest F → Call (Session F R T) (SendAnswer F)
  submit accepts request = do answer ← ask (api.order_send request); check accepts answer

  unfoldable pub count : String → Call (Session F R T) (Unit {0})
  count name = modify (λ s. record s { metrics = increment name 1 s.metrics })

  -- Make sure of the connection, send, read the answer, count.
  unfoldable pub perform :
      (accepts : ℕ → Bool)
      → String
      → (Session F R T → TradeRequest F)
      → Call (Session F R T) (SendAnswer F)
  perform accepts name request_of = do
    ensure_connected api config
    request ← reads request_of
    answer ← submit accepts request
    count name
    pure answer

  unfoldable pub open_market_order :
      (symbol : String) (order_type : OrderType) (volume price sl tp : F) (slippage magic : ℕ)
      (comment : String) (filling_mode : ℕ)
      → Call (Session F R T) (OrderResult F)
  open_market_order symbol order_type volume price sl tp slippage magic comment filling_mode = do
    a ← perform is_done_or_placed "mt5.orders.opened" (λ s.
        market_request symbol order_type volume price sl tp slippage magic comment filling_mode)
    pure (order_result a.price a)

  -- The result carries the resting price, since nothing is filled yet.
  unfoldable pub open_limit_order :
      (symbol : String) (order_type : OrderType) (volume price sl tp : F) (magic : ℕ)
      (comment : String) (expiry_seconds : ℕ) (use_gtc : Bool)
      → Call (Session F R T) (OrderResult F)
  open_limit_order symbol order_type volume price sl tp magic comment expiry_seconds use_gtc = do
    a ← perform is_done_or_placed "mt5.orders.limit_placed" (λ s.
        limit_request symbol order_type volume price sl tp magic comment expiry_seconds use_gtc
          (fl.floor (api.now s.terminal)))
    pure (order_result price a)

  unfoldable pub cancel_pending_order : (ticket : ℕ) → Call (Session F R T) ModifyResult
  cancel_pending_order ticket = do
    a ← perform is_done "mt5.orders.limit_cancelled" (λ s. cancel_request ticket)
    pure (modify_result a)

  unfoldable pub modify_position : (ticket : ℕ) (sl tp : F) → Call (Session F R T) ModifyResult
  modify_position ticket sl tp = do
    a ← perform is_done "mt5.orders.modified" (λ s. modify_request ticket sl tp)
    pure (modify_result a)

  unfoldable pub close_position :
      (ticket : ℕ) (symbol : String) (side : OrderType) (volume price : F) (slippage magic : ℕ)
      (comment : String) (filling_mode : ℕ)
      → Call (Session F R T) (OrderResult F)
  close_position ticket symbol side volume price slippage magic comment filling_mode = do
    a ←
        perform is_done_or_placed "mt5.orders.closed"
          (λ s. close_request ticket symbol side volume price slippage magic comment filling_mode)
    pure (order_result a.price a)
