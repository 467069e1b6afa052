-- ===== src/Brokers/Mt5/Orders/Confirmed.antt =====
-- What a method of the orders says of the terminal's answer.
use bobis_quote_mt5_trading.Prelude.{
  ℕ, nat_eq, ◌||◌, String, Bool, true, false, if_holds, ◌≡◌, refl, ap, Option, none, some,
}
use bobis_quote_mt5_trading.Prelude.Floats.{Floats}
use bobis_quote_mt5_trading.Infra.Metrics.{increment}
use bobis_quote_mt5_trading.Brokers.{OrderType}
use bobis_quote_mt5_trading.Brokers.Mt5.{
  Terminal, Session, Mt5Config, Mt5Error, TradeRequest, SendAnswer, connection_error,
  attribute_error, runtime_error, Result, ok, err, after, after_holds, pure, ◌>>◌,
}
use bobis_quote_mt5_trading.Brokers.Mt5.Client.{ensure_connected}
use bobis_quote_mt5_trading.Brokers.Mt5.Client.Recovery.{IsSettled, ensure_connected-IsSettled}
use bobis_quote_mt5_trading.Brokers.Mt5.Orders.{
  is_done, is_done_or_placed, market_request, limit_request, cancel_request, modify_request,
  close_request, order_result, modify_result, check, submit, count, perform, open_market_order,
  open_limit_order, cancel_pending_order, modify_position, close_position,
}

module _ {F R T : Type 0} ⦃fl : Floats F⦄ (api : Terminal F T) (config : Mt5Config) where
  -- The connection was made sure of, the request went out once from the session that this left, which is
  -- connected, and this is the answer.
  abbrev Asked :
      (request_of : Session F R T → TradeRequest F)
      → (before sent : Session F R T) → Option (SendAnswer F)
      → Session F R T
      → Type 0
  Asked request_of s sent answer s' =
      (ensure_connected api config s ≡ (ok tt, sent))
      × (sent.connected ≡ true)
      × ((api.order_send (request_of sent) sent.terminal).0 ≡ answer)
      × (s'.terminal ≡ (api.order_send (request_of sent) sent.terminal).1)

  -- A result comes from an answer with an accepted code, and is counted; an error with a code from an
  -- answer with a code that is not accepted, one without from no answer; a ConnectionError from a
  -- connection that could not be made, with nothing sent.
  abbrev pub IsConfirmed :
      {A : Type 0}
      → (accepts : ℕ → Bool) → String
      → (Session F R T → TradeRequest F)
      → (SendAnswer F → A)
      → Session F R T
      → Result A × Session F R T
      → Type 0
  IsConfirmed accepts name request_of f s (ok r, s') =
      (sent : Session F R T) × (a : SendAnswer F) × Asked request_of s sent (some a) s'
      × (accepts a.retcode ≡ true)
      × (r ≡ f a)
      × (s'.metrics ≡ increment name 1 sent.metrics)
  IsConfirmed accepts name request_of f s (err (runtime_error (some code)), s') =
      (sent : Session F R T) × (a : SendAnswer F) × Asked request_of s sent (some a) s'
      × (accepts a.retcode ≡ false)
      × (a.retcode ≡ code)
      × (s'.metrics ≡ sent.metrics)
  IsConfirmed accepts name request_of f s (err (runtime_error none), s') =
      (sent : Session F R T) × Asked request_of s sent none s' × (s'.metrics ≡ sent.metrics)
  IsConfirmed accepts name request_of f s (err connection_error, s') =
      ensure_connected api config s ≡ (err connection_error, s')
  IsConfirmed accepts name request_of f s (err attribute_error, s') = ⊥

  module _ (accepts : ℕ → Bool) (name : String) (request_of : Session F R T → TradeRequest F)
      (s : Session F R T) where
    IsConfirmed-unreached :
        (e : Mt5Error) (s' : Session F R T)
        → (ensure_connected api config s ≡ (err e, s')) × IsSettled api config (err e, s')
        → IsConfirmed {A = SendAnswer F} accepts name request_of (λ a. a) s (err e, s')
    IsConfirmed-unreached connection_error s' h = h.0
    IsConfirmed-unreached (runtime_error code) s' h = cc (h.1.0)
    IsConfirmed-unreached attribute_error s' h = cc (h.1.0)

    IsConfirmed-answered :
        (sent : Session F R T) (answer : Option (SendAnswer F))
        → ensure_connected api config s ≡ (ok tt, sent)
        → sent.connected ≡ true
        → (api.order_send (request_of sent) sent.terminal).0 ≡ answer
        → IsConfirmed accepts name request_of
            (λ a. a)
            s
            (after
              (check api config accepts answer
                (record sent { terminal = (api.order_send (request_of sent) sent.terminal).1 }))
              (λ a. count api config name >> pure a))
    unfolding check count
    IsConfirmed-answered sent none q c e = (sent, (q, c, e, refl), refl)
    IsConfirmed-answered sent (some a) q c e =
        if_holds
          (λ (r : Result (SendAnswer F) × Session F R T).
            IsConfirmed accepts name request_of (λ a. a) s
              (after r (λ a. count api config name >> pure a)))
          (accepts a.retcode) _ _ (λ k. (sent, a, (q, c, e, refl), k, refl, refl))
          (λ k. (sent, a, (q, c, e, refl), k, refl, refl))

    perform-IsConfirmed :
        IsConfirmed accepts name request_of
          (λ a. a)
          s
          (perform api config accepts name request_of s)
    unfolding perform submit
    perform-IsConfirmed =
        after_holds (λ r. (ensure_connected api config s ≡ r) × IsSettled api config r)
          (IsConfirmed accepts name request_of (λ a. a) s) (ensure_connected api config s) _
          (refl, ensure_connected-IsSettled api config s)
          (λ _ sent h. IsConfirmed-answered sent _ h.0 h.1.0 refl) IsConfirmed-unreached

    IsConfirmed-pure :
        {A : Type 0} (f : SendAnswer F → A) (r : Result (SendAnswer F) × Session F R T)
        → IsConfirmed accepts name request_of (λ a. a) s r
        → IsConfirmed accepts name request_of f s (after r (λ a. pure (f a)))
    IsConfirmed-pure f (ok r, s') h = (h.0, h.1, h.2, h.3, ap f h.4, h.5)
    IsConfirmed-pure f (err connection_error, s') h = h
    IsConfirmed-pure f (err attribute_error, s') h = h
    IsConfirmed-pure f (err (runtime_error none), s') h = h
    IsConfirmed-pure f (err (runtime_error (some code)), s') h = h

    done_by :
        {A : Type 0} (f : SendAnswer F → A)
        → IsConfirmed accepts name request_of f s
            (after (perform api config accepts name request_of s) (λ a. pure (f a)))
    done_by f = IsConfirmed-pure f _ perform-IsConfirmed

  -- Each method of the orders sends its request once, from a connected session, and reports what the
  -- terminal answers: a result, counted once, where the code is 10009 (or 10008, for the orders and the
  -- close), a RuntimeError with the code for any other code, one without where there is no answer;
  -- where the connection cannot be made it raises a ConnectionError and nothing is sent.
  pub orders-IsConfirmed :
      (symbol comment : String) (order_type side : OrderType) (volume price sl tp : F)
      (ticket slippage magic filling_mode expiry_seconds : ℕ) (use_gtc : Bool) (s : Session F R T)
      → IsConfirmed
          (λ code. nat_eq code 10009 || nat_eq code 10008)
          "mt5.orders.opened"
          (λ _.
            market_request symbol order_type volume price sl tp slippage magic comment filling_mode)
          (λ a. order_result a.price a)
          s
          (open_market_order api config symbol order_type volume price sl tp slippage magic comment
            filling_mode s)
        × IsConfirmed
            (λ code. nat_eq code 10009 || nat_eq code 10008)
            "mt5.orders.limit_placed"
            (λ s.
              limit_request symbol order_type volume price sl tp magic comment expiry_seconds
                use_gtc
                (fl.floor (api.now s.terminal)))
            (order_result price)
            s
            (open_limit_order api config symbol order_type volume price sl tp magic comment
              expiry_seconds use_gtc s)
        × IsConfirmed
            (λ code. nat_eq code 10009)
            "mt5.orders.limit_cancelled"
            (λ _. cancel_request ticket)
            modify_result
            s
            (cancel_pending_order api config ticket s)
        × IsConfirmed
            (λ code. nat_eq code 10009)
            "mt5.orders.modified"
            (λ _. modify_request ticket sl tp)
            modify_result
            s
            (modify_position api config ticket sl tp s)
        × IsConfirmed
            (λ code. nat_eq code 10009 || nat_eq code 10008)
            "mt5.orders.closed"
            (λ _. close_request ticket symbol side volume price slippage magic comment filling_mode)
            (λ a. order_result a.price a)
            s
            (close_position api config ticket symbol side volume price slippage magic comment
              filling_mode s)
  unfolding is_done is_done_or_placed open_market_order open_limit_order cancel_pending_order
      modify_position close_position
  orders-IsConfirmed symbol comment order_type side volume price sl tp ticket slippage magic
        filling_mode expiry_seconds use_gtc s =
      (
        done_by _ _ _ s _,
        done_by _ _ _ s _,
        done_by _ _ _ s _,
        done_by _ _ _ s _,
        done_by _ _ _ s _,
      )
