-- ===== src/Execution/Orders/LimitAttempts.antt =====
-- What a whole call of execute_limit_order sends to the broker, its fallback included.
use bobis_quote_mt5_trading.Prelude.{
  ℕ, zero, suc, ◌+◌, refl, ◌∙◌, ap, some, ◌==◌, Eq_nat, Eq_option, subst, inl, if_holds, String,
  Bool, false, All, length, length-append, [], ◌∷◌, arith, nat_eq,
}
use bobis_quote_mt5_trading.Prelude.Floats.{Floats, IsOrdered}
use bobis_quote_mt5_trading.Config.{ExecutionConfig}
use bobis_quote_mt5_trading.Infra.Metrics.{Metrics}
use bobis_quote_mt5_trading.Domain.Trade.{TradePlan}
use bobis_quote_mt5_trading.Domain.Position.{SymbolInfo}
use bobis_quote_mt5_trading.Brokers.{Broker, BrokerError, OrderType, SendResult_holds}
use bobis_quote_mt5_trading.Execution.Orders.{Work, Next_holds, on_error}
use bobis_quote_mt5_trading.Execution.Orders.Stops.{
  Outward-refl, IsWithin, IsOnPlan, on_plan-Sized, Keeps, on_error-Keeps, IsBounded, snoc-IsBounded,
}
use bobis_quote_mt5_trading.Execution.Orders.Limit.{
  count, retcode_invalid_price, retcode_invalid_expiration, LimitOutcome, limit_type, limit_request,
  send_limit, fall_back, on_give_up, limit_attempts, execute_limit_order,
}

module _ {F B R : Type 0} ⦃fl : Floats F⦄ (api : Broker F B) (cfg : ExecutionConfig F)
    (plan : TradePlan F) (si : SymbolInfo F) (expiry : ℕ) where
  abbrev Sends : ℕ → LimitOutcome F × Work F B R → Type 0
  Sends bound (out, w) = IsBounded plan si bound w.requests

  snoc :
      (t : OrderType) (gtc : Bool) (w : Work F B R) (n : ℕ)
      → IsOnPlan plan si w
      → All (IsWithin plan si) w.requests
      → IsBounded plan si
          (length w.requests + suc n)
          (send_limit api cfg plan si expiry t gtc w).1.requests
  snoc t gtc w n h rs =
      snoc-IsBounded plan si w.requests _ n rs (refl, on_plan-Sized plan si w h, h.1)

  fall_back-Sends :
      (placed_name failed_name : String) (t : OrderType) (gtc : Bool) (e : BrokerError)
      (w : Work F B R)
      → IsOnPlan plan si w
      → All (IsWithin plan si) w.requests
      → Sends
          (length w.requests + 1)
          (fall_back api cfg plan si expiry placed_name failed_name t gtc e w)
  unfolding fall_back
  fall_back-Sends placed_name failed_name t gtc e w h rs =
      let now = snoc t gtc w 0 h rs in
      SendResult_holds (Sends (length w.requests + 1)) (send_limit api cfg plan si expiry t gtc w).0
        _ _ _ (λ r. now) (λ x. now) (λ x. now)

  on_give_up-Sends :
      (e : BrokerError) (w : Work F B R)
      → IsOnPlan plan si w
      → All (IsWithin plan si) w.requests
      → Sends (length w.requests + 1) (on_give_up api cfg plan si expiry e w)
  unfolding on_give_up
  on_give_up-Sends e w h rs =
      if_holds P (e.retcode == some retcode_invalid_price) _ _
        (λ _.
          if_holds P cfg.use_limit_to_stop_fallback _ _
            (λ _.
              fall_back-Sends _ _ _ _ e (count api cfg plan si expiry "orders.limit_price_missed" w)
                h rs)
            (λ _. unchanged))
        (λ _.
          if_holds P (e.retcode == some retcode_invalid_expiration) _ _
            (λ _.
              if_holds P cfg.use_gtc_fallback_on_invalid_expiration _ _
                (λ _.
                  fall_back-Sends _ _ _ _ e
                    (count api cfg plan si expiry "orders.limit_expiration_rejected" w) h rs)
                (λ _. unchanged))
            (λ _. unchanged))
    where
      P : LimitOutcome F × Work F B R → Type 0
      P = Sends (length w.requests + 1)

      unchanged : IsBounded plan si (length w.requests + 1) w.requests
      unchanged = (omega arith, rs)

  limit_attempts-Sends :
      (o : IsOrdered F) (n : ℕ) (w : Work F B R)
      → IsOnPlan plan si w
      → All (IsWithin plan si) w.requests
      → Sends (length w.requests + suc n) (limit_attempts api cfg plan si expiry n w)
  unfolding limit_attempts
  limit_attempts-Sends o zero w h rs = (omega arith, rs)
  limit_attempts-Sends o (suc n) w h rs =
      let order = limit_type plan.side in
      let sent = (send_limit api cfg plan si expiry order false w).1 in
      let asked = limit_request plan expiry order false w.volume w.sl w.tp in
      let now = snoc order false w (suc n) h rs in
      SendResult_holds P (send_limit api cfg plan si expiry order false w).0 _ _ _ (λ r. now)
        (λ e.
          Next_holds P (Keeps plan si sent)
            (on_error plan.side si (nat_eq n 0) plan.entry_price e sent) _ _
            (λ w' k.
              let same = ap length k.1 ∙ length-append w.requests (asked ∷ []) in
              subst (λ m. Sends m (limit_attempts api cfg plan si expiry n w'))
                (omega (arith, same)) (limit_attempts-Sends o n w' k.0 (rw k.1 now.1)))
            (λ w' k.
              let same = ap length k.1 ∙ length-append w.requests (asked ∷ []) in
              let rest = on_give_up-Sends e w' k.0 (rw k.1 now.1) in
              (omega (arith, same, rest.0), rest.1))
            (on_error-Keeps plan si o (nat_eq n 0) plan.entry_price e sent h))
        (λ e. now)
    where
      P : LimitOutcome F × Work F B R → Type 0
      P = Sends (length w.requests + suc (suc n))

  -- However the broker answers, execute_limit_order sends at most one order, its retries and one
  -- fallback order, each for the plan's symbol, for the plan's lots or half of them once rounded, and
  -- with stops no tighter than the plan's.
  pub execute_limit_order-IsBounded :
      (o : IsOrdered F) (broker : B) (metrics : Metrics F R)
      → IsBounded plan si
          (cfg.order_retry_count + 2)
          (execute_limit_order api cfg plan si expiry broker metrics).1.requests
  unfolding execute_limit_order
  execute_limit_order-IsBounded o broker metrics =
      let all =
        limit_attempts-Sends o (suc cfg.order_retry_count) _
          (inl (refl, refl), Outward-refl o plan.side plan.stop_loss plan.tp2) tt in
      (omega (arith, all.0), all.1)
