-- ===== src/Execution/Orders/Attempts.antt =====
-- What a whole call of execute_market_order or execute_limit_order sends to the broker.
use bobis_quote_mt5_trading.Prelude.{
  ℕ, zero, suc, ◌+◌, ◌≤◌, ◌≡◌, refl, ap, subst, ◌∙◌, inl, false, ◌&&◌, List, All, length,
  length-append, if_holds, [], ◌∷◌, arith, nat_eq,
}
use bobis_quote_mt5_trading.Prelude.Floats.{Floats, IsOrdered}
use bobis_quote_mt5_trading.Config.{ExecutionConfig}
use bobis_quote_mt5_trading.Infra.Metrics.{Metrics}
use bobis_quote_mt5_trading.Domain.Trade.{TradePlan}
use bobis_quote_mt5_trading.Domain.Position.{SymbolInfo}
use bobis_quote_mt5_trading.Brokers.{
  Broker, OrderResult, CloseRequest, Fetched_holds, SendResult_holds,
}
use bobis_quote_mt5_trading.Execution.Orders.{Work, Next_holds, on_error}
use bobis_quote_mt5_trading.Execution.Orders.Stops.{
  Outward-refl, IsWithin, IsOnPlan, on_plan-Sized, IsBounded, snoc-IsBounded, Keeps, on_error-Keeps,
}
use bobis_quote_mt5_trading.Execution.Orders.Market.{
  request_of, MarketOutcome, plain_error, placed, failed, entry_quote, send, on_accepted,
  emergency_close, close_with, exceeds_slippage, market_attempts, execute_market_order, fresh_work,
}

module _ {F : Type 0} ⦃fl : Floats F⦄ (cfg : ExecutionConfig F) (plan : TradePlan F) where
  abbrev pub IsPlanSized : List (CloseRequest F) → Type 0
  IsPlanSized closes = (length closes ≤ 1) × All (λ c. c.volume ≡ plan.lot_size) closes

  -- An answer with the positions that the call closed.
  abbrev pub IsSettled : MarketOutcome F → List (CloseRequest F) → Type 0
  IsSettled (placed ticket price volume) closes =
      (closes ≡ []) × ((cfg.close_on_slippage_exceed && exceeds_slippage cfg plan price) ≡ false)
  IsSettled (failed error) closes = IsPlanSized closes

module _ {F B R : Type 0} ⦃fl : Floats F⦄ (api : Broker F B) (cfg : ExecutionConfig F)
    (plan : TradePlan F) (si : SymbolInfo F) where
  close_with-keeps :
      (price : F) (ticket : ℕ) (w : Work F B R)
      → w.closes ≡ []
      → ((close_with api cfg plan si price ticket w).requests ≡ w.requests)
        × IsPlanSized cfg plan (close_with api cfg plan si price ticket w).closes
  close_with-keeps price ticket w h =
      if_holds {A = Work F B R} (λ v. (v.requests ≡ w.requests) × IsPlanSized cfg plan v.closes) _ _
        _ (λ _. (refl, rw h (omega arith, (refl, tt))))
        (λ _. (refl, rw h (omega arith, (refl, tt))))

  emergency_close-keeps :
      (ticket : ℕ) (price : F) (w : Work F B R)
      → w.closes ≡ []
      → ((emergency_close api cfg plan si ticket price w).requests ≡ w.requests)
        × IsPlanSized cfg plan (emergency_close api cfg plan si ticket price w).closes
  unfolding emergency_close
  emergency_close-keeps ticket price w h =
      Fetched_holds {C = Work F B R}
        (λ v. (v.requests ≡ w.requests) × IsPlanSized cfg plan v.closes)
        (api.current_tick w.broker plan.symbol) _ _ _ (λ tick. close_with-keeps _ ticket w h)
        (close_with-keeps _ ticket w h) (refl, rw h (omega arith, tt))

  on_accepted-keeps :
      (r : OrderResult F) (w : Work F B R)
      → w.closes ≡ []
      → ((on_accepted api cfg plan si r w).1.requests ≡ w.requests)
        × IsSettled cfg plan
            (on_accepted api cfg plan si r w).0
            (on_accepted api cfg plan si r w).1.closes
  unfolding on_accepted
  on_accepted-keeps r w h =
      if_holds P (exceeds_slippage cfg plan r.executed_price) _ _
        (λ e.
          if_holds P cfg.close_on_slippage_exceed _ _
            (λ _. emergency_close-keeps r.ticket r.executed_price _ h)
            (λ k. (refl, (h, ground (arith, e, k)))))
        (λ e. (refl, (h, ground (arith, e))))
    where
      P : MarketOutcome F × Work F B R → Type 0
      P (out, w') = (w'.requests ≡ w.requests) × IsSettled cfg plan out w'.closes

  -- What a run of attempts answers: orders within the plan, no more than the attempts, and a settled call.
  abbrev Accounted : (bound : ℕ) → MarketOutcome F × Work F B R → Type 0
  Accounted bound (out, w) = IsBounded plan si bound w.requests × IsSettled cfg plan out w.closes

  market_attempts-Accounted :
      (o : IsOrdered F) (n : ℕ) (w : Work F B R)
      → IsOnPlan plan si w
      → All (IsWithin plan si) w.requests
      → w.closes ≡ []
      → Accounted (length w.requests + n) (market_attempts api cfg plan si n w)
  unfolding market_attempts
  market_attempts-Accounted o zero w h rs cs = ((omega arith, rs), rw cs (omega arith, tt))
  market_attempts-Accounted o (suc n) w h rs cs =
      Fetched_holds P (api.current_tick w.broker plan.symbol) _ _ _
        (λ tick.
          let price = entry_quote plan.side tick in
          let sent = (send api cfg plan si price w).1 in
          let asked = request_of plan price w.volume w.sl w.tp in
          let now =
            snoc-IsBounded plan si w.requests asked n rs (refl, on_plan-Sized plan si w h, h.1) in
          SendResult_holds P (send api cfg plan si price w).0 _ _ _
            (λ r. let done = on_accepted-keeps r sent cs in (rw done.0 now, done.1))
            (λ e.
              Next_holds P (Keeps plan si sent) (on_error plan.side si (nat_eq n 0) price e sent) _
                _
                (λ w' k.
                  let same = ap length k.1 ∙ length-append w.requests (asked ∷ []) in
                  subst (λ m. Accounted m (market_attempts api cfg plan si n w'))
                    (omega (arith, same))
                    (market_attempts-Accounted o n w' k.0 (rw k.1 now.1) (k.2 ∙ cs)))
                (λ w' k. (rw k.1 now, rw (k.2, cs) (omega arith, tt)))
                (on_error-Keeps plan si o (nat_eq n 0) price e sent h))
            (λ e. (now, rw cs (omega arith, tt))))
        stopped stopped
    where
      P : MarketOutcome F × Work F B R → Type 0
      P = Accounted (length w.requests + suc n)

      stopped : P (failed plain_error, w)
      stopped = ((omega arith, rs), rw cs (omega arith, tt))

  -- However the broker answers, execute_market_order sends at most one order and its retries, each for the
  -- plan's symbol, for the plan's lots or for half of them once rounded, and with stops no tighter than the
  -- plan's; where it answers a fill it has closed nothing and, if the setting to close on excessive
  -- slippage is on, its slippage is within the limit; where it fails it has asked for one emergency
  -- close at most, of the plan's lots.
  pub execute_market_order-IsBounded :
      (o : IsOrdered F) (broker : B) (metrics : Metrics F R)
      → IsBounded plan si
          (suc cfg.order_retry_count)
          (execute_market_order api cfg plan si broker metrics).1.requests
        × IsSettled cfg plan
            (execute_market_order api cfg plan si broker metrics).0
            (execute_market_order api cfg plan si broker metrics).1.closes
  unfolding execute_market_order
  execute_market_order-IsBounded o broker metrics =
      let all =
        market_attempts-Accounted o (suc cfg.order_retry_count)
          (fresh_work api cfg plan si plan.tp2 broker metrics)
          (inl (refl, refl), Outward-refl o plan.side plan.stop_loss plan.tp2) tt refl in
      ((omega arith, all.0.1), all.1)
