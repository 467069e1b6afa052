-- ===== src/Execution/Engine/Balance.antt =====
-- Reservations balance: what `execute` reserves it gives back, on every path.
use bobis_quote_mt5_trading.Prelude.{
  ℕ, ◌+◌, ◌-◌, ◌≡◌, refl, ap, ◌∙◌, String, false, not, Option, none, some, List, [], ◌∷◌, nat_eq,
  keep, if_holds, Option_holds, arith, ◌==◌, if◌then◌else◌, Eq_string, Eq_nat, Eq_option, beq_self,
}
use bobis_quote_mt5_trading.Prelude.Dict.{
  Dict, lookup_or, insert, remove, lookup-insert, lookup-remove,
}
use bobis_quote_mt5_trading.Prelude.Floats.{Floats, sub}
use bobis_quote_mt5_trading.Config.{ExecutionConfig, RiskConfig}
use bobis_quote_mt5_trading.Domain.Signal.{InboundSignal}
use bobis_quote_mt5_trading.Domain.Trade.{Trade, TradePlan}
use bobis_quote_mt5_trading.Domain.Position.{SymbolInfo, AccountInfo}
use bobis_quote_mt5_trading.Brokers.{Broker, Fetched_holds}
use bobis_quote_mt5_trading.Positions.Store.{get_open_trades}
use bobis_quote_mt5_trading.Risk.Rules.{RiskState, Rule}
use bobis_quote_mt5_trading.Risk.Engine.{
  RiskDecision, Outcome, decided, raised_no_rules, raised_no_number, evaluate, risk_multiplier,
}
use bobis_quote_mt5_trading.Execution.Orders.Market.{MarketOutcome, placed, execute_market_order}
use bobis_quote_mt5_trading.Execution.Orders.Market as Market
use bobis_quote_mt5_trading.Execution.Orders.Limit.{LimitOutcome, resting, execute_limit_order}
use bobis_quote_mt5_trading.Execution.Orders.Limit as Limit
use bobis_quote_mt5_trading.Execution.Engine.{
  EngineState, EngineEvent, emit, Times, reserve, release, contains, pending_for,
}
use bobis_quote_mt5_trading.Execution.Engine.Gate.{
  Admission, refused, crashed, admitted, admit, fetch_and_judge, judge, on_outcome, on_decision,
  hold, is_stale, is_duplicate, unprofitable_stacked_trade, symbol_of, context_of, planned_risk_of,
}
use bobis_quote_mt5_trading.Execution.Engine.Run.{
  EnginePorts, Executed, execute, proceed, on_plan, place_limit, place_market, on_limit, on_market,
  new_trade, filled_plan, store_trade, open_trade, sync_levels, follows_fill, give_back, expiry_of,
}

module _ {F B : Type 0} where
  -- The reservations of two states agree.
  abbrev pub SameReservations : EngineState F B → EngineState F B → Type 0
  SameReservations s s' = (s'.pending ≡ s.pending) × (s'.pending_signal_ids ≡ s.pending_signal_ids)

  release-respects :
      (symbol id : String) (s t : EngineState F B)
      → SameReservations s t
      → SameReservations (release symbol id s) (release symbol id t)
  unfolding release
  release-respects symbol id s t h = (rw h.0 refl, rw h.1 refl)

  -- After the checks: the reservations are as before, or one was made for a signal that had none.
  abbrev pub Gated : InboundSignal F → EngineState F B → Admission F × EngineState F B → Type 0
  Gated signal s (refused, s') = SameReservations s s'
  Gated signal s (crashed, s') = SameReservations s s'
  Gated signal s (admitted si account m, s') =
      SameReservations (reserve (symbol_of signal) signal.id s) s'
      × (contains signal.id s.pending_signal_ids ≡ false)

module _ {F B : Type 0} ⦃fl : Floats F⦄ (rules : List (Rule F)) (risk_config : RiskConfig F)
    (now : ℕ) (signal : InboundSignal F) where
  on_decision-Gated :
      (account : AccountInfo F) (si : SymbolInfo F) (d : RiskDecision F) (s : EngineState F B)
      → contains signal.id s.pending_signal_ids ≡ false
      → Gated signal s (on_decision rules risk_config now signal account si d s)
  unfolding on_decision hold reserve
  on_decision-Gated account si d s new =
      if_holds P d.approved _ _
        (λ _.
          Option_holds P (risk_multiplier d) _ _ (refl, refl)
            (λ m. Option_holds P (planned_risk_of d m) _ _ (refl, refl) (λ p. ((refl, refl), new))))
        (λ _. (refl, refl))
    where
      P : Admission F × EngineState F B → Type 0
      P = Gated signal s

  on_outcome-Gated :
      (account : AccountInfo F) (si : SymbolInfo F) (s : EngineState F B)
      (o : Outcome F × RiskState F)
      → contains signal.id s.pending_signal_ids ≡ false
      → Gated signal s (on_outcome rules risk_config now signal account si s o)
  unfolding reserve
  on_outcome-Gated account si s (decided d, r) new =
      on_decision-Gated account si d (record s { risk = r }) new
  on_outcome-Gated account si s (raised_no_rules, r) new = (refl, refl)
  on_outcome-Gated account si s (raised_no_number, r) new = (refl, refl)

  judge-Gated :
      (account : AccountInfo F) (si : SymbolInfo F) (s : EngineState F B)
      → Gated signal s (judge rules risk_config now signal account si s)
  unfolding judge is_duplicate
  judge-Gated account si s =
      if_holds P (is_duplicate signal s) _ _ (λ _. (refl, refl))
        (λ e.
          Option_holds P (unprofitable_stacked_trade (get_open_trades s.positions) signal si) _ _
            (on_outcome-Gated account si s
              (evaluate rules (context_of rules risk_config now signal si s) s.risk)
              (ground (arith, e)))
            (λ t. (refl, refl)))
    where
      P : Admission F × EngineState F B → Type 0
      P = Gated signal s

module _ {F B : Type 0} ⦃fl : Floats F⦄ (api : Broker F B) (exec : ExecutionConfig F)
    (rules : List (Rule F)) (risk_config : RiskConfig F) (now minutes : ℕ)
    (signal : InboundSignal F) where
  admit-Gated :
      (s : EngineState F B) → Gated signal s (admit api exec rules risk_config now minutes signal s)
  unfolding admit fetch_and_judge
  admit-Gated s =
      if_holds P (is_stale exec.max_signal_age_ms minutes now signal) _ _ (λ _. (refl, refl))
        (λ _.
          Fetched_holds P (api.account_info s.broker) _ _ _
            (λ account.
              Fetched_holds P (api.symbol_info s.broker (symbol_of signal)) _ _ _
                (λ si. judge-Gated rules risk_config now signal account si s) (refl, refl)
                (refl, refl))
            (refl, refl) (refl, refl))
    where
      P : Admission F × EngineState F B → Type 0
      P = Gated signal s

module _ {F B : Type 0} ⦃fl : Floats F⦄ (api : Broker F B) (exec : ExecutionConfig F)
    (ports : EnginePorts F) (at : Times) (signal : InboundSignal F) where
  -- What is left once a plan was tried: the reservation is gone, and nothing else was touched.
  abbrev Freed : EngineState F B → Executed F × EngineState F B → Type 0
  Freed s (answer, s') = SameReservations (release (symbol_of signal) signal.id s) s'

  store_trade-keeps :
      (trade : Trade F) (s : EngineState F B)
      → SameReservations s (store_trade api exec ports at signal trade s)
  store_trade-keeps trade s =
      if_holds {A = EngineState F B} (SameReservations s) (ports.save trade) _ _ (λ _. (refl, refl))
        (λ _. (refl, refl))

  sync_levels-keeps :
      (plan : TradePlan F) (price : F) (ticket : ℕ) (s : EngineState F B)
      → SameReservations s (sync_levels api exec ports at signal plan price ticket s)
  unfolding sync_levels
  sync_levels-keeps plan price ticket s =
      if_holds {A = EngineState F B} (SameReservations s)
        (follows_fill exec (sub price plan.entry_price)) _ _ (λ _. (refl, refl)) (λ _. (refl, refl))

  open_trade-Freed :
      (plan : TradePlan F) (ticket : ℕ) (price volume : F) (s : EngineState F B)
      → Freed s (open_trade api exec ports at signal plan ticket price volume s)
  unfolding open_trade release give_back
  open_trade-Freed plan ticket price volume s =
      let synced = sync_levels api exec ports at signal plan price ticket s in
      let trade =
        new_trade (ports.uuid ticket) (symbol_of signal) signal (filled_plan exec plan price volume)
          ticket at.opened in
      let first = sync_levels-keeps plan price ticket s in
      let second = store_trade-keeps trade synced in
      if_holds (Freed s) (ports.copies trade) _ _
        (λ _.
          release-respects (symbol_of signal) signal.id s
            (store_trade api exec ports at signal trade synced)
            (second.0 ∙ first.0, second.1 ∙ first.1))
        (λ _. release-respects (symbol_of signal) signal.id s synced first)

  on_limit-Freed :
      (plan : TradePlan F) (o : LimitOutcome F) (s : EngineState F B)
      → Freed s (on_limit api exec ports at signal plan o s)
  unfolding release give_back
  on_limit-Freed plan (resting ticket price) s = (refl, refl)
  on_limit-Freed plan (Limit.failed error) s = (refl, refl)

  on_market-Freed :
      (plan : TradePlan F) (o : MarketOutcome F) (s : EngineState F B)
      → Freed s (on_market api exec ports at signal plan o s)
  unfolding release give_back
  on_market-Freed plan (placed ticket price volume) s = open_trade-Freed plan ticket price volume s
  on_market-Freed plan (Market.failed error) s = (refl, refl)

  on_plan-Freed :
      (si : SymbolInfo F) (plan : Option (TradePlan F)) (s : EngineState F B)
      → Freed s (on_plan api exec ports at signal si plan s)
  unfolding release give_back place_limit place_market
  on_plan-Freed si none s = (refl, refl)
  on_plan-Freed si (some plan) s =
      if_holds (Freed s) (signal.entry_type == "limit") _ _
        (λ _.
          on_limit-Freed plan
            (execute_limit_order api exec plan si (expiry_of api exec ports at signal) s.broker
              s.risk.metrics).0
            _)
        (λ _.
          on_market-Freed plan (execute_market_order api exec plan si s.broker s.risk.metrics).0 _)

module _ (k symbol : String) where
  lookup_or-insert :
      (n : ℕ) (d : Dict String ℕ)
      → lookup_or k 0 (insert symbol n d) ≡ (if symbol == k then n else lookup_or k 0 d)
  unfolding lookup_or
  lookup_or-insert n d = ground (arith, lookup-insert symbol k n d)

  lookup_or-remove :
      (d : Dict String ℕ)
      → lookup_or k 0 (remove symbol d) ≡ (if symbol == k then 0 else lookup_or k 0 d)
  unfolding lookup_or
  lookup_or-remove d = ground (arith, lookup-remove symbol k d)

-- One more, and one less: a count of 0 and an absent one are read alike.
count-restored :
    (k symbol : String) (d : Dict String ℕ)
    → lookup_or k 0 (
        if nat_eq (lookup_or symbol 0 (insert symbol (lookup_or symbol 0 d + 1) d) - 1) 0
        then remove symbol (insert symbol (lookup_or symbol 0 d + 1) d)
        else insert symbol
            (lookup_or symbol 0 (insert symbol (lookup_or symbol 0 d + 1) d) - 1)
            (insert symbol (lookup_or symbol 0 d + 1) d))
      ≡ lookup_or k 0 d
count-restored k symbol d =
    let one = insert symbol (lookup_or symbol 0 d + 1) d in
    ground (
      arith,
      lookup_or-insert symbol symbol (lookup_or symbol 0 d + 1) d,
      lookup_or-insert k symbol (lookup_or symbol 0 d + 1) d,
      lookup_or-insert k symbol (lookup_or symbol 0 one - 1) one,
      lookup_or-remove k symbol one,
      Eq_string.beq_iff symbol k,
      beq_self symbol,
    )

contains-keep :
    (i id : String) (ids : List String)
    → contains i (keep (λ j. not (j == id)) ids) ≡ (if id == i then false else contains i ids)
contains-keep i id [] = ground arith
contains-keep i id (j ∷ js) = ground (
  arith,
  contains-keep i id js,
  Eq_string.beq_iff j id,
  Eq_string.beq_iff j i,
  Eq_string.beq_iff id i,
)

module _ {F B : Type 0} where
  -- To every observer of the reservations, the states are the same.
  abbrev pub IsBalanced : EngineState F B → EngineState F B → Type 0
  IsBalanced s s' =
      ((symbol : String) → pending_for symbol s' ≡ pending_for symbol s)
      × ((id : String) → contains id s'.pending_signal_ids ≡ contains id s.pending_signal_ids)

  reserve-release :
      (symbol id : String) (s t : EngineState F B)
      → contains id s.pending_signal_ids ≡ false
      → SameReservations (reserve symbol id s) t
      → IsBalanced s (release symbol id t)
  unfolding reserve release pending_for
  reserve-release symbol id s t new h = (
    λ k. rw h.0 (count-restored k symbol s.pending),
    λ i. rw h.1 (
        ground
          (arith, contains-keep i id (id ∷ s.pending_signal_ids), Eq_string.beq_iff id i, new)),
  )

  -- Giving back a reservation that was made for a signal that had none leaves the reservations as they
  -- were.
  pub release-reserve :
      (symbol id : String) (s : EngineState F B)
      → contains id s.pending_signal_ids ≡ false
      → IsBalanced s (release symbol id (reserve symbol id s))
  release-reserve symbol id s new =
      reserve-release symbol id s (reserve symbol id s) new (refl, refl)

module _ {F B : Type 0} ⦃fl : Floats F⦄ (api : Broker F B) (exec : ExecutionConfig F)
    (ports : EnginePorts F) (at : Times) (signal : InboundSignal F) (rules : List (Rule F))
    (risk_config : RiskConfig F) (minutes : ℕ) where
  proceed-IsBalanced :
      (s : EngineState F B) (a : Admission F × EngineState F B)
      → Gated signal s a
      → IsBalanced s (proceed api exec ports at signal a).1
  unfolding pending_for
  proceed-IsBalanced s (refused, t) h = (λ k. rw h.0 refl, λ i. rw h.1 refl)
  proceed-IsBalanced s (crashed, t) h = (λ k. rw h.0 refl, λ i. rw h.1 refl)
  proceed-IsBalanced s (admitted si account m, t) h =
      let told = emit EngineEvent.execution_attempted (emit EngineEvent.risk_approved t) in
      let freed =
        on_plan-Freed api exec ports at signal si (ports.plan_of signal account si m) told in
      let whole = reserve-release (symbol_of signal) signal.id s told h.1 h.0 in
      (λ k. ap (λ d. lookup_or k 0 d) freed.0 ∙ whole.0 k, λ i. ap (contains i) freed.1 ∙ whole.1 i)

  -- However the checks, the planner and the broker answer, a call of `execute` leaves the reservations as
  -- it found them: the same count for every symbol, and the same pending signals.
  pub execute-IsBalanced :
      (s : EngineState F B)
      → IsBalanced s (execute api exec ports at signal rules risk_config minutes s).1
  unfolding execute
  execute-IsBalanced s =
      proceed-IsBalanced s (admit api exec rules risk_config at.started minutes signal s)
        (admit-Gated api exec rules risk_config at.started minutes signal s)
