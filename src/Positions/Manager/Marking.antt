-- ===== src/Positions/Manager/Marking.antt =====
-- What a trade and the manager's books hold after its first target was reached.
use bobis_quote_mt5_trading.Prelude.{
  ℕ, ◌≡◌, refl, ap, ◌∙◌, String, true, false, not, ◌&&◌, Option, none, some, [], ◌∷◌, ◌++◌, nat_eq,
  arith, if_holds, if◌then◌else◌, ◌==◌, Eq_string,
}
use bobis_quote_mt5_trading.Prelude.Dict.{lookup, lookup-insert}
use bobis_quote_mt5_trading.Prelude.Floats.{Floats, num, lt}
use bobis_quote_mt5_trading.Config.{ExecutionConfig}
use bobis_quote_mt5_trading.Domain.Trade.{Trade}
use bobis_quote_mt5_trading.Domain.Position.{SymbolInfo, Tick}
use bobis_quote_mt5_trading.Brokers.{Broker, Fetched, found, missing, raised, Fetched_holds}
use bobis_quote_mt5_trading.Positions.Store.{get, patch, update, set_field, set_fields}
use bobis_quote_mt5_trading.Positions.Store.Laws.{update-found}
use bobis_quote_mt5_trading.Positions.Manager.{ManagerEvent, ManagerState}
use bobis_quote_mt5_trading.Positions.Manager.Tp1.{
  nothing_done, close_part, exit_price, partial_request, Partial, StopMove, moved, unmoved,
  deferred, is_some, new_stop, tp1_patches, partial_close, send_stop, stop_at, move_stop, or_fetch,
  after_tp1, finish_tp1, handle_tp1_price_reached,
}

module _ {F B R : Type 0} where
  -- The store, what was saved and what was announced are as they were.
  abbrev pub SameBooks : ManagerState F B R → ManagerState F B R → Type 0
  SameBooks s s' = (s'.positions ≡ s.positions) × (s'.saved ≡ s.saved) × (s'.events ≡ s.events)

  trans : (s t u : ManagerState F B R) → SameBooks s t → SameBooks t u → SameBooks s u
  trans s t u h k = (k.0 ∙ h.0, k.1 ∙ h.1, k.2 ∙ h.2)

-- A stop is deferred only where nothing was closed.
module _ {F : Type 0} where
  abbrev pub Deferral : Partial F → StopMove F → Type 0
  Deferral p deferred = p.close_price ≡ none
  Deferral p (moved sl) = Unit
  Deferral p unmoved = Unit

module _ {F B : Type 0} ⦃fl : Floats F⦄ (api : Broker F B) where
  -- The broker has closed the part: at the price of the tick on the trade's side, for the lots of the first
  -- target.
  abbrev pub IsClosed : Trade F → (ticket : ℕ) → B → F → Type 0
  IsClosed trade ticket b price =
      (lt (num 0) trade.tp1_lots ≡ true)
      × (nat_eq ticket 0 ≡ false)
      × (tick : Tick F) × (api.current_tick b trade.symbol ≡ found tick)
      × (price ≡ exit_price trade.side tick)
      × ((api.close_position b (partial_request trade ticket price)).0 ≡ true)

  -- Where no price is recorded, the broker has refused the close if it was asked for one.
  abbrev pub IsPart : Trade F → (ticket : ℕ) → B → Option F → Type 0
  IsPart trade ticket b (some price) = IsClosed trade ticket b price
  IsPart trade ticket b none =
      (si : SymbolInfo F) (tick : Tick F)
      → lt (num 0) trade.tp1_lots ≡ true
      → nat_eq ticket 0 ≡ false
      → api.symbol_info b trade.symbol ≡ found si
      → api.current_tick b trade.symbol ≡ found tick
      → (api.close_position b (partial_request trade ticket (exit_price trade.side tick))).0 ≡ false

  -- A stop that moves is one that the broker has taken, with the target as it was.
  abbrev pub IsTaken : Trade F → (ticket : ℕ) → B → StopMove F → Type 0
  IsTaken trade ticket b (moved sl) = (api.modify_position b ticket sl trade.tp2).0 ≡ true
  IsTaken trade ticket b m = Unit

module _ {F B R : Type 0} ⦃fl : Floats F⦄ (api : Broker F B) (cfg : ExecutionConfig F)
    (now : ℕ) where
  pub partial_close-keeps :
      (trade : Trade F) (ticket : ℕ) (s : ManagerState F B R)
      → SameBooks s (partial_close api cfg now trade ticket s).1
  unfolding partial_close
  partial_close-keeps trade ticket s =
      if_holds P (lt (num 0) trade.tp1_lots && not (nat_eq ticket 0)) _ _
        (λ _.
          Fetched_holds P (api.symbol_info s.broker trade.symbol) _ _ _
            (λ si.
              Fetched_holds P (api.current_tick s.broker trade.symbol) _ _ _
                (λ tick. if_holds P _ _ _ (λ _. same) (λ _. same)) same same)
            same same)
        (λ _. same)
    where
      P : Partial F × ManagerState F B R → Type 0
      P (p, s') = SameBooks s s'

      same : SameBooks s s
      same = (refl, refl, refl)

  partial_close-IsPart :
      (trade : Trade F) (ticket : ℕ) (s : ManagerState F B R)
      → IsPart api trade ticket s.broker (partial_close api cfg now trade ticket s).0.close_price
  unfolding partial_close
  partial_close-IsPart trade ticket s =
      if_holds P (lt (num 0) trade.tp1_lots && not (nat_eq ticket 0)) _ _
        (λ e. with_symbol e (api.symbol_info s.broker trade.symbol) refl)
        (λ e si tick h k. ground (arith, e, h, k))
    where
      P : Partial F × ManagerState F B R → Type 0
      P r = IsPart api trade ticket s.broker r.0.close_price

      with_tick :
          (lt (num 0) trade.tp1_lots && not (nat_eq ticket 0)) ≡ true
          → (si : SymbolInfo F) (q : Fetched (Tick F)) → api.current_tick s.broker trade.symbol ≡ q
          → P (elim q [
            | missing ↦ (record nothing_done { symbol_info = some si }, s)
            | raised ↦ (record nothing_done { symbol_info = some si }, s)
            | found tick ↦ close_part api cfg now trade ticket si tick s
          ])
      with_tick e si missing m = λ si' tick h k l n. cc
      with_tick e si raised m = λ si' tick h k l n. cc
      with_tick e si (found tick) m =
          if_holds P
            (api.close_position s.broker
              (partial_request trade ticket (exit_price trade.side tick))).0
            _ _ (λ c. (ground (arith, e), ground (arith, e), tick, m, refl, c))
            (λ c si' tick' h k l n. cc)

      with_symbol :
          (lt (num 0) trade.tp1_lots && not (nat_eq ticket 0)) ≡ true
          → (q : Fetched (SymbolInfo F)) → api.symbol_info s.broker trade.symbol ≡ q
          → P (elim q [
            | missing ↦ (nothing_done, s)
            | raised ↦ (nothing_done, s)
            | found si ↦ elim (api.current_tick s.broker trade.symbol) [
              | missing ↦ (record nothing_done { symbol_info = some si }, s)
              | raised ↦ (record nothing_done { symbol_info = some si }, s)
              | found tick ↦ close_part api cfg now trade ticket si tick s
            ]
          ])
      with_symbol e missing m = λ si tick h k l n. cc
      with_symbol e raised m = λ si tick h k l n. cc
      with_symbol e (found si) m = with_tick e si (api.current_tick s.broker trade.symbol) refl

  send_stop-IsTaken :
      (trade : Trade F) (ticket : ℕ) (p : Partial F) (stop : Option F) (s : ManagerState F B R)
      → IsTaken api trade ticket s.broker (send_stop api cfg now trade ticket p stop s).0
  send_stop-IsTaken trade ticket p none s =
      if_holds (IsTaken api trade ticket s.broker) (is_some p.close_price) _ _ (λ _. tt) (λ _. tt)
  send_stop-IsTaken trade ticket p (some sl) s =
      if_holds (IsTaken api trade ticket s.broker)
        (api.modify_position s.broker ticket sl trade.tp2).0 (moved sl) unmoved (λ e. e) (λ _. tt)

  stop_at-IsTaken :
      (trade : Trade F) (ticket : ℕ) (p : Partial F) (si : Option (SymbolInfo F))
      (tick : Option (Tick F)) (s : ManagerState F B R)
      → IsTaken api trade ticket s.broker (stop_at api cfg now trade ticket p si tick s).0
  stop_at-IsTaken trade ticket p (some si) (some tick) s = send_stop-IsTaken trade ticket p _ s
  stop_at-IsTaken trade ticket p (some si) none s = tt
  stop_at-IsTaken trade ticket p none tick s = tt

  move_stop-IsTaken :
      (trade : Trade F) (ticket : ℕ) (p : Partial F) (s : ManagerState F B R)
      → IsTaken api trade ticket s.broker (move_stop api cfg now trade ticket p s).0
  unfolding move_stop
  move_stop-IsTaken trade ticket p s =
      if_holds {A = StopMove F × ManagerState F B R} (λ r. IsTaken api trade ticket s.broker r.0)
        (cfg.move_sl_to_be_on_tp1 && not (nat_eq ticket 0))
        (stop_at api cfg now trade ticket p
          (or_fetch p.symbol_info (api.symbol_info s.broker trade.symbol))
          (or_fetch p.tick (api.current_tick s.broker trade.symbol)) s)
        (unmoved, s)
        (λ _.
          stop_at-IsTaken trade ticket p
            (or_fetch p.symbol_info (api.symbol_info s.broker trade.symbol))
            (or_fetch p.tick (api.current_tick s.broker trade.symbol)) s)
        (λ _. tt)

  send_stop-keeps :
      (trade : Trade F) (ticket : ℕ) (p : Partial F) (stop : Option F) (s : ManagerState F B R)
      → SameBooks s (send_stop api cfg now trade ticket p stop s).1
        × Deferral p (send_stop api cfg now trade ticket p stop s).0
  send_stop-keeps trade ticket p none s = ((refl, refl, refl), held p.close_price refl)
    where
      held :
          (price : Option F)
          → p.close_price ≡ price
          → Deferral p (if is_some price then unmoved else deferred)
      held none e = e
      held (some price) e = tt
  send_stop-keeps trade ticket p (some sl) s = (
    (refl, refl, refl),
    if_holds (Deferral p) (api.modify_position s.broker ticket sl trade.tp2).0 (moved sl) unmoved
        (λ _. tt) (λ _. tt),
  )

  stop_at-keeps :
      (trade : Trade F) (ticket : ℕ) (p : Partial F) (si : Option (SymbolInfo F))
      (tick : Option (Tick F)) (s : ManagerState F B R)
      → SameBooks s (stop_at api cfg now trade ticket p si tick s).1
        × Deferral p (stop_at api cfg now trade ticket p si tick s).0
  stop_at-keeps trade ticket p (some si) (some tick) s = send_stop-keeps trade ticket p _ s
  stop_at-keeps trade ticket p (some si) none s = ((refl, refl, refl), tt)
  stop_at-keeps trade ticket p none tick s = ((refl, refl, refl), tt)

  pub move_stop-keeps :
      (trade : Trade F) (ticket : ℕ) (p : Partial F) (s : ManagerState F B R)
      → SameBooks s (move_stop api cfg now trade ticket p s).1
        × Deferral p (move_stop api cfg now trade ticket p s).0
  unfolding move_stop
  move_stop-keeps trade ticket p s =
      if_holds {A = StopMove F × ManagerState F B R} (λ r. SameBooks s r.1 × Deferral p r.0) _ _ _
        (λ _.
          stop_at-keeps trade ticket p
            (or_fetch p.symbol_info (api.symbol_info s.broker trade.symbol))
            (or_fetch p.tick (api.current_tick s.broker trade.symbol)) s)
        (λ _. ((refl, refl, refl), tt))

  -- The trade is stored, saved and announced with the target marked, whatever the broker answered.
  abbrev pub Written :
      (trade stored : Trade F)
      → Partial F
      → StopMove F
      → (before after : ManagerState F B R) → Type 0
  Written trade stored p m s s' =
      let u = patch now (tp1_patches now trade p m) stored in
      ((j : String) → get j s'.positions ≡ (if trade.id == j then some u else get j s.positions))
      × (s'.saved ≡ s.saved ++ u ∷ [])
      × (s'.events ≡ s.events ++ ManagerEvent.tp1_hit u ∷ [])
      × (u.tp1_hit ≡ true)
      × (u.tp1_close_price ≡ p.close_price)
      × (u.stop_loss ≡ new_stop trade m)

  abbrev pub Marked :
      (trade stored : Trade F)
      → Partial F
      → StopMove F
      → (before after : ManagerState F B R) → Type 0
  Marked trade stored p deferred s s' = SameBooks s s' × (p.close_price ≡ none)
  Marked trade stored p m s s' = Written trade stored p m s s'

  after_tp1-Written :
      (trade stored : Trade F) (p : Partial F) (m : StopMove F) (s t : ManagerState F B R)
      → lookup trade.id s.positions ≡ some stored
      → SameBooks s t
      → Written trade stored p m s
          (after_tp1 api cfg now t (update now trade.id (tp1_patches now trade p m) t.positions))
  unfolding get tp1_patches patch set_fields set_field
  after_tp1-Written trade stored p m s t here same =
      let ps = tp1_patches now trade p m in
      let u = patch now ps stored in
      let kept =
        ap (after_tp1 api cfg now t)
          (update-found now trade.id ps t.positions stored (ap (lookup trade.id) same.0 ∙ here)) in
      rw kept (
        (λ j.
            lookup-insert trade.id j u t.positions
            ∙ ap (λ d. if trade.id == j then some u else lookup j d) same.0),
        ap (λ l. l ++ u ∷ []) same.1,
        ap (λ l. l ++ ManagerEvent.tp1_hit u ∷ []) same.2,
        refl,
        refl,
        refl,
      )

  finish_tp1-Marked :
      (trade stored : Trade F) (p : Partial F) (m : StopMove F) (s t : ManagerState F B R)
      → get trade.id s.positions ≡ some stored
      → SameBooks s t
      → Deferral p m
      → Marked trade stored p m s (finish_tp1 api cfg now trade p m t)
  unfolding get
  finish_tp1-Marked trade stored p deferred s t here same d = (same, d)
  finish_tp1-Marked trade stored p unmoved s t here same d =
      after_tp1-Written trade stored p unmoved s t here same
  finish_tp1-Marked trade stored p (moved sl) s t here same d =
      after_tp1-Written trade stored p (moved sl) s t here same

  -- When the first target of a stored trade is handled, either nothing was closed and the stop could not
  -- yet be moved, and the books are as before, so that the next poll tries again; or the target is marked
  -- for good, the trade is saved and announced once, and no other trade changes. A close price is
  -- recorded where the broker closed the part at it, and none where it refused or was not asked; the stop
  -- changes only to one that the broker took.
  pub handle_tp1_price_reached-Marked :
      (trade stored : Trade F) (ticket : ℕ) (s : ManagerState F B R)
      → get trade.id s.positions ≡ some stored
      → Marked trade stored
          (partial_close api cfg now trade ticket s).0
          (move_stop api cfg now trade ticket
            (partial_close api cfg now trade ticket s).0
            (partial_close api cfg now trade ticket s).1).0
          s
          (handle_tp1_price_reached api cfg now trade ticket s)
        × IsPart api trade ticket s.broker (partial_close api cfg now trade ticket s).0.close_price
        × IsTaken api trade ticket
            (partial_close api cfg now trade ticket s).1.broker
            (move_stop api cfg now trade ticket
              (partial_close api cfg now trade ticket s).0
              (partial_close api cfg now trade ticket s).1).0
  unfolding handle_tp1_price_reached
  handle_tp1_price_reached-Marked trade stored ticket s here =
      let first = partial_close api cfg now trade ticket s in
      let second = move_stop-keeps trade ticket first.0 first.1 in
      (
        finish_tp1-Marked trade stored first.0
            (move_stop api cfg now trade ticket first.0 first.1).0 s
            (move_stop api cfg now trade ticket first.0 first.1).1 here
            (trans s first.1 (move_stop api cfg now trade ticket first.0 first.1).1
              (partial_close-keeps trade ticket s) second.0)
            second.1,
        partial_close-IsPart trade ticket s,
        move_stop-IsTaken trade ticket first.0 first.1,
      )
