-- ===== src/Positions/Manager/Once.antt =====
-- A position that is gone is closed in the store, saved and announced, once.
use bobis_quote_mt5_trading.Prelude.{
  ℕ, ◌≡◌, refl, sym, subst, ap, ◌∙◌, String, Bool, true, false, Option, none, some, List, [], ◌∷◌,
  ◌++◌, arith, if◌then◌else◌, ◌==◌, Eq_string, Eq_nat,
}
use bobis_quote_mt5_trading.Prelude.Dict.{lookup, insert, lookup-insert, lookup-remove, remove}
use bobis_quote_mt5_trading.Prelude.Floats.{Floats}
use bobis_quote_mt5_trading.Domain.Trade.{Trade, TradeStatus}
use bobis_quote_mt5_trading.Brokers.{Fetched, found, missing, raised}
use bobis_quote_mt5_trading.Positions.Store.{update, patch, discard, get, set_field, set_fields}
use bobis_quote_mt5_trading.Positions.Store.Laws.{update-found}
use bobis_quote_mt5_trading.Positions.Manager.{ManagerEvent, ManagerState, is_stub}
use bobis_quote_mt5_trading.Positions.Manager.Closing.{
  Resolution, close_with, after_update, closing_events, closing_patches, resolve, stub_resolution,
  forget_price, gone_with, handle_position_gone,
}

module _ {F : Type 0} where
  -- What is announced of a trade that is closed: the level that was hit, the target first, and then
  -- TRADE_CLOSED; of a stub only the latter.
  abbrev pub Announced : (stub : Bool) → Resolution F → Trade F → List (ManagerEvent F) → Type 0
  Announced stub r u es =
      (stub ≡ false
        → r.tp2_hit ≡ true
        → es ≡ ManagerEvent.tp2_hit u ∷ ManagerEvent.trade_closed u ∷ [])
      × (stub ≡ false
          → r.tp2_hit ≡ false
          → r.sl_hit ≡ true
          → es ≡ ManagerEvent.sl_hit u ∷ ManagerEvent.trade_closed u ∷ [])
      × (r.tp2_hit ≡ false → r.sl_hit ≡ false → es ≡ ManagerEvent.trade_closed u ∷ [])
      × (stub ≡ true → es ≡ ManagerEvent.trade_closed u ∷ [])

  -- The trade as it is closed.
  abbrev pub closed_trade : ⦃fl : Floats F⦄ → ℕ → Resolution F → Trade F → Trade F
  closed_trade now r t = patch now (closing_patches now r) t

module _ {F : Type 0} ⦃fl : Floats F⦄ where
  closing_events-Announced :
      (stub : Bool) (r : Resolution F) (t : Trade F) → Announced stub r t (closing_events stub r t)
  closing_events-Announced stub r t = (
    λ h k. ground (arith, h, k),
    λ h k l. ground (arith, h, k, l),
    λ h k. ground (arith, h, k),
    λ h. ground (arith, h),
  )

  closed_trade-IsClosed :
      (now : ℕ) (r : Resolution F) (t : Trade F)
      → ((closed_trade now r t).id ≡ t.id)
        × ((closed_trade now r t).status ≡ TradeStatus.closed)
        × ((closed_trade now r t).closed_at ≡ some now)
        × ((closed_trade now r t).close_price ≡ r.close_price)
        × ((closed_trade now r t).close_reason ≡ some r.close_reason)
        × ((closed_trade now r t).realized_rr ≡ r.realized_rr)
  unfolding closing_patches patch set_fields set_field
  closed_trade-IsClosed now r t = (refl, refl, refl, refl, refl, refl)

module _ {F B R : Type 0} ⦃fl : Floats F⦄ (now : ℕ) (trade stored : Trade F)
    (before : ManagerState F B R) where
  -- The trade leaves the store and no other one does or changes, it is saved once, closed as the
  -- resolution says and at the clock's reading, and it is announced.
  abbrev pub Ended : Resolution F → ManagerState F B R → Type 0
  Ended r s =
      ((j : String) → get j s.positions ≡ (if trade.id == j then none else get j before.positions))
      × ((u : Trade F) × (u.status ≡ TradeStatus.closed)
          × (u.closed_at ≡ some now)
          × (u.close_price ≡ r.close_price)
          × (u.close_reason ≡ some r.close_reason)
          × (u.realized_rr ≡ r.realized_rr)
          × (s.saved ≡ before.saved ++ u ∷ [])
          × (es : List (ManagerEvent F)) × (s.events ≡ before.events ++ es)
          × Announced (is_stub trade) r u es)

  -- By what the broker says of the deal, if it is asked.
  abbrev pub Gone :
      (ticket : ℕ) (stub : Bool)
      → Fetched (Option F × Option String)
      → Bool × ManagerState F B R
      → Type 0
  Gone ticket true answer (returned, s) = (returned ≡ true) × Ended stub_resolution s
  Gone ticket false (found info) (returned, s) =
      (returned ≡ true) × Ended (resolve trade (lookup ticket before.last_price) (some info)) s
  Gone ticket false missing (returned, s) =
      (returned ≡ true) × Ended (resolve trade (lookup ticket before.last_price) none) s
  Gone ticket false raised (returned, s) =
      (returned ≡ false)
      × (s.positions ≡ before.positions)
      × (s.saved ≡ before.saved)
      × (s.events ≡ before.events)

  close_with-Ended :
      (r : Resolution F) (s : ManagerState F B R)
      → get trade.id before.positions ≡ some stored
      → stored.id ≡ trade.id
      → s.positions ≡ before.positions
      → s.saved ≡ before.saved
      → s.events ≡ before.events
      → Ended r (close_with now trade r s)
  unfolding close_with update get discard
  close_with-Ended r s here same p q e =
      let shape = closed_trade-IsClosed now r stored in
      let closed = ap (after_update now trade r s) (
        update-found now trade.id (closing_patches now r) s.positions stored
          (ap (lookup trade.id) p ∙ here)) in
      rw closed (
        λ j. emptied j,
        (
          closed_trade now r stored,
          shape.1,
          shape.2,
          shape.3,
          shape.4,
          shape.5,
          ap (λ l. l ++ closed_trade now r stored ∷ []) q,
          closing_events (is_stub trade) r (closed_trade now r stored),
          ap (λ l. l ++ closing_events (is_stub trade) r (closed_trade now r stored)) e,
          closing_events-Announced (is_stub trade) r (closed_trade now r stored),
        ),
      )
    where
      u : Trade F
      u = closed_trade now r stored

      emptied :
          (j : String)
          → lookup j (remove u.id (insert trade.id u s.positions))
            ≡ (if trade.id == j then none else lookup j before.positions)
      emptied j =
          let name = (closed_trade-IsClosed now r stored).0 ∙ same in
          rw name (
            rw p (
              ground (
                arith,
                lookup-remove trade.id j (insert trade.id u before.positions),
                lookup-insert trade.id j u before.positions,
              )))

module _ {F B R : Type 0} ⦃fl : Floats F⦄ (deal_info : B → ℕ → Fetched (Option F × Option String))
    (now : ℕ) (trade : Trade F) (ticket : ℕ) (s : ManagerState F B R) where
  gone_with-Gone :
      (stored : Trade F) (stub : Bool) (answer : Fetched (Option F × Option String))
      → get trade.id s.positions ≡ some stored
      → stored.id ≡ trade.id
      → Gone now trade stored s ticket stub answer
          (gone_with deal_info now trade ticket stub answer s)
  gone_with-Gone stored true answer h k =
      (refl, close_with-Ended now trade stored s _ s h k refl refl refl)
  gone_with-Gone stored false (found info) h k = (
    refl,
    close_with-Ended now trade stored s _ (forget_price deal_info now ticket s) h k refl refl refl,
  )
  gone_with-Gone stored false missing h k = (
    refl,
    close_with-Ended now trade stored s _ (forget_price deal_info now ticket s) h k refl refl refl,
  )
  gone_with-Gone stored false raised h k = (refl, refl, refl, refl)

  -- When a stored trade that has not hit its target is gone from the broker, it leaves the store and
  -- every other trade stays as it is; it is saved once, closed at the clock's reading with the reason, price
  -- and R of its resolution, and announced: first TP2_HIT or else SL_HIT, if the resolution says so and
  -- the trade is no stub, and then TRADE_CLOSED once. Only where the trade is no stub and the question
  -- for its deal raises does the handler raise, and then store, saved trades and events are as before.
  pub handle_position_gone-Closes :
      (stored : Trade F)
      → get trade.id s.positions ≡ some stored
      → stored.id ≡ trade.id
      → trade.tp2_hit ≡ false
      → Gone now trade stored s ticket
          (is_stub trade)
          (deal_info s.broker ticket)
          (handle_position_gone deal_info now trade ticket s)
  unfolding handle_position_gone
  handle_position_gone-Closes stored here same fresh =
      let handled =
        gone_with deal_info now trade ticket (is_stub trade) (deal_info s.broker ticket) s in
      subst (Gone now trade stored s ticket (is_stub trade) (deal_info s.broker ticket))
        (ap (λ (b : Bool). if b then (true, s) else handled) (sym fresh))
        (gone_with-Gone stored (is_stub trade) (deal_info s.broker ticket) here same)
