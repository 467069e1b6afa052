-- ===== src/Positions/Manager/Kept.antt =====
-- A poll keeps the trades whose positions the broker still reports.
use bobis_quote_mt5_trading.Prelude.{
  ℕ, ◌+◌, ◌≡◌, ◌∙◌, ◌⊎◌, inl, inr, String, Bool, true, false, Option, not, ◌&&◌, some, List, [],
  ◌∷◌, All, ltb, if_holds, Option_holds, ◌==◌, Eq_string, Eq_nat,
}
use bobis_quote_mt5_trading.Prelude.Dict.{lookup_or}
use bobis_quote_mt5_trading.Prelude.Floats.{Floats, truthy}
use bobis_quote_mt5_trading.Config.{ExecutionConfig}
use bobis_quote_mt5_trading.Domain.Trade.{Trade}
use bobis_quote_mt5_trading.Domain.Position.{Position}
use bobis_quote_mt5_trading.Brokers.{Broker, Fetched, found, missing, raised}
use bobis_quote_mt5_trading.Positions.Store.{Patch, update, patch, discard}
use bobis_quote_mt5_trading.Positions.Store.Keys.{
  Keeps, remove-AreKeyed, remove-Has, update-cases, patched-id, insert-Keeps,
}
use bobis_quote_mt5_trading.Positions.Pending.{position_by_ticket}
use bobis_quote_mt5_trading.Positions.Manager.{ManagerState, is_stub, reached, stub_miss_limit}
use bobis_quote_mt5_trading.Positions.Manager.Closing.{
  Resolution, close_with, closing_patches, gone_with, handle_position_gone,
}
use bobis_quote_mt5_trading.Positions.Manager.Tp1.{
  Partial, StopMove, moved, unmoved, deferred, after_tp1, finish_tp1, partial_close, move_stop,
  handle_tp1_price_reached,
}
use bobis_quote_mt5_trading.Positions.Manager.Marking.{partial_close-keeps, move_stop-keeps}
use bobis_quote_mt5_trading.Positions.Manager.Poll.{on_still_open, on_absent, follow, follow_all}

split_holds :
    {C : Type 0} (P : C → Type 0) (b : Bool) (x y : C)
    → P x
    → P y
    → P (elim b [ true ↦ x | false ↦ y ])
split_holds P true x y h k = h
split_holds P false x y h k = k

module _ {F : Type 0} where
  -- Another trade, or one whose position is among those that the broker reports.
  abbrev pub IsSpared : String → List (Position F) → Trade F → Type 0
  IsSpared j open_positions trade =
      ((trade.id == j) ≡ false)
      ⊎ ((ticket : ℕ) × ((trade.entry_ticket ≡ some ticket)
            × ((pos : Position F) × (position_by_ticket ticket open_positions ≡ some pos))))

module _ {F B R : Type 0} ⦃fl : Floats F⦄ (api : Broker F B) (cfg : ExecutionConfig F) (now : ℕ)
    (j : String) where
  -- An update keeps every key; the trade that it closes is the one of its id.
  after_tp1-Keeps :
      (trade : Trade F) (ps : List (Patch F)) (s : ManagerState F B R)
      → Keeps j s.positions
      → Keeps j (after_tp1 api cfg now s (update now trade.id ps s.positions)).positions
  after_tp1-Keeps trade ps s h = elim (update-cases now trade.id ps s.positions) [
    | inl e ↦ rw e h
    | inr (t, (there, e)) ↦ rw e (
        insert-Keeps j trade.id (patch now ps t) s.positions
          (patched-id now ps trade.id s.positions t h.0 there) h)
  ]

  finish_tp1-Keeps :
      (trade : Trade F) (p : Partial F) (m : StopMove F) (s : ManagerState F B R)
      → Keeps j s.positions
      → Keeps j (finish_tp1 api cfg now trade p m s).positions
  finish_tp1-Keeps trade p deferred s h = h
  finish_tp1-Keeps trade p unmoved s h = after_tp1-Keeps trade _ s h
  finish_tp1-Keeps trade p (moved sl) s h = after_tp1-Keeps trade _ s h

  handle_tp1-Keeps :
      (trade : Trade F) (ticket : ℕ) (s : ManagerState F B R)
      → Keeps j s.positions
      → Keeps j (handle_tp1_price_reached api cfg now trade ticket s).positions
  unfolding handle_tp1_price_reached
  handle_tp1-Keeps trade ticket s h =
      let first = partial_close api cfg now trade ticket s in
      let second = move_stop api cfg now trade ticket first.0 first.1 in
      let same =
        (move_stop-keeps api cfg now trade ticket first.0 first.1).0.0
        ∙ (partial_close-keeps api cfg now trade ticket s).0 in
      finish_tp1-Keeps trade first.0 second.0 second.1 (rw same h)

  close_with-Keeps :
      (trade : Trade F) (r : Resolution F) (s : ManagerState F B R)
      → (trade.id == j) ≡ false
      → Keeps j s.positions
      → Keeps j (close_with now trade r s).positions
  unfolding close_with discard
  close_with-Keeps trade r s d h =
      let ps = closing_patches now r in
      elim (update-cases now trade.id ps s.positions) [
        | inl e ↦ rw e h
        | inr (t, (there, e)) ↦
            let name = patched-id now ps trade.id s.positions t h.0 there in
            let kept = insert-Keeps j trade.id (patch now ps t) s.positions name h in
            rw e (
              remove-AreKeyed (patch now ps t).id _ kept.0,
              remove-Has j (patch now ps t).id _ (rw name d) kept.1,
            )
      ]

  gone-Keeps :
      (deal_info : B → ℕ → Fetched (Option F × Option String)) (trade : Trade F) (ticket : ℕ)
      (s : ManagerState F B R)
      → (trade.id == j) ≡ false
      → Keeps j s.positions
      → Keeps j (handle_position_gone deal_info now trade ticket s).1.positions
  unfolding handle_position_gone
  gone-Keeps deal_info trade ticket s d h =
      if_holds {A = Bool × ManagerState F B R} (λ t. Keeps j t.1.positions) trade.tp2_hit _ _
        (λ _. h) (λ _. cases (is_stub trade) (deal_info s.broker ticket))
    where
      cases :
          (stub : Bool) (answer : Fetched (Option F × Option String))
          → Keeps j (gone_with deal_info now trade ticket stub answer s).1.positions
      cases true answer = close_with-Keeps trade _ _ d h
      cases false (found info) = close_with-Keeps trade _ _ d h
      cases false missing = close_with-Keeps trade _ _ d h
      cases false raised = h

  on_absent-Keeps :
      (trade : Trade F) (ticket : ℕ) (s : ManagerState F B R)
      → (trade.id == j) ≡ false
      → Keeps j s.positions
      → Keeps j (on_absent api cfg now trade ticket s).1.positions
  unfolding on_absent
  on_absent-Keeps trade ticket s d h =
      if_holds {A = Bool × ManagerState F B R} (λ t. Keeps j t.1.positions) (is_stub trade) _ _
        (λ _.
          if_holds {A = Bool × ManagerState F B R} (λ t. Keeps j t.1.positions)
            (ltb (lookup_or trade.id 0 s.stub_miss_count + 1) stub_miss_limit) _ _ (λ _. h)
            (λ _. gone-Keeps api.deal_info trade ticket _ d h))
        (λ _. gone-Keeps api.deal_info trade ticket s d h)

  on_still_open-Keeps :
      (trade : Trade F) (ticket : ℕ) (pos : Position F) (s : ManagerState F B R)
      → Keeps j s.positions
      → Keeps j (on_still_open api cfg now trade ticket pos s).positions
  unfolding on_still_open
  on_still_open-Keeps trade ticket pos s h =
      if_holds {A = ManagerState F B R} (λ t. Keeps j t.positions)
        (not trade.tp1_hit
          && not (is_stub trade)
          && truthy trade.tp1
          && reached trade.side pos.current_price trade.tp1)
        _ _ (λ _. handle_tp1-Keeps trade ticket _ h) (λ _. h)

  follow-Keeps :
      (open_positions : List (Position F)) (trade : Trade F) (s : ManagerState F B R)
      → IsSpared j open_positions trade
      → Keeps j s.positions
      → Keeps j (follow api cfg now open_positions trade s).1.positions
  unfolding follow
  follow-Keeps open_positions trade s (inl d) h =
      Option_holds {C = Bool × ManagerState F B R} (λ t. Keeps j t.1.positions) trade.entry_ticket _
        _ h
        (λ ticket.
          Option_holds {C = Bool × ManagerState F B R} (λ t. Keeps j t.1.positions)
            (position_by_ticket ticket open_positions) _ _ (on_absent-Keeps trade ticket s d h)
            (λ pos. on_still_open-Keeps trade ticket pos s h))
  follow-Keeps open_positions trade s (inr (ticket, (e, (pos, k)))) h =
      rw (e, k, follow) (on_still_open-Keeps trade ticket pos s h)

  -- While a poll follows the open trades, a stored trade stays in the store, whatever happens to the others
  -- and to its own target and stop, unless its position is missing from those that the broker reports;
  -- and every trade stays under its own id.
  pub follow_all-Keeps :
      (open_positions : List (Position F)) (trades : List (Trade F)) (s : ManagerState F B R)
      → All (IsSpared j open_positions) trades
      → Keeps j s.positions
      → Keeps j (follow_all api cfg now open_positions trades s).1.positions
  unfolding follow_all
  follow_all-Keeps open_positions [] s hs h = h
  follow_all-Keeps open_positions (t ∷ ts) s hs h =
      let kept = follow-Keeps open_positions t s hs.0 h in
      split_holds {C = Bool × ManagerState F B R} (λ t. Keeps j t.1.positions)
        (follow api cfg now open_positions t s).0 _ _
        (follow_all-Keeps open_positions ts (follow api cfg now open_positions t s).1 hs.1 kept)
        kept
