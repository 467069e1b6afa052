-- ===== src/Hub/Internal/Stale.antt =====
-- Which connection the commands for a broker go to.
use bobis_quote_mt5_trading.Prelude.{
  ℕ, String, Bool, false, ◌==◌, Eq_string, beq_self, if◌then◌else◌, Option, none, some, List, [],
  ◌∷◌, All, ◌≡◌, refl, ap, ◌∙◌, arith, Option-cases, inl, inr,
}
use bobis_quote_mt5_trading.Prelude.Dict.{Dict, lookup, lookup-insert}
use bobis_quote_mt5_trading.Hub.State.{
  Json, HubState, registered, set_slot, connect, disconnect, seen, deliver, connection_for,
}
use bobis_quote_mt5_trading.Hub.Internal.{
  lost, broken, not_a_dict, message, Event, opened, arrived, closed, on_message, handle, handle_all,
}

module _ {C V : Type 0} where
  -- The connection that the latest event of a broker leaves: the one it opens, or none where it closes.
  abbrev pub after : String → Event C V → Option C → Option C
  after b (opened j c now) old = if j == b then some c else old
  after b (arrived j raw now) old = old
  after b (closed j) old = if j == b then none else old

  abbrev pub after_all : String → List (Event C V) → Option C → Option C
  after_all b [] old = old
  after_all b (e ∷ es) old = after_all b es (after b e old)

  abbrev opens : String → Event C V → Bool
  opens b (opened j c now) = j == b
  opens b e = false

  abbrev pub OpensNone : String → List (Event C V) → Type 0
  OpensNone b es = All (λ e. opens b e ≡ false) es

  stays_none : (b : String) (es : List (Event C V)) → OpensNone b es → after_all b es none ≡ none
  stays_none b [] h = refl
  stays_none b (opened j c now ∷ es) h = rw h.0 (stays_none b es h.1)
  stays_none b (arrived j raw now ∷ es) h = stays_none b es h.1
  stays_none b (closed j ∷ es) h = ground (arith, stays_none b es h.1)

module _ {C V L : Type 0} ⦃js : Json V⦄ where
  connection-deliver :
      (b j : String) (frame : Dict String V) (now : ℕ) (s : HubState C V L)
      → connection_for b (deliver j frame now s) ≡ connection_for b s
  unfolding connection_for deliver seen
  connection-deliver b j frame now s = elim (Option-cases (lookup j s.slots)) [
    | inl absent ↦ ground (arith, absent)
    | inr (slot, found) ↦
        ground
          (arith, found, lookup-insert j b (seen frame now slot) s.slots, Eq_string.beq_iff j b)
  ]

  connection-handle :
      (b : String) (e : Event C V) (s : HubState C V L)
      → connection_for b (handle e s) ≡ after b e (connection_for b s)
  unfolding connection_for handle connect disconnect set_slot on_message registered
  connection-handle b (opened j c now) s = elim (Option-cases (lookup j s.slots)) [
    | inl absent ↦ ground (
      arith,
      absent,
      lookup-insert j b (registered j c now (lookup j s.slots)) s.slots,
      Eq_string.beq_iff j b,
    )
    | inr (slot, found) ↦ ground (
      arith,
      found,
      lookup-insert j b (registered j c now (lookup j s.slots)) s.slots,
      Eq_string.beq_iff j b,
    )
  ]
  connection-handle b (arrived j lost now) s = refl
  connection-handle b (arrived j broken now) s = refl
  connection-handle b (arrived j not_a_dict now) s = refl
  connection-handle b (arrived j (message frame) now) s =
      ground (arith, connection-deliver b j frame now s)
  connection-handle b (closed j) s = elim (Option-cases (lookup j s.slots)) [
    | inl absent ↦ ground (arith, absent, Eq_string.beq_iff j b)
    | inr (slot, found) ↦ ground (
      arith,
      found,
      lookup-insert j b (record slot { live = false; connection = none }) s.slots,
      Eq_string.beq_iff j b,
    )
  ]

  -- However the events of the connections interleave, the connection that commands for a broker go to is
  -- the one that was opened last, unless any connection of the broker was closed since.
  pub connection-handle_all :
      (b : String) (es : List (Event C V)) (s : HubState C V L)
      → connection_for b (handle_all es s) ≡ after_all b es (connection_for b s)
  connection-handle_all b [] s = refl
  connection-handle_all b (e ∷ es) s =
      connection-handle_all b es (handle e s) ∙ ap (after_all b es) (connection-handle b e s)

  -- If a broker connects again before the hub has noticed that its old connection is gone, the end of
  -- the old connection leaves the broker with no connection, though the new one is open, until it
  -- connects once more, whatever other events there are.
  pub stale_close :
      (b : String) (old new : C) (t u : ℕ) (es : List (Event C V)) (s : HubState C V L)
      → OpensNone b es
      → connection_for b (handle_all (opened b old t ∷ opened b new u ∷ closed b ∷ es) s) ≡ none
  stale_close b old new t u es s h =
      connection-handle_all b (opened b old t ∷ opened b new u ∷ closed b ∷ es) s
      ∙ rw (beq_self b) (stays_none b es h)
