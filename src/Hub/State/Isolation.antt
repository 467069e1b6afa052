-- ===== src/Hub/State/Isolation.antt =====
-- The brokers do not touch each other's slots.
use mathlib.Core.List.{append-nil}
use bobis_quote_mt5_trading.Prelude.{
  String, Bool, true, false, if◌then◌else◌, keep, Option, none, some, List, [], ◌∷◌, ◌++◌, ◌==◌,
  Eq_string, Bool-cases, Option-cases, inl, inr, ◌≡◌, refl, sym, ap, ◌∙◌, arith,
}
use bobis_quote_mt5_trading.Prelude.Dict.{Dict, lookup, lookup-insert}
use bobis_quote_mt5_trading.Hub.State.{
  Json, BrokerSlot, HubState, Operation, on_relay, register, mark_offline, relay, registered,
  set_slot, connect, disconnect, seen, deliver, apply, run,
}

keep-append :
    {A : Type 0} → (p : A → Bool) (xs ys : List A) → keep p (xs ++ ys) ≡ keep p xs ++ keep p ys
keep-append p [] ys = refl
keep-append p (x ∷ xs) ys = ground (arith, keep-append p xs ys)

module _ {C V L : Type 0} ⦃js : Json V⦄ where
  -- The calls that name a broker, and those for all of them.
  abbrev pub concerns : String → Operation C V L → Bool
  concerns b (on_relay l) = true
  concerns b (register j c now) = j == b
  concerns b (mark_offline j) = j == b
  concerns b (relay j frame now) = j == b

  -- What a call makes of the slot of its broker, and what it hands to the listeners.
  abbrev slot_after : Operation C V L → Option (BrokerSlot C V) → Option (BrokerSlot C V)
  slot_after (on_relay l) o = o
  slot_after (register j c now) o = some (registered j c now o)
  slot_after (mark_offline j) none = none
  slot_after (mark_offline j) (some slot) = some (record slot { live = false; connection = none })
  slot_after (relay j frame now) none = none
  slot_after (relay j frame now) (some slot) = some (seen frame now slot)

  abbrev listeners_after : Operation C V L → List L → List L
  listeners_after (on_relay l) ls = ls ++ l ∷ []
  listeners_after o ls = ls

  abbrev handed :
      Operation C V L → Option (BrokerSlot C V) → List L → List (String × Dict String V × List L)
  handed (relay j frame now) (some slot) ls = (j, frame, ls) ∷ []
  handed o slot ls = []

  -- The slot of a broker, the listeners, and the frames of the broker that were handed on.
  abbrev pub frames_of : String → HubState C V L → List (String × Dict String V × List L)
  frames_of b s = keep (λ d. d.0 == b) s.delivered

  lookup-apply :
      (b : String) (o : Operation C V L) (s : HubState C V L)
      → lookup b (apply o s).slots
        ≡ (if concerns b o then slot_after o (lookup b s.slots) else lookup b s.slots)
  unfolding apply connect disconnect deliver set_slot
  lookup-apply b (on_relay l) s = refl
  lookup-apply b (register j c now) s = ground (
    arith,
    lookup-insert j b (registered j c now (lookup j s.slots)) s.slots,
    Eq_string.beq_iff j b,
  )
  lookup-apply b (mark_offline j) s = elim (Option-cases (lookup j s.slots)) [
    | inl absent ↦ ground (arith, absent, Eq_string.beq_iff j b)
    | inr (slot, found) ↦ ground (
      arith,
      found,
      lookup-insert j b (record slot { live = false; connection = none }) s.slots,
      Eq_string.beq_iff j b,
    )
  ]
  lookup-apply b (relay j frame now) s = elim (Option-cases (lookup j s.slots)) [
    | inl absent ↦ ground (arith, absent, Eq_string.beq_iff j b)
    | inr (slot, found) ↦
        ground
          (arith, found, lookup-insert j b (seen frame now slot) s.slots, Eq_string.beq_iff j b)
  ]

  frames_of-apply :
      (b : String) (o : Operation C V L) (s : HubState C V L)
      → frames_of b (apply o s)
        ≡ frames_of b s ++ (if concerns b o then handed o (lookup b s.slots) s.listeners else [])
  unfolding apply connect disconnect deliver set_slot
  frames_of-apply b (on_relay l) s = ground (arith, append-nil (frames_of b s))
  frames_of-apply b (register j c now) s = ground (arith, append-nil (frames_of b s))
  frames_of-apply b (mark_offline j) s = elim (Option-cases (lookup j s.slots)) [
    | inl absent ↦ ground (arith, append-nil (frames_of b s), absent)
    | inr (slot, found) ↦ ground (arith, append-nil (frames_of b s), found)
  ]
  frames_of-apply b (relay j frame now) s = elim (Option-cases (lookup j s.slots)) [
    | inl absent ↦ ground (arith, append-nil (frames_of b s), absent, Eq_string.beq_iff j b)
    | inr (slot, found) ↦ ground (
      arith,
      append-nil (frames_of b s),
      found,
      Eq_string.beq_iff j b,
      keep-append (λ d. d.0 == b) s.delivered ((j, frame, s.listeners) ∷ []),
    )
  ]

  listeners-apply :
      (o : Operation C V L) (s : HubState C V L)
      → (apply o s).listeners ≡ listeners_after o s.listeners
  unfolding apply connect disconnect deliver set_slot
  listeners-apply (on_relay l) s = refl
  listeners-apply (register j c now) s = refl
  listeners-apply (mark_offline j) s = elim (Option-cases (lookup j s.slots)) [
    | inl absent ↦ ground (arith, absent)
    | inr (slot, found) ↦ ground (arith, found)
  ]
  listeners-apply (relay j frame now) s = elim (Option-cases (lookup j s.slots)) [
    | inl absent ↦ ground (arith, absent)
    | inr (slot, found) ↦ ground (arith, found)
  ]

  -- Two states that hold the same of a broker.
  abbrev pub AreAlike : String → (s t : HubState C V L) → Type 0
  AreAlike b s t =
      (lookup b s.slots ≡ lookup b t.slots)
      × (s.listeners ≡ t.listeners)
      × (frames_of b s ≡ frames_of b t)

  unheard :
      (b : String) (o : Operation C V L) (ls : List L)
      → concerns b o ≡ false
      → listeners_after o ls ≡ ls
  unheard b (on_relay l) ls h = cc
  unheard b (register j c now) ls h = refl
  unheard b (mark_offline j) ls h = refl
  unheard b (relay j frame now) ls h = refl

  other_call :
      (b : String) (o : Operation C V L) (s t : HubState C V L)
      → concerns b o ≡ false
      → AreAlike b s t
      → AreAlike b (apply o s) t
  other_call b o s t h a =
      let slot : lookup b (apply o s).slots ≡ lookup b s.slots = lookup-apply b o s ∙ rw h refl in
      let frames : frames_of b (apply o s) ≡ frames_of b s =
        frames_of-apply b o s ∙ rw h (append-nil (frames_of b s)) in
      (slot ∙ a.0, listeners-apply o s ∙ unheard b o s.listeners h ∙ a.1, frames ∙ a.2)

  same_call :
      (b : String) (o : Operation C V L) (s t : HubState C V L)
      → AreAlike b s t
      → AreAlike b (apply o s) (apply o t)
  same_call b o s t a = (
    lookup-apply b o s
        ∙ ap (λ x. if concerns b o then slot_after o x else x) a.0
        ∙ sym (lookup-apply b o t),
    listeners-apply o s ∙ ap (listeners_after o) a.1 ∙ sym (listeners-apply o t),
    frames_of-apply b o s ∙ rw (a.0, a.1, a.2) refl ∙ sym (frames_of-apply b o t),
  )

  run-AreAlike :
      (b : String) (os : List (Operation C V L)) (s t : HubState C V L)
      → AreAlike b s t
      → AreAlike b (run os s) (run (keep (concerns b) os) t)
  run-AreAlike b [] s t a = a
  run-AreAlike b (o ∷ os) s t a = elim (Bool-cases (concerns b o)) [
    | inl own ↦ rw own (run-AreAlike b os (apply o s) (apply o t) (same_call b o s t a))
    | inr other ↦ rw other (run-AreAlike b os (apply o s) t (other_call b o s t other a))
  ]

  -- Whatever the calls are, and in whatever order, the slot of a broker and the frames of it that the
  -- listeners get are those that the calls for this broker alone would leave: what happens to other
  -- brokers does not show.
  pub run-IsIsolated :
      (b : String) (os : List (Operation C V L)) (s : HubState C V L)
      → AreAlike b (run os s) (run (keep (concerns b) os) s)
  run-IsIsolated b os s = run-AreAlike b os s s (refl, refl, refl)
