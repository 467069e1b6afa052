-- ===== src/Core/EventBus/Delivery.antt =====
-- Who is called when an event is emitted, and who is registered afterwards.
use bobis_quote_mt5_trading.Prelude.{
  ℕ, String, Bool, ◌≡◌, refl, ◌∙◌, ap, if_holds, List, [], ◌∷◌, Eq_string, arith,
}
use bobis_quote_mt5_trading.Prelude.Dict.{Dict, lookup_or, insert, lookup-insert}
use bobis_quote_mt5_trading.Core.EventBus.{
  Listener, plain, single, EventBus, listeners_of, remove_single, take_off, fire, fire_all,
  fire_wildcards, emit,
}

module _ {L : Type 0} where
  abbrev pub function_of : Listener L → L
  function_of (plain l) = l
  function_of (single n l) = l

  -- The functions that were registered to stay.
  abbrev pub lasting : List (Listener L) → List L
  lasting [] = []
  lasting (plain l ∷ ls) = l ∷ lasting ls
  lasting (single n l ∷ ls) = lasting ls

  -- Every event keeps its lasting functions, and the wildcards stay.
  abbrev pub Kept : EventBus L → EventBus L → Type 0
  Kept bus after =
      ((event : String) → lasting (listeners_of event after) ≡ lasting (listeners_of event bus))
      × (after.wildcard ≡ bus.wildcard)

  lasting-remove_single :
      (n : ℕ) (ls : List (Listener L)) → lasting (remove_single n ls) ≡ lasting ls
  unfolding remove_single
  lasting-remove_single n [] = refl
  lasting-remove_single n (plain l ∷ ls) = ap (λ r. l ∷ r) (lasting-remove_single n ls)
  lasting-remove_single n (single m l ∷ ls) = ground (arith, lasting-remove_single n ls)

  lookup_or-insert :
      (event other : String) (ls : List (Listener L)) (d : Dict String (List (Listener L)))
      → lasting ls ≡ lasting (lookup_or event [] d)
      → lasting (lookup_or other [] (insert event ls d)) ≡ lasting (lookup_or other [] d)
  unfolding lookup_or
  lookup_or-insert event other ls d h =
      ground (arith, lookup-insert event other ls d, Eq_string.beq_iff event other, h)

  take_off-Kept : (event : String) (n : ℕ) (bus : EventBus L) → Kept bus (take_off event n bus)
  unfolding take_off
  take_off-Kept event n bus =
      (λ other. lookup_or-insert event other _ bus.listeners (lasting-remove_single n _), refl)

module _ {L P W : Type 0} (call : L → P → W → Bool × W) (call_any : L → String → P → W → Bool × W)
    (event : String) (payload : P) where
  -- The functions, and the wildcards, called one after the other, whether or not they raise.
  abbrev pub call_each : List (Listener L) → W → W
  call_each [] w = w
  call_each (l ∷ ls) w = call_each ls (call (function_of l) payload w).1

  abbrev pub call_wildcards : List L → W → W
  call_wildcards [] w = w
  call_wildcards (l ∷ ls) w = call_wildcards ls (call_any l event payload w).1

  fire_wildcards-call_wildcards :
      (ls : List L) (w : W) → fire_wildcards call call_any event payload ls w ≡ call_wildcards ls w
  unfolding fire_wildcards
  fire_wildcards-call_wildcards [] w = refl
  fire_wildcards-call_wildcards (l ∷ ls) w =
      fire_wildcards-call_wildcards ls (call_any l event payload w).1

  fire-Kept :
      (l : Listener L) (bus : EventBus L) (w : W)
      → Kept bus (fire call call_any event payload l (bus, w)).0
        × ((fire call call_any event payload l (bus, w)).1 ≡ (call (function_of l) payload w).1)
  unfolding fire
  fire-Kept (plain l) bus w = ((λ e. refl, refl), refl)
  fire-Kept (single n l) bus w =
      if_holds (λ (s : EventBus L × W). Kept bus s.0 × (s.1 ≡ (call l payload w).1))
        (call l payload w).0 _ _ (λ _. (take_off-Kept event n bus, refl))
        (λ _. ((λ e. refl, refl), refl))

  fire_all-Kept :
      (ls : List (Listener L)) (s : EventBus L × W)
      → Kept s.0 (fire_all call call_any event payload ls s).0
        × ((fire_all call call_any event payload ls s).1 ≡ call_each ls s.1)
  unfolding fire_all
  fire_all-Kept [] s = ((λ e. refl, refl), refl)
  fire_all-Kept (l ∷ ls) s =
      let now = fire-Kept l s.0 s.1 in
      let later = fire_all-Kept ls (fire call call_any event payload l s) in
      ((λ e. later.0.0 e ∙ now.0.0 e, later.0.1 ∙ now.0.1), later.1 ∙ ap (call_each ls) now.1)

  -- An emission calls the functions registered for the event in their order and then the wildcards,
  -- whichever of them raise; afterwards every event has the functions that were registered to stay,
  -- in their order, and the wildcards are the same.
  pub emit-IsDelivered :
      (bus : EventBus L) (w : W)
      → ((emit call call_any event payload (bus, w)).1
          ≡ call_wildcards bus.wildcard (call_each (listeners_of event bus) w))
        × Kept bus (emit call call_any event payload (bus, w)).0
  unfolding emit
  emit-IsDelivered bus w =
      let read : EventBus L = record bus {
        listeners = insert event (listeners_of event bus) bus.listeners;
      } in
      let fired = fire_all-Kept (listeners_of event bus) (read, w) in
      let log : W = (fire_all call call_any event payload (listeners_of event bus) (read, w)).1 in
      (
        ap (λ (ls : List L). fire_wildcards call call_any event payload ls log) fired.0.1
            ∙ ap (fire_wildcards call call_any event payload bus.wildcard) fired.1
            ∙ fire_wildcards-call_wildcards bus.wildcard _,
        (
          (λ e. fired.0.0 e ∙ lookup_or-insert event e (listeners_of event bus) bus.listeners refl),
          fired.0.1,
        ),
      )
