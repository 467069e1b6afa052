-- ===== src/Signals/Consumer/Repeat.antt =====
-- A message that arrives again, with others in between.
use bobis_quote_mt5_trading.Prelude.{
  ℕ, suc, Bool-cases, ◌+◌, ◌≤◌, ◌<◌, String, true, false, ◌||◌, not, leb, if_holds, ◌==◌, Eq_string,
  beq_self, ◌≡◌, ◌≢◌, refl, ◌∙◌, ap, sym, subst, ◌⊎◌, inl, inr, Option, none, some, List, [], ◌∷◌,
  ◌++◌, length, length-append, drop, arith,
}
use mathlib.Core.List.{append_assoc}
use bobis_quote_mt5_trading.Prelude.Dict.{Dict}
use bobis_quote_mt5_trading.Prelude.Floats.{Floats}
use bobis_quote_mt5_trading.Utils.Text.{strip, to_lower}
use bobis_quote_mt5_trading.Domain.Signal.{InboundSignal}
use bobis_quote_mt5_trading.Signals.Consumer.{
  Frame, broken, not_a_dict, frame, SignalConsumer, seen_ids_max, is_lifecycle,
  is_valid_signal_dict, was_seen, remember, counted, text_at, signal_id, is_other_broker, process,
  mark_received, handle_payload, handle_raw,
}
use bobis_quote_mt5_trading.Signals.Consumer.Seen.{on_signal-seen_ids, handle_all}

-- The key was remembered, and at most `n` others after it.
abbrev IsRecent : (event id : String) (n : ℕ) → List (String × String) → Type 0
IsRecent event id n seen =
    (older : List (String × String)) × (newer : List (String × String)) × (seen
      ≡ older ++ (event, id) ∷ newer)
    × (length newer ≤ n)

was_seen-append :
    (event id : String) (older newer : List (String × String))
    → was_seen event id (older ++ (event, id) ∷ newer) ≡ true
unfolding was_seen
was_seen-append event id [] newer = ground (arith, beq_self event, beq_self id)
was_seen-append event id ((f, j) ∷ older) newer =
    ground (arith, was_seen-append event id older newer)

was_seen-IsRecent :
    (event id : String) (n : ℕ) (seen : List (String × String))
    → IsRecent event id n seen
    → was_seen event id seen ≡ true
was_seen-IsRecent event id n seen (older, newer, e, h) =
    ap (was_seen event id) e ∙ was_seen-append event id older newer

IsRecent-more :
    (event id : String) (n : ℕ) (seen : List (String × String))
    → IsRecent event id n seen
    → IsRecent event id (n + 1) seen
IsRecent-more event id n seen (older, newer, e, h) = (older, newer, e, omega (arith, h))

-- A key goes only where it is the oldest of 10,000.
remember-IsRecent :
    (event id f j : String) (n : ℕ) (seen : List (String × String))
    → n + 1 < seen_ids_max
    → IsRecent event id n seen
    → IsRecent event id (n + 1) (remember f j seen)
unfolding remember
remember-IsRecent event id f j n seen room (older, newer, e, h) =
    if_holds (IsRecent event id (n + 1)) (leb seen_ids_max (length seen)) _ _
      (λ full. dropped older e full)
      (λ _. (
        older,
        newer ++ (f, j) ∷ [],
        ap (λ l. l ++ (f, j) ∷ []) e ∙ append_assoc older _ _,
        longer,
      ))
  where
    longer : length (newer ++ (f, j) ∷ []) ≤ n + 1
    longer = omega (arith, h, length-append newer ((f, j) ∷ []))

    dropped :
        (old : List (String × String))
        → seen ≡ old ++ (event, id) ∷ newer
        → leb seen_ids_max (length seen) ≡ true
        → IsRecent event id (n + 1) (drop 1 seen ++ (f, j) ∷ [])
    dropped [] e full =
        let size : length seen ≡ suc (length newer) = ap length e in
        absurd (ground (arith, full, size, h, room))
    dropped (x ∷ old) e full = (
      old,
      newer ++ (f, j) ∷ [],
      ap (λ l. drop 1 l ++ (f, j) ∷ []) e ∙ append_assoc old _ _,
      longer,
    )

remember-first :
    (event id : String) (seen : List (String × String))
    → IsRecent event id 0 (remember event id seen)
unfolding remember
remember-first event id seen =
    if_holds (IsRecent event id 0) (leb seen_ids_max (length seen)) _ _
      (λ _. (drop 1 seen, [], refl, omega arith)) (λ _. (seen, [], refl, omega arith))

module _ {F R V : Type 0} ⦃fl : Floats F⦄ (text : V → String)
    (from_dict : (now : ℕ) → Dict String V → Option (InboundSignal F)) (own_broker : String)
    (max_age : ℕ) where
  -- The message adds nothing to a state: it is dropped before its key matters, or its key was seen.
  abbrev IsSpent : (event : String) → Dict String V → SignalConsumer F R → Type 0
  IsSpent event payload c =
      ((is_lifecycle event || not (is_valid_signal_dict payload)) ≡ true)
      ⊎ ((is_other_broker own_broker (to_lower (strip (text_at text payload "broker"))) ≡ true)
          ⊎ (was_seen event (signal_id text payload) c.seen_ids ≡ true))

  IsSpent-emitted :
      (now : ℕ) (event : String) (payload : Dict String V) (c : SignalConsumer F R)
      → signal_id text payload ≢ ""
      → IsSpent event payload c
      → (handle_payload text from_dict own_broker max_age now event payload c).emitted ≡ c.emitted
  unfolding handle_payload process counted mark_received
  IsSpent-emitted now event payload c ne (inl x) = rw x
  IsSpent-emitted now event payload c ne (inr (inl x)) = ground (arith, x)
  IsSpent-emitted now event payload c ne (inr (inr x)) =
      ground (arith, x, ne, Eq_string.beq_iff (signal_id text payload) "")

  -- A message leaves the remembered keys, or adds one.
  process-seen_ids :
      (P : List (String × String) → Type 0) (now : ℕ) (event : String) (payload : Dict String V)
      (c : SignalConsumer F R)
      → P c.seen_ids
      → ((f j : String) → P (remember f j c.seen_ids))
      → P (process text from_dict own_broker max_age now event payload c).seen_ids
  unfolding process counted
  process-seen_ids P now event payload c h k =
      if_holds (λ (c' : SignalConsumer F R). P c'.seen_ids) (signal_id text payload == "") _ _
        (λ _. subst P (sym (on_signal-seen_ids text from_dict own_broker max_age now event _ c)) h)
        (λ _.
          if_holds (λ (c' : SignalConsumer F R). P c'.seen_ids)
            (was_seen event (signal_id text payload) c.seen_ids) _ _ (λ _. h)
            (λ _.
              subst P (sym (on_signal-seen_ids text from_dict own_broker max_age now event _ _))
                (k event (signal_id text payload))))

  handle_raw-seen_ids :
      (P : List (String × String) → Type 0) (now : ℕ) (message : Frame V) (c : SignalConsumer F R)
      → P c.seen_ids
      → ((f j : String) → P (remember f j c.seen_ids))
      → P (handle_raw text from_dict own_broker max_age now message c).seen_ids
  unfolding handle_raw handle_payload counted mark_received
  handle_raw-seen_ids P now broken c h k = h
  handle_raw-seen_ids P now not_a_dict c h k = h
  handle_raw-seen_ids P now (frame event none) c h k = h
  handle_raw-seen_ids P now (frame event (some payload)) c h k =
      if_holds (λ (c' : SignalConsumer F R). P c'.seen_ids) (event == "") _ _ (λ _. h)
        (λ _.
          if_holds (λ (c' : SignalConsumer F R). P c'.seen_ids)
            (is_lifecycle event || not (is_valid_signal_dict payload)) _ _ (λ _. h)
            (λ _.
              if_holds (λ (c' : SignalConsumer F R). P c'.seen_ids)
                (is_other_broker own_broker (to_lower (strip (text_at text payload "broker")))) _ _
                (λ _. h) (λ _. process-seen_ids P now event payload _ h k)))

  handle_all-IsRecent :
      (event id : String) (n : ℕ) (messages : List (ℕ × Frame V)) (c : SignalConsumer F R)
      → n + length messages < seen_ids_max
      → IsRecent event id n c.seen_ids
      → IsRecent event id
          (n + length messages)
          (handle_all text from_dict own_broker max_age messages c).seen_ids
  handle_all-IsRecent event id n [] c room h = (h.0, h.1, h.2, omega (arith, h.3))
  handle_all-IsRecent event id n ((now, message) ∷ messages) c room h =
      let next =
        handle_raw-seen_ids (IsRecent event id (n + 1)) now message c
          (IsRecent-more event id n c.seen_ids h)
          (λ f j. remember-IsRecent event id f j n c.seen_ids (omega (arith, room)) h) in
      let all = handle_all-IsRecent event id (n + 1) messages _ (omega (arith, room)) next in
      (all.0, all.1, all.2, omega (arith, all.3))

  process-first :
      (now : ℕ) (event : String) (payload : Dict String V) (c : SignalConsumer F R)
      → signal_id text payload ≢ ""
      → was_seen event (signal_id text payload) c.seen_ids ≡ false
      → IsRecent event
          (signal_id text payload)
          0
          (process text from_dict own_broker max_age now event payload c).seen_ids
  unfolding process counted
  process-first now event payload c ne new =
      if_holds (λ (c' : SignalConsumer F R). IsRecent event id 0 c'.seen_ids) (id == "") _ _
        (λ x. absurd (ne ((Eq_string.beq_iff id "").0 x)))
        (λ _.
          if_holds (λ (c' : SignalConsumer F R). IsRecent event id 0 c'.seen_ids)
            (was_seen event id c.seen_ids) _ _ (λ k. absurd (ground (arith, k, new)))
            (λ _.
              subst (IsRecent event id 0)
                (sym (on_signal-seen_ids text from_dict own_broker max_age now event _ _))
                (remember-first event id c.seen_ids)))
    where
      id : String
      id = signal_id text payload

  handle_payload-first :
      (now : ℕ) (event : String) (payload : Dict String V) (c : SignalConsumer F R)
      → (is_lifecycle event || not (is_valid_signal_dict payload)) ≡ false
      → is_other_broker own_broker (to_lower (strip (text_at text payload "broker"))) ≡ false
      → signal_id text payload ≢ ""
      → was_seen event (signal_id text payload) c.seen_ids ≡ false
      → IsRecent event
          (signal_id text payload)
          0
          (handle_payload text from_dict own_broker max_age now event payload c).seen_ids
  unfolding handle_payload mark_received
  handle_payload-first now event payload c a o ne new =
      rw a (rw o (process-first now event payload _ ne new))

  -- A message with an id whose key is not remembered yet, and that arrives again after fewer than 10,000
  -- other messages, whatever they are, puts nothing on the bus the second time.
  pub handle_payload-handle_all :
      (now later : ℕ) (event : String) (payload : Dict String V) (messages : List (ℕ × Frame V))
      (c : SignalConsumer F R)
      → signal_id text payload ≢ ""
      → was_seen event (signal_id text payload) c.seen_ids ≡ false
      → length messages < seen_ids_max
      → (handle_payload text from_dict own_broker max_age later event payload (
          handle_all text from_dict own_broker max_age messages
            (handle_payload text from_dict own_broker max_age now event payload c))).emitted
        ≡ (handle_all text from_dict own_broker max_age messages
            (handle_payload text from_dict own_broker max_age now event payload c)).emitted
  handle_payload-handle_all now later event payload messages c ne new room =
      elim (Bool-cases (is_lifecycle event || not (is_valid_signal_dict payload))) [
        | inl x ↦ IsSpent-emitted later event payload _ ne (inl x)
        | inr a ↦
            elim (Bool-cases
              (is_other_broker own_broker (to_lower (strip (text_at text payload "broker"))))) [
                | inl x ↦ IsSpent-emitted later event payload _ ne (inr (inl x))
                | inr o ↦
                    let first = handle_payload-first now event payload c a o ne new in
                    let recent =
                      handle_all-IsRecent event (signal_id text payload) 0 messages _
                        (omega (arith, room)) first in
                    IsSpent-emitted later event payload _ ne
                      (inr (inr (was_seen-IsRecent event _ _ _ recent)))
              ]
      ]
