-- ===== src/Signals/Consumer/Seen.antt =====
-- What the consumer remembers of the messages it has seen.
use bobis_quote_mt5_trading.Prelude.{
  ℕ, ◌≤◌, String, false, ◌&&◌, ◌||◌, not, leb, if_holds, ◌==◌, Eq_string, ◌≡◌, refl, sym, subst,
  Option, none, some, List, [], ◌∷◌, ◌++◌, length, length-append, length-drop, drop, arith,
}
use bobis_quote_mt5_trading.Prelude.Dict.{Dict}
use bobis_quote_mt5_trading.Prelude.Floats.{Floats}
use bobis_quote_mt5_trading.Utils.Text.{strip, to_lower}
use bobis_quote_mt5_trading.Domain.Signal.{InboundSignal}
use bobis_quote_mt5_trading.Signals.Validator.{validate}
use bobis_quote_mt5_trading.Signals.Consumer.{
  Frame, broken, not_a_dict, frame, SignalConsumer, seen_ids_max, is_lifecycle, is_trigger,
  is_close, is_valid_signal_dict, was_seen, remember, emit, counted, forward, text_at, signal_id,
  is_other_broker, on_result, on_signal, process, mark_received, handle_payload, handle_raw,
}

-- No key stands in the list twice.
abbrev pub HasNoRepeats : List (String × String) → Type 0
HasNoRepeats [] = Unit
HasNoRepeats ((e, i) ∷ seen) = (was_seen e i seen ≡ false) × HasNoRepeats seen

abbrev pub IsBounded : List (String × String) → Type 0
IsBounded seen = (length seen ≤ seen_ids_max) × HasNoRepeats seen

was_seen-append :
    (e i f j : String) (seen : List (String × String))
    → was_seen e i (seen ++ (f, j) ∷ []) ≡ (was_seen e i seen || (f == e && j == i))
unfolding was_seen
was_seen-append e i f j [] = ground arith
was_seen-append e i f j ((g, k) ∷ seen) = ground (arith, was_seen-append e i f j seen)

HasNoRepeats-append :
    (e i : String) (seen : List (String × String))
    → HasNoRepeats seen
    → was_seen e i seen ≡ false
    → HasNoRepeats (seen ++ (e, i) ∷ [])
unfolding was_seen
HasNoRepeats-append e i [] h k = (refl, tt)
HasNoRepeats-append e i ((g, j) ∷ seen) h k =
    let ih = HasNoRepeats-append e i seen h.1 (ground (arith, k)) in
    (
      ground (
        arith,
        was_seen-append g j e i seen,
        h.0,
        k,
        Eq_string.beq_iff g e,
        Eq_string.beq_iff e g,
        Eq_string.beq_iff j i,
        Eq_string.beq_iff i j,
      ),
      ih,
    )

was_seen-drop :
    (e i : String) (seen : List (String × String))
    → was_seen e i seen ≡ false
    → was_seen e i (drop 1 seen) ≡ false
unfolding was_seen
was_seen-drop e i [] h = h
was_seen-drop e i (_ ∷ seen) h = ground (arith, h)

HasNoRepeats-drop : (seen : List (String × String)) → HasNoRepeats seen → HasNoRepeats (drop 1 seen)
HasNoRepeats-drop [] h = h
HasNoRepeats-drop (_ ∷ seen) h = h.1

remember-IsBounded :
    (e i : String) (seen : List (String × String))
    → IsBounded seen
    → was_seen e i seen ≡ false
    → IsBounded (remember e i seen)
unfolding remember
remember-IsBounded e i seen h k =
    if_holds IsBounded (leb seen_ids_max (length seen)) _ _
      (λ x. (
        omega (arith, h.0, length-append (drop 1 seen) ((e, i) ∷ []), length-drop 1 seen),
        HasNoRepeats-append e i (drop 1 seen) (HasNoRepeats-drop seen h.1)
            (was_seen-drop e i seen k),
      ))
      (λ x.
        (ground (arith, x, length-append seen ((e, i) ∷ [])), HasNoRepeats-append e i seen h.1 k))

module _ {F R V : Type 0} ⦃fl : Floats F⦄ (text : V → String)
    (from_dict : (now : ℕ) → Dict String V → Option (InboundSignal F)) (own_broker : String)
    (max_age : ℕ) where
  forward-seen_ids :
      (event : String) (signal : InboundSignal F) (c : SignalConsumer F R)
      → (forward event signal c).seen_ids ≡ c.seen_ids
  unfolding forward emit counted
  forward-seen_ids event signal c =
      if_holds (λ (c' : SignalConsumer F R). c'.seen_ids ≡ c.seen_ids) (is_trigger event) _ _
        (λ _. refl)
        (λ _.
          if_holds (λ (c' : SignalConsumer F R). c'.seen_ids ≡ c.seen_ids) (is_close event) _ _
            (λ _. refl) (λ _. refl))

  pub on_signal-seen_ids :
      (now : ℕ) (event : String) (parsed : Option (InboundSignal F)) (c : SignalConsumer F R)
      → (on_signal text from_dict own_broker max_age now event parsed c).seen_ids ≡ c.seen_ids
  unfolding on_signal on_result emit counted
  on_signal-seen_ids now event none c = refl
  on_signal-seen_ids now event (some signal) c =
      if_holds (λ (c' : SignalConsumer F R). c'.seen_ids ≡ c.seen_ids)
        (validate max_age now signal).valid _ _ (λ _. forward-seen_ids event signal c) (λ _. refl)

  process-IsBounded :
      (now : ℕ) (event : String) (payload : Dict String V) (c : SignalConsumer F R)
      → IsBounded c.seen_ids
      → IsBounded (process text from_dict own_broker max_age now event payload c).seen_ids
  unfolding process counted
  process-IsBounded now event payload c h =
      if_holds (λ (c' : SignalConsumer F R). IsBounded c'.seen_ids) (signal_id text payload == "") _
        _ (λ _. subst IsBounded (sym (on_signal-seen_ids now event _ c)) h)
        (λ _.
          if_holds (λ (c' : SignalConsumer F R). IsBounded c'.seen_ids)
            (was_seen event (signal_id text payload) c.seen_ids) _ _ (λ _. h)
            (λ k.
              subst IsBounded (sym (on_signal-seen_ids now event _ _))
                (remember-IsBounded event (signal_id text payload) c.seen_ids h k)))

  handle_payload-IsBounded :
      (now : ℕ) (event : String) (payload : Dict String V) (c : SignalConsumer F R)
      → IsBounded c.seen_ids
      → IsBounded (handle_payload text from_dict own_broker max_age now event payload c).seen_ids
  unfolding handle_payload counted mark_received
  handle_payload-IsBounded now event payload c h =
      if_holds (λ (c' : SignalConsumer F R). IsBounded c'.seen_ids)
        (is_lifecycle event || not (is_valid_signal_dict payload)) _ _ (λ _. h)
        (λ _.
          if_holds (λ (c' : SignalConsumer F R). IsBounded c'.seen_ids)
            (is_other_broker own_broker (to_lower (strip (text_at text payload "broker")))) _ _
            (λ _. h) (λ _. process-IsBounded now event payload _ h))

  handle_raw-IsBounded :
      (now : ℕ) (message : Frame V) (c : SignalConsumer F R)
      → IsBounded c.seen_ids
      → IsBounded (handle_raw text from_dict own_broker max_age now message c).seen_ids
  unfolding handle_raw counted
  handle_raw-IsBounded now broken c h = h
  handle_raw-IsBounded now not_a_dict c h = h
  handle_raw-IsBounded now (frame event none) c h = h
  handle_raw-IsBounded now (frame event (some payload)) c h =
      if_holds (λ (c' : SignalConsumer F R). IsBounded c'.seen_ids) (event == "") _ _ (λ _. h)
        (λ _. handle_payload-IsBounded now event payload c h)

  -- Messages one after the other, each at its time.
  abbrev pub handle_all : List (ℕ × Frame V) → SignalConsumer F R → SignalConsumer F R
  handle_all [] c = c
  handle_all ((now, message) ∷ messages) c =
      handle_all messages (handle_raw text from_dict own_broker max_age now message c)

  -- Whatever messages arrive, the consumer remembers at most 10,000 keys of event and id, none of them
  -- twice, if that is so at the start.
  pub handle_all-IsBounded :
      (messages : List (ℕ × Frame V)) (c : SignalConsumer F R)
      → IsBounded c.seen_ids
      → IsBounded (handle_all messages c).seen_ids
  handle_all-IsBounded [] c h = h
  handle_all-IsBounded ((now, message) ∷ messages) c h =
      handle_all-IsBounded messages _ (handle_raw-IsBounded now message c h)
