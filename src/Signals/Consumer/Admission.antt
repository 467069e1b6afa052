-- ===== src/Signals/Consumer/Admission.antt =====
-- What a message puts on the bus.
use bobis_quote_mt5_trading.Prelude.{
  ℕ, String, true, false, ◌||◌, not, if_holds, ◌==◌, Eq_string, ◌≡◌, ◌≢◌, Option-cases, refl, sym,
  ◌∙◌, ap, subst, ◌⊎◌, inl, inr, Option, none, some, List, [], ◌∷◌, ◌++◌, All, arith,
}
use mathlib.Core.List.{append_assoc, append-nil}
use bobis_quote_mt5_trading.Prelude.Dict.{Dict, lookup}
use bobis_quote_mt5_trading.Prelude.Floats.{Floats}
use bobis_quote_mt5_trading.Utils.Text.{strip, to_lower}
use bobis_quote_mt5_trading.Domain.Signal.{InboundSignal}
use bobis_quote_mt5_trading.Signals.Validator.{validate}
use bobis_quote_mt5_trading.Signals.Consumer.{
  Emission, signal_rejected, signal_received, signal_triggered, SignalConsumer, is_lifecycle,
  is_trigger, is_close, is_valid_signal_dict, has_keys, among, was_seen, emit, counted, forward,
  text_at, signal_id, is_other_broker, on_result, on_signal, process, mark_received, handle_payload,
}

module _ {F : Type 0} where
  -- What is on the bus was there before, or satisfies P.
  abbrev pub Adds : (Emission F → Type 0) → (before after : List (Emission F)) → Type 0
  Adds P before after = (new : List (Emission F)) × (after ≡ before ++ new) × All P new

  Adds-none : (P : Emission F → Type 0) (before : List (Emission F)) → Adds P before before
  Adds-none P before = ([], sym (append-nil before), tt)

  Adds-map :
      (P Q : Emission F → Type 0) (before after : List (Emission F))
      → ((e : Emission F) → P e → Q e)
      → Adds P before after
      → Adds Q before after
  Adds-map P Q before after f (new, e, h) = (new, e, all new h)
    where
      all : (es : List (Emission F)) → All P es → All Q es
      all [] h = tt
      all (x ∷ es) h = (f x h.0, all es h.1)

is_trigger-event : (event : String) → is_trigger event ≡ true → event ≡ "signal.triggered"
unfolding is_trigger among
is_trigger-event event h = ground (arith, h, Eq_string.beq_iff event "signal.triggered")

-- The events of the connection, which are no signals.
abbrev pub IsOfSignal : String → Type 0
IsOfSignal event = (event ≢ "connected") × (event ≢ "subscribed") × (event ≢ "unsubscribed")

is_lifecycle-IsOfSignal : (event : String) → is_lifecycle event ≡ false → IsOfSignal event
unfolding is_lifecycle among
is_lifecycle-IsOfSignal event h = (
  ground (arith, h, Eq_string.beq_iff event "connected"),
  ground (arith, h, Eq_string.beq_iff event "subscribed"),
  ground (arith, h, Eq_string.beq_iff event "unsubscribed"),
)

-- Every key of the list has a value.
abbrev pub Has : {V : Type 0} → List String → Dict String V → Type 0
Has {V} keys d = All (λ k. (v : V) × (lookup k d ≡ some v)) keys

has_keys-Has :
    {V : Type 0} → (keys : List String) (d : Dict String V) → has_keys keys d ≡ true → Has keys d
unfolding has_keys
has_keys-Has [] d h = tt
has_keys-Has (k ∷ ks) d h = elim (Option-cases (lookup k d)) [
  | inl absent ↦ ground (arith, h, absent)
  | inr (v, there) ↦ ((v, there), has_keys-Has ks d (ground (arith, h, there)))
]

abbrev pub IsComplete : {V : Type 0} → Dict String V → Type 0
IsComplete d =
    Has
      ("id" ∷ "symbol" ∷ "direction" ∷ "status" ∷ "entryPrice" ∷ "stopLoss" ∷ "tp1" ∷ "tp2"
        ∷ "riskRewardRatio" ∷ "htfRange" ∷ "rejectionCandle" ∷ [])
      d

is_valid_signal_dict-IsComplete :
    {V : Type 0} → (d : Dict String V) → is_valid_signal_dict d ≡ true → IsComplete d
unfolding is_valid_signal_dict
is_valid_signal_dict-IsComplete d h = has_keys-Has _ d h

-- The brokers are the same, or one of them is not known.
abbrev pub IsOwn : (own broker : String) → Type 0
IsOwn own broker = (own ≡ "") ⊎ ((broker ≡ "") ⊎ (broker ≡ own))

is_other_broker-IsOwn :
    (own broker : String) → is_other_broker own broker ≡ false → IsOwn own broker
unfolding is_other_broker
is_other_broker-IsOwn own broker h =
    ground (
      arith,
      h,
      Eq_string.beq_iff own "",
      Eq_string.beq_iff broker "",
      Eq_string.beq_iff broker own,
    )

-- None of the keys is that of the message.
abbrev pub IsNew : (event id : String) → List (String × String) → Type 0
IsNew event id seen = All (λ k. k.0 ≡ event → k.1 ≢ id) seen

was_seen-IsNew :
    (event id : String) (seen : List (String × String))
    → was_seen event id seen ≡ false
    → IsNew event id seen
unfolding was_seen
was_seen-IsNew event id [] h = tt
was_seen-IsNew event id ((e, i) ∷ seen) h = (
  λ a b. ground (arith, h, a, b, Eq_string.beq_iff e event, Eq_string.beq_iff i id),
  was_seen-IsNew event id seen (ground (arith, h)),
)

module _ {F R : Type 0} where
  forward-Adds :
      (P : Emission F → Type 0) (event : String) (signal : InboundSignal F) (c : SignalConsumer F R)
      → P (signal_received event signal)
      → (is_trigger event ≡ true → P (signal_triggered signal))
      → Adds P c.emitted (forward event signal c).emitted
  unfolding forward emit counted
  forward-Adds P event signal c h k =
      if_holds (λ (c' : SignalConsumer F R). Adds P c.emitted c'.emitted) (is_trigger event) _ _
        (λ e. (
          signal_received event signal ∷ signal_triggered signal ∷ [],
          append_assoc c.emitted _ _,
          (h, (k e, tt)),
        ))
        (λ _.
          if_holds (λ (c' : SignalConsumer F R). Adds P c.emitted c'.emitted) (is_close event) _ _
            (λ _. (signal_received event signal ∷ [], refl, (h, tt)))
            (λ _. (signal_received event signal ∷ [], refl, (h, tt))))

module _ {F V : Type 0} ⦃fl : Floats F⦄
    (from_dict : (now : ℕ) → Dict String V → Option (InboundSignal F)) (max_age now : ℕ) where
  -- The emission is about the signal of the message, as the validator judges it; a signal that triggers
  -- is of the event that triggers.
  abbrev pub Reports : (event : String) → Dict String V → Emission F → Type 0
  Reports event payload (signal_rejected signal errors) =
      (from_dict now payload ≡ some signal)
      × ((validate max_age now signal).valid ≡ false)
      × (errors ≡ (validate max_age now signal).errors)
  Reports event payload (signal_received e signal) =
      (from_dict now payload ≡ some signal)
      × ((validate max_age now signal).valid ≡ true)
      × (e ≡ event)
  Reports event payload (signal_triggered signal) =
      (from_dict now payload ≡ some signal)
      × ((validate max_age now signal).valid ≡ true)
      × (event ≡ "signal.triggered")

module _ {F R V : Type 0} ⦃fl : Floats F⦄ (text : V → String)
    (from_dict : (now : ℕ) → Dict String V → Option (InboundSignal F)) (own_broker : String)
    (max_age now : ℕ) where
  -- The message passed the tests of the consumer, the state before it being `c`.
  abbrev pub Passes : (event : String) → Dict String V → SignalConsumer F R → Type 0
  Passes event payload c =
      (is_lifecycle event ≡ false)
      × (is_valid_signal_dict payload ≡ true)
      × (is_other_broker own_broker (to_lower (strip (text_at text payload "broker"))) ≡ false)
      × ((signal_id text payload ≡ "")
          ⊎ (was_seen event (signal_id text payload) c.seen_ids ≡ false))

  module _ (event : String) (payload : Dict String V) (c : SignalConsumer F R) where
    abbrev IsPassed : Emission F → Type 0
    IsPassed e = Passes event payload c × Reports from_dict max_age now event payload e

    -- What holds of a message that puts something on the bus, the state before it being `c`.
    abbrev pub IsAdmitted : Emission F → Type 0
    IsAdmitted e =
        IsOfSignal event
        × IsComplete payload
        × IsOwn own_broker (to_lower (strip (text_at text payload "broker")))
        × ((signal_id text payload ≡ "") ⊎ IsNew event (signal_id text payload) c.seen_ids)
        × Reports from_dict max_age now event payload e

    IsPassed-IsAdmitted : (e : Emission F) → IsPassed e → IsAdmitted e
    IsPassed-IsAdmitted e (p, r) = (
      is_lifecycle-IsOfSignal event p.0,
      is_valid_signal_dict-IsComplete payload p.1,
      is_other_broker-IsOwn own_broker _ p.2,
      elim p.3 [ inl a ↦ inl a | inr b ↦ inr (was_seen-IsNew event _ c.seen_ids b) ],
      r,
    )

    on_signal-Adds :
        (parsed : Option (InboundSignal F)) (c' : SignalConsumer F R)
        → Passes event payload c
        → from_dict now payload ≡ parsed
        → c'.emitted ≡ c.emitted
        → Adds IsPassed c.emitted
            (on_signal text from_dict own_broker max_age now event parsed c').emitted
    unfolding on_signal on_result emit counted
    on_signal-Adds none c' h p e = ([], e ∙ sym (append-nil c.emitted), tt)
    on_signal-Adds (some signal) c' h p e =
        if_holds (λ (c2 : SignalConsumer F R). Adds IsPassed c.emitted c2.emitted)
          (validate max_age now signal).valid _ _
          (λ v.
            subst (λ (old : List (Emission F)). Adds IsPassed old (forward event signal c').emitted)
              e
              (forward-Adds IsPassed event signal c' (h, (p, v, refl))
                (λ t. (h, (p, v, is_trigger-event event t)))))
          (λ v. (
            signal_rejected signal (validate max_age now signal).errors ∷ [],
            ap
                (λ (old : List (Emission F)).
                  old ++ signal_rejected signal (validate max_age now signal).errors ∷ [])
                e,
            ((h, (p, v, refl)), tt),
          ))

    process-Adds :
        is_lifecycle event ≡ false
        → is_valid_signal_dict payload ≡ true
        → is_other_broker own_broker (to_lower (strip (text_at text payload "broker"))) ≡ false
        → (c' : SignalConsumer F R) → c'.emitted ≡ c.emitted
        → c'.seen_ids ≡ c.seen_ids
        → Adds IsPassed c.emitted
            (process text from_dict own_broker max_age now event payload c').emitted
    unfolding process counted
    process-Adds h k l c' e i =
        if_holds (λ (c2 : SignalConsumer F R). Adds IsPassed c.emitted c2.emitted)
          (signal_id text payload == "") _ _
          (λ x. on_signal-Adds _ c' (h, k, l, inl ((Eq_string.beq_iff _ "").0 x)) refl e)
          (λ _.
            if_holds (λ (c2 : SignalConsumer F R). Adds IsPassed c.emitted c2.emitted)
              (was_seen event (signal_id text payload) c'.seen_ids) _ _
              (λ _. ([], e ∙ sym (append-nil c.emitted), tt))
              (λ x.
                on_signal-Adds _ _
                  (h, k, l, inr (ap (was_seen event (signal_id text payload)) (sym i) ∙ x)) refl e))

    handle_payload-IsPassed :
        Adds IsPassed c.emitted
          (handle_payload text from_dict own_broker max_age now event payload c).emitted
    unfolding handle_payload counted mark_received
    handle_payload-IsPassed =
        if_holds (λ (c2 : SignalConsumer F R). Adds IsPassed c.emitted c2.emitted)
          (is_lifecycle event || not (is_valid_signal_dict payload)) _ _
          (λ _. Adds-none IsPassed c.emitted)
          (λ x.
            if_holds (λ (c2 : SignalConsumer F R). Adds IsPassed c.emitted c2.emitted)
              (is_other_broker own_broker (to_lower (strip (text_at text payload "broker")))) _ _
              (λ _. Adds-none IsPassed c.emitted)
              (λ l. process-Adds (ground (arith, x)) (ground (arith, x)) l _ refl refl))

    -- What a message puts on the bus is about the signal that it holds: rejected with the errors of the
    -- validator, or received and, only for the event signal.triggered, triggered, where the validator
    -- finds the signal valid. Only a message adds anything that has all eleven required keys, whose event
    -- is not of the connection, whose broker is the own one unless one of the two is not given, and
    -- whose event and id, if it has an id, are not among the remembered ones.
    pub handle_payload-Adds :
        Adds IsAdmitted c.emitted
          (handle_payload text from_dict own_broker max_age now event payload c).emitted
    handle_payload-Adds =
        Adds-map IsPassed IsAdmitted c.emitted _ IsPassed-IsAdmitted handle_payload-IsPassed
