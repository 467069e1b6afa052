-- ===== src/Signals/Consumer.antt =====
-- src/signals/consumer.py and signal_types.py: from a raw message to the events on the bus. json.loads
-- and InboundSignal.from_dict are arguments. A payload is a dict of values `V`; `text` gives the text of
-- a value that counts as true, and the empty text of one that does not. The event of a message is a
-- text, and a field has the type that the dataclass declares. The events that are emitted stand in the
-- state, the latest last. Starting, stopping and subscribing are calls of the socket and are left out.
pub mod Admission
pub mod Seen
pub mod Repeat
use Prim.Native.String.{◌++◌ as append}
use bobis_quote_mt5_trading.Prelude.{
  ℕ, String, Bool, true, false, ◌&&◌, ◌||◌, not, leb, if◌then◌else◌, Option, none, some, List, [],
  ◌∷◌, ◌++◌, length, drop, ◌==◌, Eq_string,
}
use bobis_quote_mt5_trading.Prelude.Dict.{Dict, lookup}
use bobis_quote_mt5_trading.Prelude.Floats.{Floats, num}
use bobis_quote_mt5_trading.Utils.Text.{strip, to_lower}
use bobis_quote_mt5_trading.Infra.Metrics.{Metrics, increment, set_gauge}
use bobis_quote_mt5_trading.Domain.Signal.{InboundSignal}
use bobis_quote_mt5_trading.Signals.Validator.{ValidationError, ValidationResult, validate}

abbrev pub seen_ids_max : ℕ
seen_ids_max = 10_000

-- What json.loads gives, with the default of a key that is missing: a payload that is no dict is `none`.
pub data Frame (V : Type 0) : Type 0 where
  broken not_a_dict : Frame V
  frame : (event : String) (payload : Option (Dict String V)) → Frame V

-- What is emitted on the event bus.
pub data Emission (F : Type 0) : Type 0 where
  signal_rejected : InboundSignal F → List ValidationError → Emission F
  signal_received : (event : String) → InboundSignal F → Emission F
  signal_triggered : InboundSignal F → Emission F

pub record SignalConsumer (F R : Type 0) : Type 0 where
  pub seen_ids : List (String × String)
  pub metrics : Metrics F R
  pub emitted : List (Emission F)

unfoldable pub among : String → List String → Bool
among x [] = false
among x (y ∷ ys) = let rest = among x ys in x == y || rest

unfoldable pub is_lifecycle : String → Bool
is_lifecycle event = among event ("connected" ∷ "subscribed" ∷ "unsubscribed" ∷ [])

unfoldable pub is_trigger : String → Bool
is_trigger event = among event ("signal.triggered" ∷ [])

unfoldable pub is_close : String → Bool
is_close event = among event (
    "signal.tp1_hit" ∷ "signal.tp2_hit" ∷ "signal.sl_hit" ∷ "signal.invalidated" ∷ "signal.expired"
    ∷ [])

abbrev required_keys : List String
required_keys =
    "id" ∷ "symbol" ∷ "direction" ∷ "status" ∷ "entryPrice" ∷ "stopLoss" ∷ "tp1" ∷ "tp2"
    ∷ "riskRewardRatio" ∷ "htfRange" ∷ "rejectionCandle" ∷ []

unfoldable pub has_keys : {V : Type 0} → List String → Dict String V → Bool
has_keys [] d = true
has_keys (k ∷ ks) d = elim (lookup k d) [ none ↦ false | some _ ↦ has_keys ks d ]

unfoldable pub is_valid_signal_dict : {V : Type 0} → Dict String V → Bool
is_valid_signal_dict d = has_keys required_keys d

unfoldable pub was_seen : (event id : String) → List (String × String) → Bool
was_seen event id [] = false
was_seen event id ((e, i) ∷ seen) =
    let rest = was_seen event id seen in (e == event && i == id) || rest

-- At the limit the oldest key goes, then the new one is added.
unfoldable pub remember : (event id : String) → List (String × String) → List (String × String)
remember event id seen =
    if leb seen_ids_max (length seen)
    then drop 1 seen ++ (event, id) ∷ []
    else seen ++ (event, id) ∷ []

module _ {F R : Type 0} where
  unfoldable pub emit : Emission F → SignalConsumer F R → SignalConsumer F R
  emit e c = record c { emitted = c.emitted ++ e ∷ [] }

  unfoldable pub counted : String → SignalConsumer F R → SignalConsumer F R
  counted name c = record c { metrics = increment name 1 c.metrics }

  -- A valid signal: it is received, and one that triggers goes on to be executed.
  unfoldable pub forward :
      (event : String) → InboundSignal F → SignalConsumer F R → SignalConsumer F R
  forward event signal c =
      let c' = emit (signal_received event signal) c in
      if is_trigger event
      then emit (signal_triggered signal) (counted "signal.triggered" c')
      else if is_close event
      then counted (append "signal.close." event) c'
      else c'

-- payload.get(a) or payload.get(b) or "", as text
unfoldable pub text_at : {V : Type 0} → (V → String) → Dict String V → String → String
text_at text payload key = elim (lookup key payload) [ none ↦ "" | some v ↦ text v ]

unfoldable pub signal_id : {V : Type 0} → (V → String) → Dict String V → String
signal_id text payload =
    let id = text_at text payload "id" in if id == "" then text_at text payload "signal_id" else id

-- Both brokers are known, and they differ.
unfoldable pub is_other_broker : (own signal_broker : String) → Bool
is_other_broker own signal_broker =
    not (own == "") && not (signal_broker == "") && not (signal_broker == own)

module _ {F R V : Type 0} ⦃fl : Floats F⦄ (text : V → String)
    (from_dict : (now : ℕ) → Dict String V → Option (InboundSignal F)) (own_broker : String)
    (max_age now : ℕ) where
  unfoldable pub on_result :
      (event : String)
      → InboundSignal F
      → ValidationResult
      → SignalConsumer F R
      → SignalConsumer F R
  on_result event signal result c =
      if result.valid
      then forward event signal c
      else emit (signal_rejected signal result.errors) (counted "signal.validation_failures" c)

  unfoldable pub on_signal :
      (event : String) → Option (InboundSignal F) → SignalConsumer F R → SignalConsumer F R
  on_signal event none c = counted "signal.deserialise_errors" c
  on_signal event (some signal) c = on_result event signal (validate max_age now signal) c

  -- A message without an id is never taken for a duplicate.
  unfoldable pub process :
      (event : String) → Dict String V → SignalConsumer F R → SignalConsumer F R
  process event payload c =
      let id = signal_id text payload in
      if id == ""
      then on_signal event (from_dict now payload) c
      else if was_seen event id c.seen_ids
      then counted "signal.duplicate_dropped" c
      else on_signal event (from_dict now payload)
          (record c { seen_ids = remember event id c.seen_ids })

  unfoldable pub mark_received : (event : String) → SignalConsumer F R → SignalConsumer F R
  mark_received event c = record c {
    metrics =
        set_gauge "signals.last_received_at" (num now)
          (increment (append "signal.received." event) 1 c.metrics);
  }

  unfoldable pub handle_payload :
      (event : String) → Dict String V → SignalConsumer F R → SignalConsumer F R
  handle_payload event payload c =
      if is_lifecycle event || not (is_valid_signal_dict payload)
      then c
      else if is_other_broker own_broker (to_lower (strip (text_at text payload "broker")))
      then counted "signal.wrong_broker_dropped" c
      else process event payload (mark_received event c)

  unfoldable pub handle_raw : Frame V → SignalConsumer F R → SignalConsumer F R
  handle_raw broken c = counted "signal.parse_errors" c
  handle_raw not_a_dict c = c
  handle_raw (frame event none) c = c
  handle_raw (frame event (some payload)) c =
      if event == "" then c else handle_payload event payload c
