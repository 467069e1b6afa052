-- ===== src/Examples/ConsumerRuns.antt =====
-- Messages whose values are texts, all about the sample signal.
use bobis_quote_mt5_trading.Prelude.{
  ℕ, String, Option, some, List, [], ◌∷◌, ◌≡◌, ◌≢◌, refl, length, arith, Eq_string,
}
use bobis_quote_mt5_trading.Prelude.Dict.{Dict, lookup, lookup_or, insert}
use bobis_quote_mt5_trading.Utils.Text.{to_lower, strip, strip_start, strip_end}
use bobis_quote_mt5_trading.Infra.Metrics.{increment, set_gauge}
use bobis_quote_mt5_trading.Signals.Validator.{
  freshness_checks, ladder_checks, price_checks, raised, reference_ms, shape_checks, validate,
}
use bobis_quote_mt5_trading.Domain.Signal.{InboundSignal}
use bobis_quote_mt5_trading.Signals.Consumer.{
  Frame, broken, frame, SignalConsumer, handle_payload, signal_id, text_at, handle_raw,
  is_lifecycle, among, is_valid_signal_dict, has_keys, is_other_broker, process, was_seen,
  mark_received, counted, emit, forward, is_close, is_trigger, on_result, on_signal, remember,
}
use bobis_quote_mt5_trading.Signals.Consumer.Admission.{Adds, IsAdmitted, handle_payload-Adds}
use bobis_quote_mt5_trading.Signals.Consumer.Seen.{IsBounded, handle_all, handle_all-IsBounded}
use bobis_quote_mt5_trading.Signals.Consumer.Repeat.{handle_payload-handle_all}
use bobis_quote_mt5_trading.Examples.Fixed.{Fixed, floats}
use bobis_quote_mt5_trading.Examples.Samples.{signal}

abbrev payload : Dict String String
payload =
    ("id", "sig-1")
    ∷ ("symbol", "EURUSD")
    ∷ ("direction", "LONG")
    ∷ ("status", "TRIGGERED")
    ∷ ("entryPrice", "1.1")
    ∷ ("stopLoss", "1")
    ∷ ("tp1", "1.2")
    ∷ ("tp2", "1.4")
    ∷ ("riskRewardRatio", "3")
    ∷ ("htfRange", "-")
    ∷ ("rejectionCandle", "-")
    ∷ ("broker", " FBS ")
    ∷ []

abbrev text : String → String
text v = v

abbrev from_dict : (now : ℕ) → Dict String String → Option (InboundSignal Fixed)
from_dict now d = some signal

abbrev fresh : SignalConsumer Fixed String
fresh = record {
  seen_ids = [];
  metrics = record { counters = []; gauges = []; rejections = [] };
  emitted = [];
}

abbrev messages : List (ℕ × Frame String)
messages =
    (10, frame "signal.triggered" (some payload))
    ∷ (20, broken)
    ∷ (30, frame "signal.triggered" (some payload))
    ∷ (40, frame "signal.tp1_hit" (some payload))
    ∷ []

-- The message arrives twice, and is received and triggered once; the close event is received.
emitted_once : length (handle_all text from_dict "fbs" 90_000 messages fresh).emitted ≡ 3
unfolding handle_raw handle_payload is_lifecycle among is_valid_signal_dict has_keys lookup
    is_other_broker to_lower strip strip_start strip_end text_at process signal_id was_seen
    mark_received increment set_gauge insert lookup_or counted emit forward is_close is_trigger
    on_result on_signal remember freshness_checks ladder_checks price_checks raised reference_ms
    shape_checks validate
emitted_once = refl

handle_payload-Adds_example :
    Adds
      (IsAdmitted text from_dict "fbs" 90_000 10 "signal.triggered" payload fresh)
      []
      (handle_payload text from_dict "fbs" 90_000 10 "signal.triggered" payload fresh).emitted
handle_payload-Adds_example =
    handle_payload-Adds text from_dict "fbs" 90_000 10 "signal.triggered" payload fresh

handle_all-IsBounded_example :
    IsBounded (handle_all text from_dict "fbs" 90_000 messages fresh).seen_ids
handle_all-IsBounded_example =
    handle_all-IsBounded text from_dict "fbs" 90_000 messages fresh (omega arith)

id_of_payload : signal_id text payload ≡ "sig-1"
unfolding signal_id text_at lookup
id_of_payload = refl

has_id : signal_id text payload ≢ ""
has_id h = ground (arith, id_of_payload, h, Eq_string.beq_iff "sig-1" "")

handle_payload-handle_all_example :
    (handle_payload text from_dict "fbs" 90_000 50 "signal.triggered" payload (
      handle_all text from_dict "fbs" 90_000 messages
        (handle_payload text from_dict "fbs" 90_000 5 "signal.triggered" payload fresh))).emitted
    ≡ (handle_all text from_dict "fbs" 90_000 messages
        (handle_payload text from_dict "fbs" 90_000 5 "signal.triggered" payload fresh)).emitted
unfolding was_seen
handle_payload-handle_all_example =
    handle_payload-handle_all text from_dict "fbs" 90_000 5 50 "signal.triggered" payload messages
      fresh has_id refl (omega arith)
