-- ===== src/Examples/OtherRuns.antt =====
-- The properties of the throttle, the store, the cascade, the queue, the metrics and the symbols.
use bobis_quote_mt5_trading.Prelude.{
  ℕ, String, ◌+◌, ◌≤◌, ◌≡◌, ◌≢◌, ◌↔◌, ◌⊎◌, inl, inr, refl, Bool, true, false, Option, none, some,
  List, [], ◌∷◌, arith, length, keep, ◌==◌, if◌then◌else◌, Eq_string,
}
use bobis_quote_mt5_trading.Prelude.Floats.{num, decimal, sub}
use bobis_quote_mt5_trading.Infra.Metrics.{Metrics}
use bobis_quote_mt5_trading.Domain.Trade.{Trade, closed}
use bobis_quote_mt5_trading.Domain.Signal.{InboundSignal}
use bobis_quote_mt5_trading.Positions.Store.{Store, status, get}
use bobis_quote_mt5_trading.Positions.Store.Laws.{
  added, updated, discarded, apply_all, apply_map_all, get-apply_all,
}
use bobis_quote_mt5_trading.Positions.SlCascade.{cascade_sl_to_stacked_position}
use bobis_quote_mt5_trading.Positions.SlCascade.Favor.{
  IsMoved, cascade_sl_to_stacked_position-IsMoved,
}
use bobis_quote_mt5_trading.Risk.EquityThrottle.{EquityThrottle}
use bobis_quote_mt5_trading.Risk.EquityThrottle.Contribution.{Row}
use bobis_quote_mt5_trading.Signals.Validator.{
  validate, stale, raised, price_checks, ladder_checks, shape_checks, freshness_checks,
  reference_ms,
}
use bobis_quote_mt5_trading.Signals.Validator.Sound.{IsLadder, IsShaped, IsFresh, validate-IsSound}
use bobis_quote_mt5_trading.Signals.Queue
use bobis_quote_mt5_trading.Signals.Queue.{
  SignalQueue, Worker, holding, put, stop, start, pause, worker_step, work, take_item,
}
use bobis_quote_mt5_trading.Signals.Queue.Order.{
  Reach, here, then_step, puts, works, stops, pauses, starts, IsOrderly, Reach-IsOrderly,
}
use bobis_quote_mt5_trading.Signals.Queue.Leak.{put_after_leak}
use bobis_quote_mt5_trading.Examples.Fixed.{Fixed, floats, floats-IsOrdered}
use bobis_quote_mt5_trading.Examples.Samples.{signal, trade, second_trade, throttle}

abbrev texts : Metrics Fixed String
texts = record { counters = []; gauges = []; rejections = "a" ∷ [] }

-- One trade is opened, closed and removed.
get-apply_all_example :
    get "t-0"
      (apply_all (added trade ∷ updated 9 "t-0" (status closed ∷ []) ∷ discarded "t-1" ∷ []) [])
    ≡ apply_map_all
        (added trade ∷ updated 9 "t-0" (status closed ∷ []) ∷ discarded "t-1" ∷ [])
        (λ i. get i [])
        "t-0"
get-apply_all_example =
    get-apply_all (added trade ∷ updated 9 "t-0" (status closed ∷ []) ∷ discarded "t-1" ∷ []) []
      "t-0"

abbrev loss_row : Row Fixed
loss_row = record {
  realized_rr = some (sub (num 0) (num 1));
  closed_at = some 20;
  plan = record {
    risk_multiplier = some (num 1);
    entry_price = some (num 1);
    stop_loss = some (decimal 9 1);
  };
  entry_lots = some (num 1);
  current_lots = some (num 1);
  tp1_hit = false;
  side = some "BUY";
  entry_price = some (num 1);
  close_price = some (decimal 9 1);
  tp1 = some (decimal 11 1);
}

abbrev win_row : Row Fixed
win_row = record loss_row {
  realized_rr = some (num 2);
  closed_at = some 10;
  close_price = some (decimal 12 1);
}

abbrev book : Store Fixed
book = ("t-0", trade) ∷ ("t-1", second_trade) ∷ []

-- A broker that counts the calls and accepts each.
abbrev accepts : ℕ → ℕ → Fixed → Fixed → Bool × ℕ
accepts b ticket sl tp = (true, b + 1)

cascade_example :
    (t : Trade Fixed) × (get "t-0"
        (cascade_sl_to_stacked_position accepts 9 second_trade (book, 0)).0
      ≡ some t)
    × IsMoved 9 second_trade trade t
unfolding get bobis_quote_mt5_trading.Prelude.Dict.lookup
cascade_example =
    cascade_sl_to_stacked_position-IsMoved accepts 9 second_trade trade "t-0" book 0
      (refl, (refl, tt)) refl

validate-IsSound_example :
    ((validate 90_000 60_000 signal).valid ≡ true)
    ↔ (IsLadder signal.direction signal × IsShaped signal × IsFresh 90_000 60_000 signal)
validate-IsSound_example = validate-IsSound floats-IsOrdered 90_000 60_000 signal

-- The signal of the runs is valid, and too old at two minutes.
valid_at_a_minute : (validate 90_000 60_000 signal).valid ≡ true
unfolding validate raised price_checks ladder_checks shape_checks freshness_checks reference_ms
valid_at_a_minute = refl

stale_at_two_minutes : (validate 90_000 120_000 signal).errors ≡ stale 119_999 90_000 ∷ []
unfolding validate raised price_checks ladder_checks shape_checks freshness_checks reference_ms
stale_at_two_minutes = refl

-- A win and eight losses: seven R under the peak.
abbrev losing : EquityThrottle Fixed
losing = record throttle { window = (1, num 1) ∷ (2, sub (num 0) (num 7)) ∷ [] }

-- A signal is taken while the queue is paused, and the queue is stopped.
abbrev fresh : SignalQueue Fixed
fresh = Queue.init

abbrev waiting : SignalQueue Fixed
waiting = stop (worker_step (worker_step (pause (put 5 signal (start fresh)))))

reached : Reach fresh waiting
unfolding Queue.init
reached =
    then_step
      (then_step
        (then_step (then_step (then_step (then_step here (starts refl)) (puts 5 signal)) pauses)
          works)
        works)
      stops

Reach-IsOrderly_example : IsOrderly waiting
Reach-IsOrderly_example = Reach-IsOrderly reached

abbrev in_hand : InboundSignal Fixed
in_hand = record signal { queued_at = some 5 }

waiting_holds : waiting.worker ≡ holding in_hand
unfolding Queue.init start put pause worker_step work take_item stop
waiting_holds = refl

waiting_stopped : waiting.stopped ≡ true
unfolding Queue.init start put pause worker_step work take_item stop
waiting_stopped = refl

then_finished : (worker_step waiting).worker ≡ Worker.finished
unfolding Queue.init start put pause worker_step work take_item stop
then_finished = refl

put_after_leak_example : put 7 signal (start (worker_step waiting)) ≡ start (worker_step waiting)
put_after_leak_example =
    put_after_leak waiting (start (worker_step waiting)) in_hand 7 signal reached waiting_holds
      waiting_stopped (then_step here (starts then_finished)) refl
