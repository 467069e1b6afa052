-- ===== src/Signals/Queue.antt =====
-- src/signals/queue.py. Producers and the worker are threads: a method that holds the lock, a flag that is
-- set and each turn of the worker's loop is one step, and the steps of different threads interleave
-- freely. What `on_signal` does is outside; it returns or raises, and the worker catches what it raises.
-- `put` is one step for all who read the symbols under their lock. The worker takes an item without that
-- lock, so that between the two writes of `put` it may have a signal in hand before its symbol is
-- reserved, which the steps here leave out.
pub mod Order
pub mod Leak
use bobis_quote_mt5_trading.Prelude.{
  ℕ, suc, String, Bool, true, false, not, Option, none, some, List, [], ◌∷◌, ◌++◌, length, ltb,
  ◌==◌, if◌then◌else◌, keep, Eq_string, Eq_option,
}
use bobis_quote_mt5_trading.Domain.Signal.{InboundSignal}

abbrev pub max_queue_size : ℕ
max_queue_size = 50

-- The worker at the head of its loop, in `get`, with an item that waits for the pause to end, in `on_signal`, and
-- after its loop.
pub data Worker (F : Type 0) : Type 0 where
  idle polling finished : Worker F
  holding executing : InboundSignal F → Worker F

-- `items` is the bounded FIFO, in which `none` is the sentinel of `stop`.
pub record SignalQueue (F : Type 0) : Type 0 where
  pub items : List (Option (InboundSignal F))
  pub queued_symbols : List (Option String)
  pub stopped : Bool
  pub paused : Bool
  pub worker : Worker F

abbrev pub member : Option String → List (Option String) → Bool
member x [] = false
member x (y ∷ ys) = let rest = member x ys in if y == x then true else rest

abbrev pub discard : Option String → List (Option String) → List (Option String)
discard x ys = keep (λ y. not (y == x)) ys

-- `queued_at or now_ms()`
abbrev pub or_now : Option ℕ → ℕ → Option ℕ
or_now (some (suc t)) now = some (suc t)
or_now _ now = some now

module _ {F : Type 0} where
  unfoldable pub init : SignalQueue F
  init = record {
    items = [];
    queued_symbols = [];
    stopped = false;
    paused = false;
    worker = finished;
  }

  unfoldable pub start : SignalQueue F → SignalQueue F
  start q = record q { stopped = false; worker = idle }

  unfoldable pub stop : SignalQueue F → SignalQueue F
  stop q =
      if ltb (length q.items) max_queue_size
      then record q { stopped = true; items = q.items ++ none ∷ [] }
      else record q { stopped = true }

  unfoldable pub put : (now : ℕ) → InboundSignal F → SignalQueue F → SignalQueue F
  put now signal q =
      let signal' = record signal { queued_at = or_now signal.queued_at now } in
      if member signal.resolved_symbol q.queued_symbols
      then q
      else if ltb (length q.items) max_queue_size
      then record q {
        items = q.items ++ some signal' ∷ [];
        queued_symbols = signal.resolved_symbol ∷ q.queued_symbols;
      }
      else q

  unfoldable pub pause : SignalQueue F → SignalQueue F
  pause q = record q { paused = true }

  unfoldable pub resume : SignalQueue F → SignalQueue F
  resume q = record q { paused = false }

  unfoldable pub depth : SignalQueue F → ℕ
  depth q = length q.items

  -- `get`, which may come after a stop that the head of the loop did not see: nothing where the queue
  -- stays empty.
  unfoldable pub take_item : List (Option (InboundSignal F)) → SignalQueue F → SignalQueue F
  take_item [] q = record q { worker = idle }
  take_item (none ∷ items) q = record q { items = items; worker = finished }
  take_item (some signal ∷ items) q = record q { items = items; worker = holding signal }

  -- One turn of the worker's thread.
  unfoldable pub work : Worker F → SignalQueue F → SignalQueue F
  work idle q = if q.stopped then record q { worker = finished } else record q { worker = polling }
  work polling q = take_item q.items q
  work (holding signal) q =
      if q.stopped
      then record q { worker = finished }
      else if q.paused
      then q
      else record q { worker = executing signal }
  work (executing signal) q = record q {
    worker = idle;
    queued_symbols = discard signal.resolved_symbol q.queued_symbols;
  }
  work finished q = q

  unfoldable pub worker_step : SignalQueue F → SignalQueue F
  worker_step q = work q.worker q
