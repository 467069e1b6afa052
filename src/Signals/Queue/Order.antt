-- ===== src/Signals/Queue/Order.antt =====
-- One signal of a symbol at a time, in a queue of bounded length, whatever the threads' order.
use bobis_quote_mt5_trading.Prelude.{
  ℕ, ◌+◌, ◌≤◌, ◌≡◌, refl, String, Bool, true, false, Option, none, some, List, [], ◌∷◌, ◌++◌,
  length, length-append, ◌==◌, if◌then◌else◌, ap, Eq_string, Eq_option, option_eq_iff, arith,
}
use bobis_quote_mt5_trading.Domain.Signal.{InboundSignal}
use bobis_quote_mt5_trading.Signals.Queue.{
  Worker, idle, polling, finished, holding, executing, SignalQueue, member, discard, init, start,
  stop, put, pause, resume, take_item, or_now, work, worker_step, max_queue_size,
}

abbrev pub one_if : Bool → ℕ
one_if true = 1
one_if false = 0

pub member-discard :
    (x y : Option String) (ys : List (Option String))
    → member x (discard y ys) ≡ (if y == x then false else member x ys)
member-discard x y [] = ground arith
member-discard x y (z ∷ ys) =
    ground (arith, member-discard x y ys, option_eq_iff z y, option_eq_iff z x, option_eq_iff y x)

module _ {F : Type 0} where
  -- How many of the items are signals of the symbol.
  abbrev pub waiting : Option String → List (Option (InboundSignal F)) → ℕ
  waiting x [] = 0
  waiting x (none ∷ items) = waiting x items
  waiting x (some signal ∷ items) = one_if (signal.resolved_symbol == x) + waiting x items

  -- And how many the worker has in hand.
  abbrev pub in_hand : Option String → Worker F → ℕ
  in_hand x (holding signal) = one_if (signal.resolved_symbol == x)
  in_hand x (executing signal) = one_if (signal.resolved_symbol == x)
  in_hand x _ = 0

  -- A thread's step. A new worker is started where none runs.
  pub data Step : SignalQueue F → SignalQueue F → Type 0 where
    puts : {q : SignalQueue F} (now : ℕ) (signal : InboundSignal F) → Step q (put now signal q)
    works : {q : SignalQueue F} → Step q (worker_step q)
    stops : {q : SignalQueue F} → Step q (stop q)
    pauses : {q : SignalQueue F} → Step q (pause q)
    resumes : {q : SignalQueue F} → Step q (resume q)
    starts : {q : SignalQueue F} → q.worker ≡ finished → Step q (start q)

  pub data Reach : SignalQueue F → SignalQueue F → Type 0 where
    here : {q : SignalQueue F} → Reach q q
    then_step : {q r t : SignalQueue F} → Reach q r → Step r t → Reach q t

  pub record IsOrderly (q : SignalQueue F) : Type 0 where
    pub bounded : length q.items ≤ max_queue_size
    pub reserved :
        (x : Option String)
        → waiting x q.items + in_hand x q.worker ≤ one_if (member x q.queued_symbols)

  pub waiting-append :
      (x : Option String) (items more : List (Option (InboundSignal F)))
      → waiting x (items ++ more) ≡ waiting x items + waiting x more
  waiting-append x [] more = omega arith
  waiting-append x (none ∷ items) more = waiting-append x items more
  waiting-append x (some signal ∷ items) more = omega (arith, waiting-append x items more)

  put-IsOrderly :
      (now : ℕ) (signal : InboundSignal F) (q : SignalQueue F)
      → IsOrderly q
      → IsOrderly (put now signal q)
  unfolding put
  put-IsOrderly now signal q ok =
      let added = some (record signal { queued_at = or_now signal.queued_at now }) ∷ [] in
      let grown = length-append q.items added in
      let symbol = signal.resolved_symbol in
      record {
        bounded = ground (arith, grown, ok.bounded);
        reserved = λ x. ground (
          arith,
          waiting-append x q.items added,
          option_eq_iff symbol x,
          ok.reserved x,
          ok.reserved symbol,
        );
      }

  stop-IsOrderly : (q : SignalQueue F) → IsOrderly q → IsOrderly (stop q)
  unfolding stop
  stop-IsOrderly q ok = record {
    bounded = ground (arith, length-append q.items (none ∷ []), ok.bounded);
    reserved = λ x. ground (arith, waiting-append x q.items (none ∷ []), ok.reserved x);
  }

  take_item-IsOrderly :
      (items : List (Option (InboundSignal F))) (q : SignalQueue F)
      → q.items ≡ items
      → q.worker ≡ polling
      → IsOrderly q
      → IsOrderly (take_item items q)
  unfolding take_item
  take_item-IsOrderly [] q e w ok = record {
    bounded = ok.bounded;
    reserved = λ x. ground (arith, ok.reserved x, ap (in_hand x) w);
  }
  take_item-IsOrderly (none ∷ items) q e w ok = record {
    bounded = ground (arith, ap length e, ok.bounded);
    reserved = λ x. ground (arith, ap (waiting x) e, ok.reserved x, ap (in_hand x) w);
  }
  take_item-IsOrderly (some signal ∷ items) q e w ok = record {
    bounded = ground (arith, ap length e, ok.bounded);
    reserved = λ x. ground (arith, ap (waiting x) e, ok.reserved x, ap (in_hand x) w);
  }

  work-IsOrderly :
      (w : Worker F) (q : SignalQueue F) → q.worker ≡ w → IsOrderly q → IsOrderly (work w q)
  unfolding work
  work-IsOrderly idle q e ok = record {
    bounded = ground (arith, ok.bounded);
    reserved = λ x. ground (arith, ok.reserved x);
  }
  work-IsOrderly polling q e ok = take_item-IsOrderly q.items q refl e ok
  work-IsOrderly (holding signal) q e ok = record {
    bounded = ground (arith, ok.bounded);
    reserved = λ x. ground (arith, ap (in_hand x) e, ok.reserved x);
  }
  work-IsOrderly (executing signal) q e ok = record {
    bounded = ok.bounded;
    reserved = λ x. ground (
      arith,
      ap (in_hand x) e,
      ok.reserved x,
      member-discard x signal.resolved_symbol q.queued_symbols,
    );
  }
  work-IsOrderly finished q e ok = ok

  Step-IsOrderly : {q r : SignalQueue F} → Step q r → IsOrderly q → IsOrderly r
  unfolding worker_step pause resume start
  Step-IsOrderly {q} (puts now signal) ok = put-IsOrderly now signal q ok
  Step-IsOrderly {q} works ok = work-IsOrderly q.worker q refl ok
  Step-IsOrderly {q} stops ok = stop-IsOrderly q ok
  Step-IsOrderly pauses ok = record { bounded = ok.bounded; reserved = ok.reserved }
  Step-IsOrderly resumes ok = record { bounded = ok.bounded; reserved = ok.reserved }
  Step-IsOrderly (starts e) ok = record {
    bounded = ok.bounded;
    reserved = λ x. ground (arith, ap (in_hand x) e, ok.reserved x);
  }

  -- In every state that the steps of the threads can reach, a whole `put` being one of them, the queue
  -- holds at most 50 items, and of each symbol at most one signal waits or is in the worker's hand, and
  -- then its symbol is reserved.
  pub Reach-IsOrderly : {q : SignalQueue F} → Reach init q → IsOrderly q
  unfolding init
  Reach-IsOrderly here = record { bounded = omega arith; reserved = λ x. omega arith }
  Reach-IsOrderly (then_step r s) = Step-IsOrderly s (Reach-IsOrderly r)
