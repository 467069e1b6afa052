-- ===== src/Signals/Queue/Leak.antt =====
-- A reservation that outlives its signal.
use bobis_quote_mt5_trading.Prelude.{
  ℕ, ◌≡◌, refl, sym, subst, String, true, Option, none, some, List, [], ◌∷◌, ap, ◌∙◌, Eq_string,
  Eq_option, option_eq_iff, arith,
}
use bobis_quote_mt5_trading.Domain.Signal.{InboundSignal}
use bobis_quote_mt5_trading.Signals.Queue.{
  Worker, idle, polling, finished, holding, executing, SignalQueue, member, init, start, stop, put,
  pause, resume, take_item, work, worker_step, or_now,
}
use bobis_quote_mt5_trading.Signals.Queue.Order.{
  waiting, in_hand, waiting-append, member-discard, Step, puts, works, stops, pauses, resumes,
  starts, Reach, here, then_step, Reach-IsOrderly,
}

module _ {F : Type 0} where
  -- A reservation that no signal holds: a worker that stops with an item in hand leaves one.
  pub record IsLeaked (x : Option String) (q : SignalQueue F) : Type 0 where
    pub reserved : member x q.queued_symbols ≡ true
    pub nothing_waits : waiting x q.items ≡ 0
    pub nothing_in_hand : in_hand x q.worker ≡ 0

  -- The worker, told to stop while an item is in its hand, drops the item and keeps the reservation of
  -- its symbol.
  pub worker_step-IsLeaked :
      (q : SignalQueue F) (signal : InboundSignal F)
      → Reach init q
      → q.worker ≡ holding signal
      → q.stopped ≡ true
      → IsLeaked signal.resolved_symbol (worker_step q)
  unfolding worker_step work
  worker_step-IsLeaked q signal r e on =
      let ok = (Reach-IsOrderly r).reserved signal.resolved_symbol in
      let same = option_eq_iff signal.resolved_symbol signal.resolved_symbol in
      let self = same.1 refl in
      let hand = ap (in_hand signal.resolved_symbol) e in
      subst (λ w. IsLeaked signal.resolved_symbol (work w q)) (sym e)
        (record {
          reserved = ground (arith, on, self, hand, ok);
          nothing_waits = ground (arith, on, self, hand, ok);
          nothing_in_hand = ground (arith, on);
        })

  put-IsLeaked :
      (x : Option String) (now : ℕ) (signal : InboundSignal F) (q : SignalQueue F)
      → IsLeaked x q
      → IsLeaked x (put now signal q)
  unfolding put
  put-IsLeaked x now signal q l =
      let added = some (record signal { queued_at = or_now signal.queued_at now }) ∷ [] in
      let apart = option_eq_iff signal.resolved_symbol x in
      record {
        reserved = ground (arith, l.reserved);
        nothing_waits =
            ground (arith, apart, l.reserved, l.nothing_waits, waiting-append x q.items added);
        nothing_in_hand = ground (arith, l.nothing_in_hand);
      }

  take_item-IsLeaked :
      (x : Option String) (items : List (Option (InboundSignal F))) (q : SignalQueue F)
      → q.items ≡ items
      → IsLeaked x q
      → IsLeaked x (take_item items q)
  unfolding take_item
  take_item-IsLeaked x [] q e l = record {
    reserved = l.reserved;
    nothing_waits = l.nothing_waits;
    nothing_in_hand = refl;
  }
  take_item-IsLeaked x (none ∷ items) q e l = record {
    reserved = l.reserved;
    nothing_waits = ground (arith, ap (waiting x) e, l.nothing_waits);
    nothing_in_hand = refl;
  }
  take_item-IsLeaked x (some signal ∷ items) q e l = record {
    reserved = l.reserved;
    nothing_waits = ground (arith, ap (waiting x) e, l.nothing_waits);
    nothing_in_hand = ground (arith, ap (waiting x) e, l.nothing_waits);
  }

  work-IsLeaked :
      (x : Option String) (w : Worker F) (q : SignalQueue F)
      → q.worker ≡ w
      → IsLeaked x q
      → IsLeaked x (work w q)
  unfolding work
  work-IsLeaked x idle q e l = record {
    reserved = ground (arith, l.reserved);
    nothing_waits = ground (arith, l.nothing_waits);
    nothing_in_hand = ground arith;
  }
  work-IsLeaked x polling q e l = take_item-IsLeaked x q.items q refl l
  work-IsLeaked x (holding signal) q e l = record {
    reserved = ground (arith, l.reserved);
    nothing_waits = ground (arith, l.nothing_waits);
    nothing_in_hand = ground (arith, ap (in_hand x) e, l.nothing_in_hand);
  }
  work-IsLeaked x (executing signal) q e l = record {
    reserved = ground (
      arith,
      l.reserved,
      ap (in_hand x) e,
      l.nothing_in_hand,
      member-discard x signal.resolved_symbol q.queued_symbols,
    );
    nothing_waits = l.nothing_waits;
    nothing_in_hand = refl;
  }
  work-IsLeaked x finished q e l = l

  Step-IsLeaked : {q r : SignalQueue F} (x : Option String) → Step q r → IsLeaked x q → IsLeaked x r
  unfolding worker_step pause resume start stop
  Step-IsLeaked {q} x (puts now signal) l = put-IsLeaked x now signal q l
  Step-IsLeaked {q} x works l = work-IsLeaked x q.worker q refl l
  Step-IsLeaked {q} x stops l = record {
    reserved = ground (arith, l.reserved);
    nothing_waits = ground (arith, l.nothing_waits, waiting-append x q.items (none ∷ []));
    nothing_in_hand = ground (arith, l.nothing_in_hand);
  }
  Step-IsLeaked x pauses l = record {
    reserved = l.reserved;
    nothing_waits = l.nothing_waits;
    nothing_in_hand = l.nothing_in_hand;
  }
  Step-IsLeaked x resumes l = record {
    reserved = l.reserved;
    nothing_waits = l.nothing_waits;
    nothing_in_hand = l.nothing_in_hand;
  }
  Step-IsLeaked x (starts e) l = record {
    reserved = l.reserved;
    nothing_waits = l.nothing_waits;
    nothing_in_hand = refl;
  }

  Reach-IsLeaked :
      {q r : SignalQueue F} (x : Option String) → Reach q r → IsLeaked x q → IsLeaked x r
  Reach-IsLeaked x here l = l
  Reach-IsLeaked x (then_step r s) l = Step-IsLeaked x s (Reach-IsLeaked x r l)

  -- Once the worker has stopped with a signal in hand, no later step, a restart included, releases the
  -- symbol: every further signal of it is dropped.
  pub put_after_leak :
      (q r : SignalQueue F) (signal : InboundSignal F) (now : ℕ) (later : InboundSignal F)
      → Reach init q
      → q.worker ≡ holding signal
      → q.stopped ≡ true
      → Reach (worker_step q) r
      → later.resolved_symbol ≡ signal.resolved_symbol
      → put now later r ≡ r
  unfolding put
  put_after_leak q r signal now later reach e on after same =
      let l =
        Reach-IsLeaked signal.resolved_symbol after (worker_step-IsLeaked q signal reach e on) in
      let in_set = ap (λ x. member x r.queued_symbols) same ∙ l.reserved in simp in_set
