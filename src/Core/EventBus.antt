-- ===== src/Core/EventBus.antt =====
-- src/core/event_bus.py. `L` is the type of a registered function, `P` that of a payload and `W` the
-- state that the functions act on. A call of a function answers whether it returned (`false`: it
-- raised) and the new state; functions that themselves register or emit are not modelled. Each
-- wrapper that `once` makes has a number of its own, since Python compares functions by identity.
pub mod Delivery
use bobis_quote_mt5_trading.Prelude.{
  ℕ, ◌+◌, String, Bool, true, false, if◌then◌else◌, Option, none, some, nat_eq, List, [], ◌∷◌, ◌++◌,
  Eq, ◌==◌, Eq_string,
}
use bobis_quote_mt5_trading.Prelude.Dict.{Dict, lookup_or, insert, remove}

-- What stands in a list of listeners: the function of `on`, or the wrapper of `once`.
pub data Listener (L : Type 0) : Type 0 where
  plain : L → Listener L
  single : (number : ℕ) (listener : L) → Listener L

pub record EventBus (L : Type 0) : Type 0 where
  pub listeners : Dict String (List (Listener L))
  pub wildcard : List L
  pub wrappers : ℕ

module _ {L : Type 0} where
  unfoldable pub empty_bus : EventBus L
  empty_bus = record { listeners = []; wildcard = []; wrappers = 0 }

  abbrev pub listeners_of : String → EventBus L → List (Listener L)
  listeners_of event bus = lookup_or event [] bus.listeners

  unfoldable pub on : String → L → EventBus L → EventBus L
  on event listener bus = record bus {
    listeners = insert event (listeners_of event bus ++ plain listener ∷ []) bus.listeners;
  }

  unfoldable pub once : String → L → EventBus L → EventBus L
  once event listener bus = record bus {
    listeners =
        insert event (listeners_of event bus ++ single bus.wrappers listener ∷ []) bus.listeners;
    wrappers = bus.wrappers + 1;
  }

  -- list.remove of a function, without effect where it is not found
  unfoldable pub remove_plain : ⦃e : Eq L⦄ → L → List (Listener L) → List (Listener L)
  remove_plain l [] = []
  remove_plain l (plain k ∷ ls) =
      let rest = remove_plain l ls in if k == l then ls else plain k ∷ rest
  remove_plain l (single n k ∷ ls) = single n k ∷ remove_plain l ls

  -- list.remove of a wrapper
  unfoldable pub remove_single : ℕ → List (Listener L) → List (Listener L)
  remove_single n [] = []
  remove_single n (plain k ∷ ls) = plain k ∷ remove_single n ls
  remove_single n (single m k ∷ ls) =
      let rest = remove_single n ls in if nat_eq m n then ls else single m k ∷ rest

  unfoldable pub off : ⦃e : Eq L⦄ → String → L → EventBus L → EventBus L
  off event listener bus = record bus {
    listeners = insert event (remove_plain listener (listeners_of event bus)) bus.listeners;
  }

  unfoldable pub on_any : L → EventBus L → EventBus L
  on_any listener bus = record bus { wildcard = bus.wildcard ++ listener ∷ [] }

  unfoldable pub remove_all : Option String → EventBus L → EventBus L
  remove_all none bus = record bus { listeners = []; wildcard = [] }
  remove_all (some event) bus =
      if event == ""
      then record bus { listeners = []; wildcard = [] }
      else record bus { listeners = remove event bus.listeners }

  unfoldable pub take_off : String → ℕ → EventBus L → EventBus L
  take_off event number bus = record bus {
    listeners = insert event (remove_single number (listeners_of event bus)) bus.listeners;
  }

module _ {L P W : Type 0} (call : L → P → W → Bool × W) (call_any : L → String → P → W → Bool × W)
    (event : String) (payload : P) where
  -- One turn of the loop of emit; a wrapper leaves once its function has returned.
  unfoldable pub fire : Listener L → EventBus L × W → EventBus L × W
  fire (plain l) (bus, w) = (bus, (call l payload w).1)
  fire (single number l) (bus, w) =
      let answer = call l payload w in
      if answer.0 then (take_off event number bus, answer.1) else (bus, answer.1)

  unfoldable pub fire_all : List (Listener L) → EventBus L × W → EventBus L × W
  fire_all [] s = s
  fire_all (l ∷ ls) s = fire_all ls (fire l s)

  unfoldable pub fire_wildcards : List L → W → W
  fire_wildcards [] w = w
  fire_wildcards (l ∷ ls) w = fire_wildcards ls (call_any l event payload w).1

  -- Reading the listeners of an event that has none leaves an empty list for it.
  unfoldable pub emit : EventBus L × W → EventBus L × W
  emit (bus, w) =
      let found = listeners_of event bus in
      let read : EventBus L = record bus { listeners = insert event found bus.listeners } in
      let fired = fire_all found (read, w) in (fired.0, fire_wildcards fired.0.wildcard fired.1)
