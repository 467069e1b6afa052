-- ===== src/Examples/BusRuns.antt =====
-- Emissions to functions that write their name, of which "bad" raises.
use bobis_quote_mt5_trading.Prelude.{
  String, Bool, true, ◌≡◌, refl, not, List, [], ◌∷◌, ◌++◌, ◌==◌, Eq_string,
}
use bobis_quote_mt5_trading.Prelude.Dict.{lookup, lookup_or, insert}
use bobis_quote_mt5_trading.Core.EventBus.{
  plain, single, EventBus, listeners_of, empty_bus, on, once, on_any, remove_single, take_off, fire,
  fire_all, fire_wildcards, emit,
}
use bobis_quote_mt5_trading.Core.EventBus.Delivery.{
  Kept, call_each, call_wildcards, emit-IsDelivered,
}

abbrev call : String → String → List String → Bool × List String
call name payload log = (not (name == "bad"), log ++ name ∷ [])

abbrev call_any : String → String → String → List String → Bool × List String
call_any name event payload log = (true, log ++ name ∷ [])

abbrev bus : EventBus String
unfolding empty_bus on once on_any lookup lookup_or insert
bus = on_any "audit" (once "CLOSED" "second" (on "CLOSED" "bad" (once "CLOSED" "bad" empty_bus)))

-- The wrapper of the function that raises stays; the other one leaves.
after_emit : emit call call_any "CLOSED" "t-1" (bus, []) ≡ (
  record bus { listeners = ("CLOSED", single 0 "bad" ∷ plain "bad" ∷ []) ∷ [] },
  "bad" ∷ "bad" ∷ "second" ∷ "audit" ∷ [],
)
unfolding bus emit fire_all fire fire_wildcards take_off remove_single lookup lookup_or insert
after_emit = refl

emit-IsDelivered_example :
    ((emit call call_any "CLOSED" "t-1" (bus, [])).1
      ≡ call_wildcards call call_any "CLOSED" "t-1" bus.wildcard
          (call_each call call_any "CLOSED" "t-1" (listeners_of "CLOSED" bus) []))
    × Kept bus (emit call call_any "CLOSED" "t-1" (bus, [])).0
emit-IsDelivered_example = emit-IsDelivered call call_any "CLOSED" "t-1" bus []
