-- ===== src/Examples/HubRuns.antt =====
-- Two brokers, of which one connects twice, and commands for them.
use bobis_quote_mt5_trading.Prelude.{
  ℕ, String, false, Option, some, none, List, [], ◌∷◌, keep, ◌≡◌, refl, Eq_string, Eq_nat,
}
use bobis_quote_mt5_trading.Prelude.Dict.{Dict, lookup, insert}
use bobis_quote_mt5_trading.Utils.Text.{strip, strip_start, strip_end}
use bobis_quote_mt5_trading.Hub.State.{
  Json, HubState, Operation, register, mark_offline, relay, registered, set_slot, connect, seen,
  deliver, connection_for, run,
}
use bobis_quote_mt5_trading.Hub.State.Isolation.{concerns, AreAlike, run-IsIsolated}
use bobis_quote_mt5_trading.Hub.Internal.{
  Incoming, message, Event, opened, arrived, closed, accepted, check_hello, payload_of, await_hello,
  has_key, on_message, handle, handle_all,
}
use bobis_quote_mt5_trading.Hub.Internal.Hello.{IsAuthorised, await_hello-IsAuthorised}
use bobis_quote_mt5_trading.Hub.Internal.Stale.{OpensNone, stale_close}
use bobis_quote_mt5_trading.Hub.Public.{except, route, on_command, discard, add, join}
use bobis_quote_mt5_trading.Hub.Public.Routing.{IsRouted, on_command-IsRouted}
use bobis_quote_mt5_trading.Hub.Public.Capacity.{Change, joins, leaves, change_all}

-- A text, or the payload of a hello.
data Value : Type 0 where
  word : String → Value
  greeting : (broker token : String) → Value

abbrev text_of : Value → String
text_of (word w) = w
text_of (greeting b t) = "{...}"

abbrev entries_of : Value → Option (Dict String Value)
entries_of (word w) = none
entries_of (greeting b t) = some (("broker", word b) ∷ ("token", word t) ∷ [])

instance abbrev values : Json Value
values = record { text = text_of; is_none = λ v. false; entries = entries_of }

abbrev hub : HubState ℕ Value ℕ
hub = record { slots = []; listeners = 1 ∷ []; delivered = [] }

abbrev snapshot : Dict String Value
snapshot = ("type", word "STATE_SNAPSHOT") ∷ ("payload", word "books") ∷ []

abbrev operations : List (Operation ℕ Value ℕ)
operations =
    register "fbs" 1 10
    ∷ register "deriv" 2 11
    ∷ relay "fbs" snapshot 12
    ∷ mark_offline "deriv"
    ∷ []

run-IsIsolated_example :
    AreAlike "fbs" (run operations hub) (run (keep (concerns "fbs") operations) hub)
run-IsIsolated_example = run-IsIsolated "fbs" operations hub

abbrev hello : Incoming Value
hello = message (("type", word "hello") ∷ ("payload", greeting " fbs " "key") ∷ [])

hello-is_accepted : await_hello "key" hello ≡ accepted "fbs"
unfolding await_hello payload_of check_hello strip strip_start strip_end lookup
hello-is_accepted = refl

await_hello-IsAuthorised_example : IsAuthorised "key" hello "fbs"
await_hello-IsAuthorised_example = await_hello-IsAuthorised "key" hello "fbs" hello-is_accepted

-- The new connection goes on sending, and another broker connects.
abbrev later_events : List (Event ℕ Value)
later_events = arrived "fbs" (message snapshot) 13 ∷ opened "deriv" 3 14 ∷ []

later_events-OpensNone : OpensNone "fbs" later_events
later_events-OpensNone = (refl, (refl, tt))

stale_close_example :
    connection_for "fbs"
      (handle_all (opened "fbs" 1 10 ∷ opened "fbs" 2 11 ∷ closed "fbs" ∷ later_events) hub)
    ≡ none
stale_close_example = stale_close "fbs" 1 2 10 11 later_events hub later_events-OpensNone

abbrev command : Dict String Value
command = ("type", word "close_all") ∷ ("broker", word "deriv") ∷ []

abbrev events : List (Event ℕ Value)
events = opened "fbs" 1 10 ∷ later_events

command-is_sent :
    on_command (message command) (handle_all events hub) ≡ some (3, ("type", word "close_all") ∷ [])
unfolding on_command route except connection_for handle connect registered set_slot on_message
    has_key deliver seen lookup insert strip strip_start strip_end
command-is_sent = refl

on_command-IsRouted_example :
    IsRouted events hub command (on_command (message command) (handle_all events hub))
on_command-IsRouted_example = on_command-IsRouted events hub command

abbrev changes : List (Change ℕ ℕ Value ℕ)
changes = joins "" 1 hub ∷ joins "" 2 hub ∷ joins "" 3 hub ∷ leaves 1 ∷ joins "" 3 hub ∷ []

-- The third dashboard finds no place, and takes the one that the first leaves.
two_dashboards : change_all "" 2 changes [] ≡ 2 ∷ 3 ∷ []
unfolding join add discard
two_dashboards = refl
