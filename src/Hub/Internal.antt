-- ===== src/Hub/Internal.antt =====
-- src/hub/internal_server.py: the connections of the brokers. The messages of a connection are what the
-- socket and json.loads give, and the closing of a socket is left out. asyncio runs one handler at a
-- time between two waits, so that what happens to all connections is a sequence of events.
pub mod Hello
pub mod Stale
use bobis_quote_mt5_trading.Prelude.{
  ℕ, String, Bool, true, false, not, ◌&&◌, if◌then◌else◌, Option, none, some, List, [], ◌∷◌, ◌==◌,
  Eq_string,
}
use bobis_quote_mt5_trading.Prelude.Dict.{Dict, lookup}
use bobis_quote_mt5_trading.Utils.Text.{strip}
use bobis_quote_mt5_trading.Hub.State.{Json, HubState, text_at, connect, disconnect, deliver}

-- What arrives: nothing in time, a text that is no JSON, a value that is no dict, or a dict.
pub data Incoming (V : Type 0) : Type 0 where
  lost broken not_a_dict : Incoming V
  message : Dict String V → Incoming V

-- How the hello ends: with the reason of the closing, with an exception that no handler catches (the
-- method `get` of a value that is no dict), or with the name of the broker.
pub data Greeting : Type 0 where
  refused : (reason : String) → Greeting
  raised : Greeting
  accepted : (broker : String) → Greeting

unfoldable pub check_hello : (secret broker token : String) → Greeting
check_hello secret broker token =
    if broker == ""
    then refused "missing broker"
    else if not (secret == "") && not (token == secret)
    then refused "invalid token"
    else accepted broker

-- A handler after its hello: it registers, follows the messages, and ends by marking the broker offline,
-- whichever way the connection ends. The events of several handlers interleave.
pub data Event (C V : Type 0) : Type 0 where
  opened : (broker : String) (connection : C) (now : ℕ) → Event C V
  arrived : (broker : String) (raw : Incoming V) (now : ℕ) → Event C V
  closed : (broker : String) → Event C V

module _ {V : Type 0} ⦃js : Json V⦄ where
  -- msg.get("payload") or {}
  unfoldable pub payload_of : Dict String V → Option (Dict String V)
  payload_of msg = elim (lookup "payload" msg) [
    | none ↦ some []
    | some v ↦ elim (js.entries v) [
      | some d ↦ some d
      | none ↦ if js.text v == "" then some [] else none
    ]
  ]

  unfoldable pub await_hello : (secret : String) → Incoming V → Greeting
  await_hello secret lost = refused "hello timeout"
  await_hello secret broken = refused "invalid hello"
  await_hello secret not_a_dict = raised
  await_hello secret (message msg) =
      if not (text_at "type" msg == "hello")
      then refused "expected hello"
      else elim (payload_of msg) [
        | none ↦ raised
        | some payload ↦
            check_hello secret (strip (text_at "broker" payload)) (text_at "token" payload)
      ]

  unfoldable pub has_key : String → Dict String V → Bool
  has_key key d = elim (lookup key d) [ none ↦ false | some _ ↦ true ]

module _ {C V L : Type 0} ⦃js : Json V⦄ where
  unfoldable pub on_message : String → Incoming V → ℕ → HubState C V L → HubState C V L
  on_message broker (message frame) now s =
      if has_key "type" frame then deliver broker frame now s else s
  on_message broker other now s = s

  unfoldable pub handle : Event C V → HubState C V L → HubState C V L
  handle (opened b c now) s = connect b c now s
  handle (arrived b raw now) s = on_message b raw now s
  handle (closed b) s = disconnect b s

  abbrev pub handle_all : List (Event C V) → HubState C V L → HubState C V L
  handle_all [] s = s
  handle_all (e ∷ es) s = handle_all es (handle e s)
