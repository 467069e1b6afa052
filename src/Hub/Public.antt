-- ===== src/Hub/Public.antt =====
-- src/hub/public_server.py: the dashboards. A dashboard is a name; the token of its address, and whether
-- a sending fails, are arguments. The tasks that broadcast are steps of their own, and the hub is the same while a dashboard joins.
pub mod Routing
pub mod Capacity
use bobis_quote_mt5_trading.Prelude.{
  ℕ, String, Bool, true, false, not, ◌&&◌, nat_eq, leb, if◌then◌else◌, Option, none, some, List, [],
  ◌∷◌, ◌++◌, length, keep, ◌==◌, Eq, Eq_string,
}
use bobis_quote_mt5_trading.Prelude.Dict.{Dict, insert}
use bobis_quote_mt5_trading.Utils.Text.{strip}
use bobis_quote_mt5_trading.Hub.State.{
  Json, BrokerSlot, HubState, text_at, connection_for, last_snapshot_for,
}
use bobis_quote_mt5_trading.Hub.Internal.{Incoming, lost, broken, not_a_dict, message}

-- {k: v for k, v in msg.items() if k != key}
unfoldable pub except : {V : Type 0} → String → Dict String V → Dict String V
except key [] = []
except key ((k, v) ∷ d) = let rest = except key d in if k == key then rest else (k, v) ∷ rest

module _ {C V L : Type 0} ⦃js : Json V⦄ where
  unfoldable pub route : String → Dict String V → HubState C V L → Option (C × Dict String V)
  route broker msg s =
      if broker == ""
      then none
      else elim (connection_for broker s) [ none ↦ none | some c ↦ some (c, except "broker" msg) ]

  -- The connection that a command is sent to, and what is sent.
  unfoldable pub on_command : Incoming V → HubState C V L → Option (C × Dict String V)
  on_command (message msg) s = route (strip (text_at "broker" msg)) msg s
  on_command other s = none

-- What a dashboard is sent when it joins: the last snapshot of every live broker.
unfoldable pub replay :
    {C V L : Type 0} → Dict String (BrokerSlot C V) → HubState C V L → List (String × V)
replay [] s = []
replay ((broker, slot) ∷ slots) s =
    let rest = replay slots s in
    if slot.live
    then elim (last_snapshot_for broker s) [ none ↦ rest | some last ↦ (broker, last) ∷ rest ]
    else rest

pub data Answer (V : Type 0) : Type 0 where
  invalid_token at_capacity : Answer V
  joined : (snapshots : List (String × V)) → Answer V

module _ {W : Type 0} ⦃eq : Eq W⦄ where
  -- set.discard and set.add
  unfoldable pub discard : W → List W → List W
  discard w [] = []
  discard w (x ∷ xs) = let rest = discard w xs in if x == w then rest else x ∷ rest

  unfoldable pub add : W → List W → List W
  add w [] = w ∷ []
  add w (x ∷ xs) = let rest = add w xs in if x == w then x ∷ xs else x ∷ rest

  unfoldable pub discard_all : List W → List W → List W
  discard_all [] clients = clients
  discard_all (w ∷ ws) clients = discard_all ws (discard w clients)

  unfoldable pub join :
      {C V L : Type 0}
      → (secret : String) (max_clients : ℕ) (token : String) (client : W) (hub : HubState C V L)
      → List W
      → Answer V × List W
  join secret max_clients token client hub clients =
      if not (secret == "") && not (token == secret)
      then (invalid_token, clients)
      else if not (nat_eq max_clients 0) && leb max_clients (length clients)
      then (at_capacity, clients)
      else (joined (replay hub.slots hub), add client clients)

  -- The dashboards that a broadcast could not reach are dropped when it ends.
  unfoldable pub broadcast : (fails : W → Bool) (reached : List W) → List W → List W
  broadcast fails reached clients = discard_all (keep fails reached) clients

-- The frame that is broadcast, if there is a dashboard.
unfoldable pub tagged :
    {V W : Type 0}
    → (of_text : String → V) (clients : List W) (broker : String) → Dict String V
    → Option (Dict String V)
tagged of_text [] broker frame = none
tagged of_text (w ∷ ws) broker frame = some (insert "broker" (of_text broker) frame)
