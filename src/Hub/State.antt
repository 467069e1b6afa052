-- ===== src/Hub/State.antt =====
-- src/hub/state.py: what the hub knows of each broker. A frame is a dict of JSON values, a connection
-- and a listener are names, and `now` is what time.time() gives. A call of the listeners is the frame
-- with those that it was handed to, in order; the only listener of the program starts a task and returns.
pub mod Isolation
use bobis_quote_mt5_trading.Prelude.{
  ℕ, String, Bool, true, false, if◌then◌else◌, Option, none, some, List, [], ◌∷◌, ◌++◌, ◌==◌,
  Eq_string,
}
use bobis_quote_mt5_trading.Prelude.Dict.{Dict, lookup, insert}

-- A value that json.loads gives: its text where it counts as true and else the empty text, whether it is
-- None, and its entries where it is a dict.
pub record Json (V : Type 0) : Type 0 where
  pub text : V → String
  pub is_none : V → Bool
  pub entries : V → Option (Dict String V)

pub record BrokerSlot (C V : Type 0) : Type 0 where
  pub broker : String
  pub connected_at : ℕ
  pub last_seen : ℕ
  pub live : Bool
  pub connection : Option C
  pub last_snapshot : Option V

pub record HubState (C V L : Type 0) : Type 0 where
  pub slots : Dict String (BrokerSlot C V)
  pub listeners : List L
  pub delivered : List (String × Dict String V × List L)

-- The calls of the methods that change the state.
pub data Operation (C V L : Type 0) : Type 0 where
  on_relay : L → Operation C V L
  register : (broker : String) (connection : C) (now : ℕ) → Operation C V L
  mark_offline : (broker : String) → Operation C V L
  relay : (broker : String) (frame : Dict String V) (now : ℕ) → Operation C V L

-- d.get(key), where None and a missing key are the same, and str(d.get(key) or "").
module _ {V : Type 0} ⦃js : Json V⦄ where
  abbrev pub value_at : String → Dict String V → Option V
  value_at key d = elim (lookup key d) [
    | none ↦ none
    | some v ↦ if js.is_none v then none else some v
  ]

  abbrev pub text_at : String → Dict String V → String
  text_at key d = elim (lookup key d) [ none ↦ "" | some v ↦ js.text v ]

module _ {C V : Type 0} where
  unfoldable pub registered : String → C → ℕ → Option (BrokerSlot C V) → BrokerSlot C V
  registered b c now none = record {
    broker = b;
    connected_at = now;
    last_seen = now;
    live = true;
    connection = some c;
    last_snapshot = none;
  }
  registered b c now (some slot) = record slot {
    connected_at = now;
    last_seen = now;
    live = true;
    connection = some c;
  }

module _ {C V : Type 0} ⦃js : Json V⦄ where
  unfoldable pub seen : Dict String V → ℕ → BrokerSlot C V → BrokerSlot C V
  seen frame now slot = record slot {
    last_seen = now;
    last_snapshot =
        if text_at "type" frame == "STATE_SNAPSHOT"
        then value_at "payload" frame
        else slot.last_snapshot;
  }

module _ {C V L : Type 0} where
  abbrev pub listen : L → HubState C V L → HubState C V L
  listen l s = record s { listeners = s.listeners ++ l ∷ [] }

  unfoldable pub set_slot : String → BrokerSlot C V → HubState C V L → HubState C V L
  set_slot b slot s = record s { slots = insert b slot s.slots }

  unfoldable pub connect : String → C → ℕ → HubState C V L → HubState C V L
  connect b c now s = set_slot b (registered b c now (lookup b s.slots)) s

  unfoldable pub disconnect : String → HubState C V L → HubState C V L
  disconnect b s = elim (lookup b s.slots) [
    | none ↦ s
    | some slot ↦ set_slot b (record slot { live = false; connection = none }) s
  ]

  unfoldable pub connection_for : String → HubState C V L → Option C
  connection_for b s = elim (lookup b s.slots) [
    | none ↦ none
    | some slot ↦ if slot.live then slot.connection else none
  ]

  unfoldable pub last_snapshot_for : String → HubState C V L → Option V
  last_snapshot_for b s = elim (lookup b s.slots) [ none ↦ none | some slot ↦ slot.last_snapshot ]

module _ {C V L : Type 0} ⦃js : Json V⦄ where
  unfoldable pub deliver : String → Dict String V → ℕ → HubState C V L → HubState C V L
  deliver b frame now s = elim (lookup b s.slots) [
    | none ↦ s
    | some slot ↦ record s {
      slots = insert b (seen frame now slot) s.slots;
      delivered = s.delivered ++ (b, frame, s.listeners) ∷ [];
    }
  ]

  unfoldable pub apply : Operation C V L → HubState C V L → HubState C V L
  apply (on_relay l) s = listen l s
  apply (register b c now) s = connect b c now s
  apply (mark_offline b) s = disconnect b s
  apply (relay b frame now) s = deliver b frame now s

  abbrev pub run : List (Operation C V L) → HubState C V L → HubState C V L
  run [] s = s
  run (o ∷ os) s = run os (apply o s)
