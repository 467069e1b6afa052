-- ===== src/Hub/Public/Routing.antt =====
-- Where the command of a dashboard goes.
use bobis_quote_mt5_trading.Prelude.{
  ◌⊎◌, Bool-cases, Option, String, ◌==◌, Eq_string, if◌then◌else◌, Option-cases, inl, inr, none,
  some, List, [], ◌∷◌, ◌≡◌, ◌≢◌, sym, ◌∙◌, arith,
}
use bobis_quote_mt5_trading.Prelude.Dict.{Dict, lookup}
use bobis_quote_mt5_trading.Utils.Text.{strip}
use bobis_quote_mt5_trading.Hub.State.{Json, HubState, text_at, connection_for}
use bobis_quote_mt5_trading.Hub.Internal.{message, Event, handle_all}
use bobis_quote_mt5_trading.Hub.Internal.Stale.{after_all, connection-handle_all}
use bobis_quote_mt5_trading.Hub.Public.{except, route, on_command}

lookup-except :
    {V : Type 0}
    → (k key : String) (d : Dict String V)
    → lookup k (except key d) ≡ (if key == k then none else lookup k d)
unfolding lookup except
lookup-except k key [] = ground arith
lookup-except k key ((j, v) ∷ d) = ground (
  arith,
  lookup-except k key d,
  Eq_string.beq_iff key k,
  Eq_string.beq_iff j key,
  Eq_string.beq_iff j k,
)

-- The broker that a command names.
abbrev pub addressee : {V : Type 0} ⦃js : Json V⦄ → Dict String V → String
addressee msg = strip (text_at "broker" msg)

module _ {C V L : Type 0} ⦃js : Json V⦄ where
  -- A command is sent on to the connection opened last with no closing since, with all its keys but the
  -- name of the broker; it is dropped if it names no broker, or one without such a connection.
  abbrev pub IsRouted :
      List (Event C V) → HubState C V L → Dict String V → Option (C × Dict String V) → Type 0
  IsRouted es s msg none =
      (addressee msg ≡ "")
      ⊎ (after_all (addressee msg) es (connection_for (addressee msg) s) ≡ none)
  IsRouted es s msg (some (c, sent)) =
      (addressee msg ≢ "")
      × (after_all (addressee msg) es (connection_for (addressee msg) s) ≡ some c)
      × ((k : String) → lookup k sent ≡ (if "broker" == k then none else lookup k msg))

  -- Whatever the connections did before, a command goes to the connection of the broker that it names,
  -- the one opened last with no closing since, with all its keys but the name of the broker; it is
  -- dropped only if it names no broker, or one that has no such connection.
  pub on_command-IsRouted :
      (es : List (Event C V)) (s : HubState C V L) (msg : Dict String V)
      → IsRouted es s msg (on_command (message msg) (handle_all es s))
  unfolding on_command route
  on_command-IsRouted es s msg =
      let b = addressee msg in
      let e = connection-handle_all b es s in
      elim (Bool-cases (b == "")) [
        | inl nobody ↦ rw nobody (inl ((Eq_string.beq_iff b "").0 nobody))
        | inr named ↦ rw named (elim (Option-cases (connection_for b (handle_all es s))) [
          | inl absent ↦ rw absent (inr (sym e ∙ absent))
          | inr (c, found) ↦ rw found (
            ground (arith, named, Eq_string.beq_iff b ""),
            sym e ∙ found,
            λ k. lookup-except k "broker" msg,
          )
        ])
      ]
