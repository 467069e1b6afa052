-- ===== src/Strategies.antt =====
-- src/strategies/: adapters that rewrite a signal before it is executed, chosen by symbol or direction.
-- An adapter is what its method `adapt` computes; the names are those that `register` is given.
use bobis_quote_mt5_trading.Prelude.{
  String, false, Option, none, some, ◌==◌, Eq_string, Eq_option, beq_self, ◌≡◌, refl,
}
use bobis_quote_mt5_trading.Prelude.Dict.{Dict, lookup, insert, lookup-insert}
use bobis_quote_mt5_trading.Domain.Signal.{InboundSignal, SignalDirection, long, short}

-- signal.direction.value
abbrev direction_value : SignalDirection → String
direction_value long = "LONG"
direction_value short = "SHORT"

abbrev pub Adapter : Type 0 → Type 0
Adapter F = InboundSignal F → InboundSignal F

module _ {F : Type 0} where
  abbrev pub passthrough : Adapter F
  passthrough signal = signal

  unfoldable pub register :
      (key : String) → Adapter F → Dict String (Adapter F) → Dict String (Adapter F)
  register key adapter adapters = insert key adapter adapters

  abbrev or_else : Option (Adapter F) → Adapter F → Adapter F
  or_else none other = other
  or_else (some adapter) other = adapter

  abbrev by_symbol : Option String → Dict String (Adapter F) → Option (Adapter F)
  by_symbol none adapters = none
  by_symbol (some symbol) adapters = lookup symbol adapters

  unfoldable pub route : Dict String (Adapter F) → InboundSignal F → InboundSignal F
  route adapters signal =
      or_else (by_symbol signal.resolved_symbol adapters)
        (or_else (lookup (direction_value signal.direction) adapters) passthrough) signal

  -- A registered adapter gets the signals of its symbol.
  route-register_own :
      (key : String) (adapter : Adapter F) (adapters : Dict String (Adapter F))
      (signal : InboundSignal F)
      → signal.resolved_symbol ≡ some key
      → route (register key adapter adapters) signal ≡ adapter signal
  unfolding route register
  route-register_own key adapter adapters signal h =
      rw h (rw (lookup-insert key key adapter adapters) (rw (beq_self key) refl))

  -- A signal with neither this symbol nor this direction goes where it went before.
  route-register_other :
      (key : String) (adapter : Adapter F) (adapters : Dict String (Adapter F))
      (signal : InboundSignal F)
      → (symbol : String) → signal.resolved_symbol ≡ some symbol
      → (key == symbol) ≡ false
      → (key == direction_value signal.direction) ≡ false
      → route (register key adapter adapters) signal ≡ route adapters signal
  unfolding route register
  route-register_other key adapter adapters signal symbol h i j =
      rw
        (
          h,
          lookup-insert key symbol adapter adapters,
          lookup-insert key (direction_value signal.direction) adapter adapters,
          i,
          j,
        )
        refl
