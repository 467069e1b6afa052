-- ===== src/Positions/Manager/Rescue.antt =====
-- PositionManager.emergency_close_all and hydrate_from_broker.
use bobis_quote_mt5_trading.Prelude.{
  ℕ, ◌+◌, ◌≡◌, ◌≢◌, ◌⊎◌, true, false, none, some, List, [], ◌∷◌, ◌++◌, if◌then◌else◌, Eq_nat,
}
use bobis_quote_mt5_trading.Prelude.Dict.{Dict, lookup, insert}
use bobis_quote_mt5_trading.Prelude.Floats.{Floats}
use bobis_quote_mt5_trading.Infra.Metrics.{increment}
use bobis_quote_mt5_trading.Domain.Trade.{Trade}
use bobis_quote_mt5_trading.Domain.Position.{Position, SymbolInfo, Tick}
use bobis_quote_mt5_trading.Brokers.{Broker, CloseRequest, Fetched, found, missing, raised}
use bobis_quote_mt5_trading.Positions.Store
use bobis_quote_mt5_trading.Positions.Store.{Store}
use bobis_quote_mt5_trading.Positions.Manager.{ManagerState}
use bobis_quote_mt5_trading.Positions.Manager.Tp1.{position_type, exit_price}
use bobis_quote_mt5_trading.Positions.Manager.Poll.{Repository, side_of, trade_stub_from_position}

-- How an emergency stop ends: it raises where the broker is out of reach or a close failed.
pub data Rescue : Type 0 where
  unreachable : Rescue
  ended : (errors : ℕ) → Rescue

module _ {F : Type 0} where
  abbrev pub rescue_request : Position F → Tick F → CloseRequest F
  rescue_request pos tick = record {
    ticket = pos.ticket;
    symbol = pos.symbol;
    side = position_type (side_of pos.side);
    volume = pos.lots;
    price = exit_price (side_of pos.side) tick;
    comment = "emergency-stop";
  }

module _ {F B R : Type 0} (api : Broker F B) where
  abbrev pub close_now : Position F → Tick F → ManagerState F B R → ℕ × ManagerState F B R
  close_now pos tick s =
      let answer = api.close_position s.broker (rescue_request pos tick) in
      if answer.0
      then (
        0,
        record s {
          broker = answer.1;
          metrics = increment "emergency_stop.positions_closed" 1 s.metrics;
        },
      )
      else (1, record s { broker = answer.1 })

  -- The body of the loop: the number of errors that it adds.
  unfoldable pub rescue : Position F → ManagerState F B R → ℕ × ManagerState F B R
  rescue pos s = elim (api.symbol_info s.broker pos.symbol) [
    | missing ↦ (1, s)
    | raised ↦ (1, s)
    | found si ↦ elim (api.current_tick s.broker pos.symbol) [
      | missing ↦ (1, s)
      | raised ↦ (1, s)
      | found tick ↦ close_now pos tick s
    ]
  ]

  unfoldable pub rescue_all : List (Position F) → ManagerState F B R → ℕ × ManagerState F B R
  rescue_all [] s = (0, s)
  rescue_all (pos ∷ rest) s =
      let first = rescue pos s in
      let others = rescue_all rest first.1 in (first.0 + others.0, others.1)

  unfoldable pub emergency_close_all : ManagerState F B R → Rescue × ManagerState F B R
  emergency_close_all s = elim (api.open_positions s.broker) [
    | missing ↦ (ended 0, s)
    | raised ↦ (unreachable, s)
    | found open_positions ↦ let all = rescue_all open_positions s in (ended all.0, all.1)
  ]

  -- How the positions fare one after the other, and with how many errors: one that has no symbol or no tick
  -- is an error, and so is one whose close the broker refuses. A close asks for all lots of the position
  -- at the tick's price, and is counted where the broker accepts it.
  pub data Tried
      : List (Position F) → ManagerState F B R → (errors : ℕ) → ManagerState F B R → Type 0 where
    over : {s : ManagerState F B R} → Tried [] s 0 s
    unpriced :
        {pos : Position F} {rest : List (Position F)} {s t : ManagerState F B R} {errors : ℕ}
        → (((si : SymbolInfo F) → api.symbol_info s.broker pos.symbol ≢ found si)
            ⊎ ((tick : Tick F) → api.current_tick s.broker pos.symbol ≢ found tick))
        → Tried rest s errors t
        → Tried (pos ∷ rest) s (1 + errors) t
    refused :
        {pos : Position F} {rest : List (Position F)} {s t : ManagerState F B R} {errors : ℕ}
        → (tick : Tick F) → api.current_tick s.broker pos.symbol ≡ found tick
        → (api.close_position s.broker (rescue_request pos tick)).0 ≡ false
        → Tried rest
            (record s { broker = (api.close_position s.broker (rescue_request pos tick)).1 })
            errors
            t
        → Tried (pos ∷ rest) s (1 + errors) t
    closed :
        {pos : Position F} {rest : List (Position F)} {s t : ManagerState F B R} {errors : ℕ}
        → (tick : Tick F) → api.current_tick s.broker pos.symbol ≡ found tick
        → (api.close_position s.broker (rescue_request pos tick)).0 ≡ true
        → Tried rest
            (record s {
              broker = (api.close_position s.broker (rescue_request pos tick)).1;
              metrics = increment "emergency_stop.positions_closed" 1 s.metrics;
            })
            errors
            t
        → Tried (pos ∷ rest) s errors t

module _ {F : Type 0} where
  -- `saved_by_ticket`: the last saved trade of a ticket is kept.
  unfoldable pub index_by_ticket : List (Trade F) → Dict ℕ (Trade F) → Dict ℕ (Trade F)
  index_by_ticket [] d = d
  index_by_ticket (t ∷ ts) d =
      index_by_ticket ts (elim t.entry_ticket [ none ↦ d | some ticket ↦ insert ticket t d ])

module _ {F : Type 0} ⦃fl : Floats F⦄ (repo : Repository F) (now : ℕ) where
  -- The trades to hold, and those that are saved on the way.
  unfoldable pub restored : Dict ℕ (Trade F) → List (Position F) → List (Trade F) × List (Trade F)
  restored index [] = ([], [])
  restored index (pos ∷ rest) =
      let others = restored index rest in
      elim (lookup pos.ticket index) [
        | some trade ↦ (
          (record trade { current_lots = pos.lots; stop_loss = pos.stop_loss }) ∷ others.0,
          others.1,
        )
        | none ↦
            let stub = trade_stub_from_position repo now pos in (stub ∷ others.0, stub ∷ others.1)
      ]

module _ {F : Type 0} where
  abbrev pub loaded : Fetched (List (Trade F)) → List (Trade F)
  loaded (found ts) = ts
  loaded missing = []
  loaded raised = []

module _ {F B R : Type 0} ⦃fl : Floats F⦄ (api : Broker F B) (repo : Repository F) (now : ℕ) where
  abbrev pub hydrate_with : List (Position F) → ManagerState F B R → ManagerState F B R
  hydrate_with open_positions s =
      let index = index_by_ticket (loaded (repo.load_open_trades s.saved)) [] in
      let trades = restored repo now index open_positions in
      record s { positions = Store.hydrate trades.0 s.positions; saved = s.saved ++ trades.1 }

  unfoldable pub hydrate_from_broker : ManagerState F B R → ManagerState F B R
  hydrate_from_broker s = elim (api.open_positions s.broker) [
    | missing ↦ s
    | raised ↦ s
    | found open_positions ↦ hydrate_with open_positions s
  ]
