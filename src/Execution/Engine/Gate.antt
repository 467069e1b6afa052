-- ===== src/Execution/Engine/Gate.antt =====
-- ExecutionEngine.execute up to the reservation: the checks that a signal passes before a trade is planned.
use bobis_quote_mt5_trading.Prelude.{
  ℕ, ◌+◌, ◌*◌, String, Bool, true, false, not, ◌||◌, Option, none, some, List, length, ltb, keep,
  ◌==◌, if◌then◌else◌, Eq_string, Eq_option,
}
use bobis_quote_mt5_trading.Prelude.Dict.{lookup}
use bobis_quote_mt5_trading.Prelude.Floats.{Floats, lt}
use bobis_quote_mt5_trading.Config.{ExecutionConfig, RiskConfig}
use bobis_quote_mt5_trading.Domain.Signal.{InboundSignal, SignalDirection, long, short}
use bobis_quote_mt5_trading.Domain.Trade.{Trade, OrderSide}
use bobis_quote_mt5_trading.Domain.Position.{SymbolInfo, AccountInfo}
use bobis_quote_mt5_trading.Brokers.{Broker, found, missing, raised}
use bobis_quote_mt5_trading.Positions.Store.{get_open_trades, get_by_signal_id, first}
use bobis_quote_mt5_trading.Positions.SlCascade.{same_side}
use bobis_quote_mt5_trading.Risk.ClusterTracker.{reserve_signal}
use bobis_quote_mt5_trading.Risk.Rules.{RuleContext, RiskState, Rule}
use bobis_quote_mt5_trading.Risk.Engine.{
  RiskDecision, Outcome, decided, raised_no_rules, raised_no_number, evaluate, risk_multiplier,
  float_of,
}
use bobis_quote_mt5_trading.Execution.Engine.{
  EngineState, EngineEvent, pending_total, pending_for, reserve, contains, actionable_signal_at,
  refuse, count,
}

abbrev pub side_of_direction : SignalDirection → OrderSide
side_of_direction long = OrderSide.buy
side_of_direction short = OrderSide.sell

-- `signal.resolved_symbol`, which the dispatch sets; None compares with nothing.
abbrev pub symbol_of : {F : Type 0} → InboundSignal F → String
symbol_of signal = elim signal.resolved_symbol [ none ↦ "" | some symbol ↦ symbol ]

module _ {F : Type 0} where
  -- Older than the flat limit and one period of the higher timeframe together.
  unfoldable pub is_stale : (max_signal_age_ms minutes now : ℕ) → InboundSignal F → Bool
  is_stale max_signal_age_ms minutes now signal = elim (actionable_signal_at signal) [
    | none ↦ false
    | some at ↦ ltb (at + (max_signal_age_ms + minutes * 60_000)) now
  ]

module _ {F : Type 0} ⦃fl : Floats F⦄ where
  abbrev pub has_moved : OrderSide → (price entry : F) → Bool
  has_moved OrderSide.buy price entry = lt entry price
  has_moved OrderSide.sell price entry = lt price entry

  abbrev pub close_quote : OrderSide → SymbolInfo F → F
  close_quote OrderSide.buy si = si.bid
  close_quote OrderSide.sell si = si.ask

  -- An open trade of the symbol and side that is not in profit.
  unfoldable pub blocks : InboundSignal F → SymbolInfo F → Trade F → Bool
  blocks signal si trade =
      let side = side_of_direction signal.direction in
      if not (some trade.symbol == signal.resolved_symbol) || not (same_side trade.side side)
      then false
      else elim trade.entry_price [
        | none ↦ false
        | some entry ↦ not (has_moved side (close_quote side si) entry)
      ]

  unfoldable pub unprofitable_stacked_trade :
      List (Trade F) → InboundSignal F → SymbolInfo F → Option (Trade F)
  unprofitable_stacked_trade open_trades signal si = first (blocks signal si) open_trades

module _ {F B : Type 0} where
  unfoldable pub is_duplicate : InboundSignal F → EngineState F B → Bool
  is_duplicate signal s =
      contains signal.id s.pending_signal_ids
      || (elim (get_by_signal_id signal.id s.positions) [ none ↦ false | some t ↦ true ])

-- What the checks end with: a refusal, an exception, or the multiplier of the risk.
pub data Admission (F : Type 0) : Type 0 where
  refused crashed : Admission F
  admitted : SymbolInfo F → AccountInfo F → (risk_multiplier : F) → Admission F

module _ {F : Type 0} ⦃fl : Floats F⦄ (now : ℕ) (signal : InboundSignal F) where
  abbrev pub reserve_cluster : F → RiskState F → RiskState F
  reserve_cluster planned r = record r {
    cluster_tracker = elim r.cluster_tracker [
      | none ↦ none
      | some c ↦ some (reserve_signal now signal planned c)
    ];
  }

module _ {F : Type 0} ⦃fl : Floats F⦄ where
  -- `decision.data.get("planned_cluster_risk_r", risk_multiplier)` as a float.
  abbrev pub planned_risk_of : RiskDecision F → F → Option F
  planned_risk_of d multiplier = elim (lookup "planned_cluster_risk_r" d.data_of) [
    | none ↦ some multiplier
    | some v ↦ float_of v
  ]

module _ {F B : Type 0} ⦃fl : Floats F⦄ (rules : List (Rule F)) (risk_config : RiskConfig F)
    (now : ℕ) (signal : InboundSignal F) where
  abbrev pub context_of : SymbolInfo F → EngineState F B → RuleContext F
  context_of si s =
      let open_trades = get_open_trades s.positions in
      record {
        signal = signal;
        open_trades = open_trades;
        config = risk_config;
        daily_loss_pct = s.daily_loss_pct;
        effective_open = length open_trades + pending_total s;
        effective_symbol =
            length (keep (λ t. some t.symbol == signal.resolved_symbol) open_trades)
            + pending_for (symbol_of signal) s;
        symbol_info = some si;
        now = now;
      }

  -- Both reservations: in the cluster, and in the engine.
  unfoldable pub hold : F → EngineState F B → EngineState F B
  hold planned s =
      reserve (symbol_of signal) signal.id
        (record s { risk = reserve_cluster now signal planned s.risk })

  unfoldable pub on_decision :
      AccountInfo F
      → SymbolInfo F
      → RiskDecision F
      → EngineState F B
      → Admission F × EngineState F B
  on_decision account si d s =
      if d.approved
      then (elim (risk_multiplier d) [
        | none ↦ (crashed, s)
        | some multiplier ↦ elim (planned_risk_of d multiplier) [
          | none ↦ (crashed, s)
          | some planned ↦ (admitted si account multiplier, hold planned s)
        ]
      ])
      else (refused, refuse signal now (EngineEvent.rule_rejected d.reason) s)

  abbrev pub on_outcome :
      AccountInfo F
      → SymbolInfo F
      → EngineState F B
      → Outcome F × RiskState F
      → Admission F × EngineState F B
  on_outcome account si s (decided d, r) = on_decision account si d (record s { risk = r })
  on_outcome account si s (raised_no_rules, r) = (crashed, record s { risk = r })
  on_outcome account si s (raised_no_number, r) = (crashed, record s { risk = r })

  unfoldable pub judge :
      AccountInfo F → SymbolInfo F → EngineState F B → Admission F × EngineState F B
  judge account si s =
      let decision = on_outcome account si s (evaluate rules (context_of si s) s.risk) in
      let stacked = unprofitable_stacked_trade (get_open_trades s.positions) signal si in
      if is_duplicate signal s
      then (
        refused,
        refuse signal now (EngineEvent.risk_rejected "duplicate_signal")
            (count "signal.duplicates_ignored" s),
      )
      else elim stacked [
        | some blocking ↦ (
          refused,
          refuse signal now (EngineEvent.risk_rejected "existing_position_not_profitable")
              (count "signal.stacking_rejected_unprofitable" s),
        )
        | none ↦ decision
      ]

module _ {F B : Type 0} ⦃fl : Floats F⦄ (api : Broker F B) (exec : ExecutionConfig F)
    (rules : List (Rule F)) (risk_config : RiskConfig F) (now minutes : ℕ)
    (signal : InboundSignal F) where
  abbrev pub unavailable : EngineState F B → Admission F × EngineState F B
  unavailable s = (refused, refuse signal now (EngineEvent.trade_error "broker_unavailable") s)

  unfoldable pub fetch_and_judge : EngineState F B → Admission F × EngineState F B
  fetch_and_judge s = elim (api.account_info s.broker) [
    | missing ↦ unavailable s
    | raised ↦ unavailable s
    | found account ↦ elim (api.symbol_info s.broker (symbol_of signal)) [
      | missing ↦ unavailable s
      | raised ↦ unavailable s
      | found si ↦ judge rules risk_config now signal account si s
    ]
  ]

  unfoldable pub admit : EngineState F B → Admission F × EngineState F B
  admit s =
      let fresh = fetch_and_judge s in
      if is_stale exec.max_signal_age_ms minutes now signal
      then (
        refused,
        refuse signal now (EngineEvent.risk_rejected "stale_signal")
            (count "signal.stale_rejected" s),
      )
      else fresh
