-- ===== src/Risk/Rules.antt =====
-- src/risk/rules.py: what a rule is given and what it answers. A message is a constructor with what
-- is formatted into it. The trackers are objects that a rule may change, so a rule is given their
-- states and gives them back; `now` is the instant of the evaluation.
pub mod Memory
pub mod Live
pub mod All
pub mod Verdicts
use bobis_quote_mt5_trading.Prelude.{ℕ, String, Bool, true, false, Option, none, some, List, []}
use bobis_quote_mt5_trading.Prelude.Dict.{Dict}
use bobis_quote_mt5_trading.Config.{RiskConfig}
use bobis_quote_mt5_trading.Infra.Metrics.{Metrics}
use bobis_quote_mt5_trading.Domain.Signal.{InboundSignal, SignalDirection}
use bobis_quote_mt5_trading.Domain.Trade.{Trade, OrderSide}
use bobis_quote_mt5_trading.Domain.Position.{SymbolInfo}
use bobis_quote_mt5_trading.Risk.LossTracker.{LossTracker, PauseReason}
use bobis_quote_mt5_trading.Risk.ClusterTracker.{ClusterTracker, ClusterReason}
use bobis_quote_mt5_trading.Risk.EquityThrottle.{EquityThrottle}

-- A value of a result's data.
pub data Value (F : Type 0) : Type 0 where
  number : F → Value F
  text : String → Value F
  null : Value F

pub data RuleReason (F : Type 0) : Type 0 where
  no_reason : RuleReason F
  loss_guard : PauseReason F → (minutes : ℕ) → RuleReason F
  cluster : ClusterReason F → RuleReason F
  hedging : OrderSide → (trade_id symbol : String) → RuleReason F
  open_trades_reached : (effective max_open : ℕ) → RuleReason F
  symbol_exposure : (symbol : String) → (effective limit : ℕ) → RuleReason F
  duplicate_signal : (trade_id signal_id : String) → RuleReason F
  daily_loss_stop : (pct safety budget : F) → RuleReason F
  daily_loss_projection : (pct risk projected safety budget : F) → RuleReason F
  no_market_data invalid_prices invalid_pip_size zero_stop_distance negative_spread : RuleReason F
  bad_level : (beyond_stop : Bool) → SignalDirection → (fill level : F) → RuleReason F
  entry_drift : (pct max fill entry : F) → RuleReason F
  reward_risk : (actual minimum signal_rr : F) → RuleReason F
  spread_ratio : (ratio threshold spread sl : F) → RuleReason F

pub record RuleResult (F : Type 0) : Type 0 where
  pub approved : Bool
  pub reason : RuleReason F
  pub data_of : Dict String (Value F)

pub record RuleContext (F : Type 0) : Type 0 where
  pub signal : InboundSignal F
  pub open_trades : List (Trade F)
  pub config : RiskConfig F
  pub daily_loss_pct : F
  pub effective_open : ℕ
  pub effective_symbol : ℕ
  pub symbol_info : Option (SymbolInfo F)
  pub now : ℕ

-- The record that a rejection leaves in the metrics.
pub record Rejection (F : Type 0) : Type 0 where
  pub rule : String
  pub signal : InboundSignal F
  pub reason : RuleReason F
  pub broker_bid : Option F
  pub broker_ask : Option F
  pub broker_fill_price : Option F
  pub broker_spread : Option F
  pub data_of : Dict String (Value F)

pub record RiskState (F : Type 0) : Type 0 where
  pub loss_tracker : Option (LossTracker F)
  pub cluster_tracker : Option (ClusterTracker F)
  pub equity_throttle : Option (EquityThrottle F)
  pub metrics : Metrics F (Rejection F)

pub record Rule (F : Type 0) : Type 0 where
  pub name : String
  pub run : RuleContext F → RiskState F → RuleResult F × RiskState F

module _ {F : Type 0} where
  abbrev pub approve : RuleResult F
  approve = record { approved = true; reason = no_reason; data_of = [] }

  abbrev pub approve_with : Dict String (Value F) → RuleResult F
  approve_with d = record { approved = true; reason = no_reason; data_of = d }

  abbrev pub reject : RuleReason F → RuleResult F
  reject r = record { approved = false; reason = r; data_of = [] }

  abbrev pub reject_with : RuleReason F → Dict String (Value F) → RuleResult F
  reject_with r d = record { approved = false; reason = r; data_of = d }

  -- A rule that reads its context alone.
  abbrev pub reads :
      (RuleContext F → RuleResult F) → RuleContext F → RiskState F → RuleResult F × RiskState F
  reads f ctx s = (f ctx, s)
