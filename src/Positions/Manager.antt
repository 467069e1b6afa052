-- ===== src/Positions/Manager.antt =====
-- src/positions/manager.py: the poll that follows open positions. The events that it emits and the trades
-- that it saves are lists, in order; a failed save is logged by the repository and goes on. One reading of
-- the clock serves a whole poll; the thread that polls is not modelled.
pub mod Breakeven
pub mod Closing
pub mod Verdict
pub mod Once
pub mod Protection
pub mod Tp1
pub mod Marking
pub mod Poll
pub mod Kept
pub mod Rescue
use bobis_quote_mt5_trading.Prelude.{
  ℕ, String, Bool, false, true, Option, none, some, List, if◌then◌else◌, ◌||◌,
}
use bobis_quote_mt5_trading.Prelude.Dict.{Dict}
use bobis_quote_mt5_trading.Prelude.Floats.{Floats, num, sub, div, le, lt, eq, truthy}
use bobis_quote_mt5_trading.Infra.Metrics.{Metrics}
use bobis_quote_mt5_trading.Domain.Trade.{Trade, OrderSide, buy, sell}
use bobis_quote_mt5_trading.Positions.Store.{Store}
use bobis_quote_mt5_trading.Execution.DailyLoss.{DailyLoss}
use text.Mathlib.Text.{starts_with}

pub data ManagerEvent (F : Type 0) : Type 0 where
  tp1_hit tp2_hit sl_hit trade_closed : Trade F → ManagerEvent F

pub record ManagerState (F B R : Type 0) : Type 0 where
  pub positions : Store F
  pub stub_miss_count : Dict String ℕ
  pub last_price : Dict ℕ F
  pub daily : DailyLoss F
  pub metrics : Metrics F R
  pub broker : B
  pub saved : List (Trade F)
  pub events : List (ManagerEvent F)

abbrev pub stub_miss_limit : ℕ
stub_miss_limit = 3

module _ {F : Type 0} where
  unfoldable pub is_stub : Trade F → Bool
  is_stub trade = starts_with trade.id "STUB_"

-- The comparisons of the two sides: the price reached the level in the trade's favour, or against it.
module _ {F : Type 0} ⦃fl : Floats F⦄ where
  unfoldable pub reached : OrderSide → (price level : F) → Bool
  reached buy price level = le level price
  reached sell price level = le price level

  unfoldable pub stopped : OrderSide → (price level : F) → Bool
  stopped buy price level = le price level
  stopped sell price level = le level price

  unfoldable pub reward_over_risk : (risk reward : F) → F
  reward_over_risk risk reward = if le risk (num 0) then num 0 else div reward risk

  unfoldable pub rr_between : OrderSide → (entry initial_sl close_price : F) → F
  rr_between buy entry initial_sl close_price =
      reward_over_risk (sub entry initial_sl) (sub close_price entry)
  rr_between sell entry initial_sl close_price =
      reward_over_risk (sub initial_sl entry) (sub entry close_price)

  unfoldable pub calculate_realized_rr : Trade F → F → F
  calculate_realized_rr trade close_price = elim trade.entry_price [
    | none ↦ num 0
    | some entry ↦
        if eq entry (num 0) || eq trade.plan.stop_loss entry
        then num 0
        else rr_between trade.side entry trade.plan.stop_loss close_price
  ]

  unfoldable pub beats : OrderSide → (close entry : F) → Bool
  beats buy close entry = lt entry close
  beats sell close entry = lt close entry

  unfoldable pub is_profitable_close : Trade F → Bool
  is_profitable_close trade = elim trade.entry_price [
    | none ↦ false
    | some entry ↦ elim trade.close_price [
      | none ↦ false
      | some close ↦ beats trade.side close entry
    ]
  ]

  unfoldable pub is_losing_close : Trade F → Bool
  is_losing_close trade = elim trade.entry_price [
    | none ↦ false
    | some entry ↦ elim trade.close_price [
      | none ↦ false
      | some close ↦ beats trade.side entry close
    ]
  ]
