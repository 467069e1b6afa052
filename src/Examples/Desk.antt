-- ===== src/Examples/Desk.antt =====
-- A broker that counts its calls, and the settings of the execution, for the runs of orders and polls.
use bobis_quote_mt5_trading.Prelude.{ℕ, zero, suc, ◌+◌, String, true, false, none, some, [], ◌∷◌}
use bobis_quote_mt5_trading.Prelude.Floats.{num, decimal}
use bobis_quote_mt5_trading.Config.{ExecutionConfig}
use bobis_quote_mt5_trading.Domain.Position.{Position, PositionSide}
use bobis_quote_mt5_trading.Brokers.{Broker, BrokerError, SendResult, accepted, rejected, found}
use bobis_quote_mt5_trading.Positions.Manager.{ManagerState}
use bobis_quote_mt5_trading.Positions.Manager.Poll.{Repository}
use bobis_quote_mt5_trading.Examples.Fixed.{Fixed, floats}
use bobis_quote_mt5_trading.Examples.Samples.{trade, symbol_info, tracker}

abbrev pub exec_config : ExecutionConfig Fixed
exec_config = record {
  tp1_trigger_pct = num 50;
  tp1_percentage = num 50;
  move_sl_to_be_on_tp1 = true;
  slippage = 10;
  magic = 7;
  spread_risk_multiplier = num 1;
  order_retry_count = 3;
  max_entry_slippage_pct_of_stop = decimal 2 1;
  close_on_slippage_exceed = true;
  breakeven_spread_multiplier = num 1;
  breakeven_max_buffer_pct_of_risk = num 20;
  adjust_levels_on_slippage = false;
  max_signal_age_ms = 120_000;
  tf_overrides = [];
  limit_order_expiry_seconds = 3600;
  use_limit_to_stop_fallback = true;
  use_gtc_fallback_on_invalid_expiration = true;
}

abbrev pub refusal : ℕ → BrokerError
refusal code = record { retcode = some code; autotrading_disabled = false }

abbrev pub position : Position Fixed
position = record {
  ticket = 77;
  symbol = "EURUSD";
  side = PositionSide.buy;
  lots = num 1;
  open_price = num 1;
  current_price = decimal 12 1;
  stop_loss = decimal 9 1;
  take_profit = decimal 13 1;
  open_time = 1;
}

-- The first order is refused for its stops, the second for want of money, and later ones are filled.
abbrev pub answer_to : ℕ → SendResult Fixed
answer_to zero = rejected (refusal 10016)
answer_to (suc zero) = rejected (refusal 10019)
answer_to n = accepted (record {
  ticket = 900;
  executed_price = num 1;
  volume = decimal 5 1;
  retcode = 10009;
  comment = "done";
})

-- The state counts the orders that were sent.
abbrev pub desk : Broker Fixed ℕ
desk = record {
  account_info = λ b. found (record { balance = num 1000; equity = num 1000 });
  symbol_info = λ b s. found symbol_info;
  current_tick = λ b s. found (record { bid = decimal 12 1; ask = decimal 1201 3 });
  open_positions = λ b. found (position ∷ []);
  open_order = λ b r. (answer_to b, b + 1);
  modify_position = λ b ticket sl tp. (true, b);
  close_position = λ b r. (true, b);
  calc_loss_per_lot = λ b s is_buy entry stop. none;
  deal_info = λ b ticket. found (some (decimal 9 1), some "SL");
}

abbrev pub repository : Repository Fixed
repository = record {
  load_by_ticket = λ saved ticket. none;
  load_open_trades = λ saved. found [];
  digits = λ n. "77";
}

abbrev pub manager_state : ManagerState Fixed ℕ String
manager_state = record {
  positions = ("t-0", trade) ∷ [];
  stub_miss_count = [];
  last_price = (77, decimal 95 2) ∷ [];
  daily = record { daily_loss_pct = num 1; loss_tracker = some tracker };
  metrics = record { counters = []; gauges = []; rejections = [] };
  broker = 0;
  saved = [];
  events = [];
}
