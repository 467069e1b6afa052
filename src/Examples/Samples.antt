-- ===== src/Examples/Samples.antt =====
-- A long signal on EURUSD, its trade, and the settings and states that the runs start from.
use bobis_quote_mt5_trading.Prelude.{◌/◌, ◌*◌, true, false, none, some, [], ◌∷◌}
use bobis_quote_mt5_trading.Prelude.Floats.{num, decimal}
use bobis_quote_mt5_trading.Config.{RiskConfig}
use bobis_quote_mt5_trading.Infra.Metrics.{Metrics}
use bobis_quote_mt5_trading.Domain.Signal.{InboundSignal, long, bullish, unknown}
use bobis_quote_mt5_trading.Domain.Trade.{TradePlan, Trade, OrderSide, opened}
use bobis_quote_mt5_trading.Domain.Position.{SymbolInfo}
use bobis_quote_mt5_trading.Risk.LossTracker.{LossTracker, Zone, no_reason}
use bobis_quote_mt5_trading.Risk.ClusterTracker.{ClusterGroupConfig, ClusterTracker}
use bobis_quote_mt5_trading.Risk.EquityThrottle.{EquityThrottle}
use bobis_quote_mt5_trading.Risk.Rules.{RuleContext, RiskState, Rejection}
use bobis_quote_mt5_trading.Examples.Fixed.{Fixed, floats}

abbrev pub signal : InboundSignal Fixed
signal = record {
  id = "sig-1";
  symbol = "EURUSD";
  direction = long;
  entry_price = decimal 11 1;
  stop_loss = num 1;
  tp1 = decimal 12 1;
  tp2 = decimal 14 1;
  risk_reward_ratio = num 3;
  risk_pips = num 1000;
  htf_range = record {
    range_high = num 2;
    range_low = num 1;
    bos_direction = bullish;
    tp_level = decimal 14 1;
  };
  pattern = unknown;
  created_at = 1;
  htf_interval = "H4";
  ltf_interval = "M15";
  triggered_at = none;
  resolved_symbol = some "EURUSD";
  entry_type = "market";
  limit_expiry_seconds = none;
  setup_candle_open_at = none;
  setup_candle_close_at = none;
  emitted_at = none;
  received_at = none;
  queued_at = none;
  execution_started_at = none;
  order_sent_at = none;
  order_filled_at = none;
  trade_opened_at = none;
}

abbrev pub plan : TradePlan Fixed
plan = record {
  signal_id = "sig-0";
  symbol = "EURUSD";
  side = OrderSide.buy;
  entry_price = decimal 10 1;
  stop_loss = decimal 9 1;
  tp1 = decimal 11 1;
  tp2 = decimal 13 1;
  lot_size = num 1;
  risk_amount = num 100;
  risk_percent = num 1;
  risk_reward_ratio = num 3;
  planned_at = 1;
  signal = none;
  tp1_lots = decimal 5 1;
  risk_multiplier = num 1;
}

abbrev pub trade : Trade Fixed
trade = record {
  id = "t-0";
  signal_id = "sig-0";
  symbol = "EURUSD";
  side = OrderSide.buy;
  status = opened;
  plan = plan;
  entry_ticket = some 77;
  entry_price = some (num 1);
  entry_lots = num 1;
  current_lots = num 1;
  tp1_lots = decimal 5 1;
  stop_loss = decimal 9 1;
  tp1 = decimal 11 1;
  tp2 = decimal 13 1;
  tp1_hit = false;
  tp1_hit_at = none;
  tp1_close_price = none;
  tp2_hit = false;
  tp2_hit_at = none;
  sl_hit = false;
  sl_hit_at = none;
  opened_at = some 1;
  closed_at = none;
  close_reason = none;
  close_price = none;
  realized_pnl = none;
  realized_rr = none;
  created_at = 1;
  updated_at = 1;
}

-- A later trade of the same symbol and side, with a higher stop.
abbrev pub second_trade : Trade Fixed
second_trade = record trade {
  id = "t-1";
  signal_id = "sig-1";
  entry_ticket = some 78;
  stop_loss = num 1;
}

abbrev pub config : RiskConfig Fixed
config = record {
  max_losing_streak = 3;
  max_daily_loss_percent = num 6;
  max_exposure_per_symbol = 2;
  min_rr_ratio = decimal 15 1;
  max_lot_size = num 10;
  min_lot_size = decimal 1 2;
  sl_ratio_threshold = decimal 3 1;
  symbol_sl_ratio_threshold = [];
  symbol_risk_multiplier = [];
  no_hedging = true;
  entry_drift = record { enabled = true; max_drift_pct_of_risk = num 30 };
  balance_tier_base_threshold = num 1000;
  balance_tier_base_cap_pct = num 8;
  balance_tier_floor_pct = num 1;
}

abbrev pub symbol_info : SymbolInfo Fixed
symbol_info = record {
  symbol = "EURUSD";
  digits = 4;
  point = decimal 1 4;
  tick_size = decimal 1 4;
  tick_value = num 10;
  lot_min = decimal 1 2;
  lot_max = num 100;
  lot_step = decimal 1 2;
  ask = decimal 1101 3;
  bid = decimal 11 1;
  filling_mode = 1;
  stops_level = 0;
  freeze_level = 0;
  volume_step = decimal 1 2;
}

-- Days of 24 hours, from the epoch.
abbrev pub utc : Zone
utc = record { date = λ t. t / 86_400_000; midnight = λ d. d * 86_400_000 }

-- Days of 25 hours.
abbrev pub long_days : Zone
long_days = record { date = λ t. t / 90_000_000; midnight = λ d. d * 90_000_000 }

abbrev pub tracker : LossTracker Fixed
tracker = record {
  limit = num 6;
  tz = utc;
  max_profit_drawdown = num 20;
  rolling_window_size = 5;
  rolling_drawdown_pct = num 10;
  current_pct = num 0;
  start_of_day_equity = num 0;
  tracked_day = none;
  paused_until = 0;
  pause_reason = no_reason;
  session_closed_pnl = num 0;
  session_closed_peak = num 0;
  profit_drawback_pct = num 0;
  equity_window = [];
  equity_peak = num 0;
}

abbrev pub group : ClusterGroupConfig Fixed
group = record {
  name = "majors";
  symbols = "EURUSD" ∷ "GBPUSD" ∷ [];
  max_same_day_loss_r = num 2;
  max_concurrent_positions = 2;
  max_same_day_losses = 2;
  after_first_loss_risk_multiplier = decimal 5 1;
  min_trade_risk_multiplier = decimal 25 2;
}

abbrev pub cluster_tracker : ClusterTracker Fixed
cluster_tracker = record {
  config = record { enabled = true; groups = group ∷ [] };
  date = utc.date;
  states = [];
}

abbrev pub throttle : EquityThrottle Fixed
throttle = record {
  config = record {
    enabled = true;
    drawdown_threshold_r = num 6;
    release_threshold_r = num 3;
    risk_multiplier = decimal 5 1;
    window_days = 30;
  };
  window = [];
  engaged = false;
  dd_r = num 0;
}

abbrev pub metrics : Metrics Fixed (Rejection Fixed)
metrics = record { counters = []; gauges = []; rejections = [] }

abbrev pub context : RuleContext Fixed
context = record {
  signal = signal;
  open_trades = trade ∷ [];
  config = config;
  daily_loss_pct = num 1;
  effective_open = 1;
  effective_symbol = 1;
  symbol_info = some symbol_info;
  now = 1000;
}

abbrev pub risk_state : RiskState Fixed
risk_state = record {
  loss_tracker = some tracker;
  cluster_tracker = some cluster_tracker;
  equity_throttle = some throttle;
  metrics = metrics;
}
