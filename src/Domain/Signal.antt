-- ===== src/Domain/Signal.antt =====
-- src/domain/signal_interface.py: the inbound signal, with the fields that the modelled code reads.
-- A field that the dataclass types as `float` holds a float; times are Unix milliseconds.
use bobis_quote_mt5_trading.Prelude.{ℕ, String, Option}

pub data SignalDirection : Type 0 where
  long short : SignalDirection

pub data BosDirection : Type 0 where
  bullish bearish : BosDirection

pub data CandlePattern : Type 0 where
  shooting_star hammer crt_buy crt_sell orb_long orb_short : CandlePattern
  bos_long bos_short fvg_long fvg_short unknown : CandlePattern

pub record HtfRange (F : Type 0) : Type 0 where
  pub range_high : F
  pub range_low : F
  pub bos_direction : BosDirection
  pub tp_level : F

pub record InboundSignal (F : Type 0) : Type 0 where
  pub id : String
  pub symbol : String
  pub direction : SignalDirection
  pub entry_price : F
  pub stop_loss : F
  pub tp1 : F
  pub tp2 : F
  pub risk_reward_ratio : F
  pub risk_pips : F
  pub htf_range : HtfRange F
  pub pattern : CandlePattern
  pub created_at : ℕ
  pub htf_interval : String
  pub ltf_interval : String
  pub triggered_at : Option ℕ
  pub resolved_symbol : Option String
  pub entry_type : String
  pub limit_expiry_seconds : Option ℕ
  pub setup_candle_open_at : Option ℕ
  pub setup_candle_close_at : Option ℕ
  pub emitted_at : Option ℕ
  pub received_at : Option ℕ
  pub queued_at : Option ℕ
  pub execution_started_at : Option ℕ
  pub order_sent_at : Option ℕ
  pub order_filled_at : Option ℕ
  pub trade_opened_at : Option ℕ
