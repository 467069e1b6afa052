-- ===== src/Domain/Position.antt =====
-- src/domain/position.py: what the broker reports. Fields that no modelled code reads are left out.
use bobis_quote_mt5_trading.Prelude.{ℕ, String}

pub data PositionSide : Type 0 where
  buy sell : PositionSide

pub record Position (F : Type 0) : Type 0 where
  pub ticket : ℕ
  pub symbol : String
  pub side : PositionSide
  pub lots : F
  pub open_price : F
  pub current_price : F
  pub stop_loss : F
  pub take_profit : F
  pub open_time : ℕ

-- A resting order; `expiration` is 0 where the broker reports none.
pub record PendingOrder (F : Type 0) : Type 0 where
  pub ticket : ℕ
  pub symbol : String
  pub side : PositionSide
  pub lots : F
  pub price : F
  pub stop_loss : F
  pub take_profit : F
  pub setup_time : ℕ
  pub expiration : ℕ

pub record SymbolInfo (F : Type 0) : Type 0 where
  pub symbol : String
  pub digits : ℕ
  pub point : F
  pub tick_size : F
  pub tick_value : F
  pub lot_min : F
  pub lot_max : F
  pub lot_step : F
  pub ask : F
  pub bid : F
  pub filling_mode : ℕ
  pub stops_level : ℕ
  pub freeze_level : ℕ
  pub volume_step : F

pub record AccountInfo (F : Type 0) : Type 0 where
  pub balance : F
  pub equity : F

-- A tick of the broker's API: its two prices.
pub record Tick (F : Type 0) : Type 0 where
  pub bid : F
  pub ask : F
