-- ===== src/Domain/Trade.antt =====
-- src/domain/trade.py: plans and trades. `opened` is the status OPEN.
use bobis_quote_mt5_trading.Prelude.{ℕ, String, Bool, Option}
use bobis_quote_mt5_trading.Domain.Signal.{InboundSignal}

pub data OrderSide : Type 0 where
  buy sell : OrderSide

pub data TradeStatus : Type 0 where
  planned opened partially_closed closed cancelled error : TradeStatus

pub data CloseReason : Type 0 where
  tp1_hit tp2_hit sl_hit manual invalidated expired error closed_while_down unknown : CloseReason

pub record TradePlan (F : Type 0) : Type 0 where
  pub signal_id : String
  pub symbol : String
  pub side : OrderSide
  pub entry_price : F
  pub stop_loss : F
  pub tp1 : F
  pub tp2 : F
  pub lot_size : F
  pub risk_amount : F
  pub risk_percent : F
  pub risk_reward_ratio : F
  pub planned_at : ℕ
  pub signal : Option (InboundSignal F)
  pub tp1_lots : F
  pub risk_multiplier : F

pub record Trade (F : Type 0) : Type 0 where
  pub id : String
  pub signal_id : String
  pub symbol : String
  pub side : OrderSide
  pub status : TradeStatus
  pub plan : TradePlan F
  pub entry_ticket : Option ℕ
  pub entry_price : Option F
  pub entry_lots : F
  pub current_lots : F
  pub tp1_lots : F
  pub stop_loss : F
  pub tp1 : F
  pub tp2 : F
  pub tp1_hit : Bool
  pub tp1_hit_at : Option ℕ
  pub tp1_close_price : Option F
  pub tp2_hit : Bool
  pub tp2_hit_at : Option ℕ
  pub sl_hit : Bool
  pub sl_hit_at : Option ℕ
  pub opened_at : Option ℕ
  pub closed_at : Option ℕ
  pub close_reason : Option CloseReason
  pub close_price : Option F
  pub realized_pnl : Option F
  pub realized_rr : Option F
  pub created_at : ℕ
  pub updated_at : ℕ
