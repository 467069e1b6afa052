-- ===== src/Brokers.antt =====
-- The calls of src/brokers/mt5/ that the other parts make, as an interface over the broker's state `B`.
-- The calls go on to the MetaTrader 5 library, which is outside; any of them may raise.
pub mod Mt5
use bobis_quote_mt5_trading.Prelude.{ℕ, String, Bool, Option, List}
use bobis_quote_mt5_trading.Domain.Position.{Position, SymbolInfo, AccountInfo, Tick}

-- What a query gives: a value, Python's None, or an exception.
pub data Fetched (A : Type 0) : Type 0 where
  found : A → Fetched A
  missing raised : Fetched A

-- A predicate of a split, from its cases.
pub Fetched_holds :
    {A C : Type 0} (P : C → Type 0) (q : Fetched A) (f : A → C) (m r : C)
    → ((a : A) → P (f a))
    → P m
    → P r
    → P (elim q [ found a ↦ f a | missing ↦ m | raised ↦ r ])
Fetched_holds P (found a) f m r hf hm hr = hf a
Fetched_holds P missing f m r hf hm hr = hm
Fetched_holds P raised f m r hf hm hr = hr

pub data OrderType : Type 0 where
  buy sell buy_limit sell_limit buy_stop sell_stop : OrderType

-- What a caller reads in an exception: the code that stands after `retcode=`, if any, and whether the
-- text says that automatic trading is off.
pub record BrokerError : Type 0 where
  pub retcode : Option ℕ
  pub autotrading_disabled : Bool

pub record OrderRequest (F : Type 0) : Type 0 where
  pub symbol : String
  pub order_type : OrderType
  pub volume : F
  pub price : F
  pub sl : F
  pub tp : F
  pub expiry_seconds : Option ℕ
  pub use_gtc : Bool

pub record OrderResult (F : Type 0) : Type 0 where
  pub ticket : ℕ
  pub executed_price : F
  pub volume : F
  pub retcode : ℕ
  pub comment : String

-- `rejected` is a RuntimeError, `broken` any other exception.
pub data SendResult (F : Type 0) : Type 0 where
  accepted : OrderResult F → SendResult F
  rejected broken : BrokerError → SendResult F

pub SendResult_holds :
    {F C : Type 0} (P : C → Type 0) (q : SendResult F) (f : OrderResult F → C)
    (g h : BrokerError → C)
    → ((r : OrderResult F) → P (f r))
    → ((e : BrokerError) → P (g e))
    → ((e : BrokerError) → P (h e))
    → P (elim q [ accepted r ↦ f r | rejected e ↦ g e | broken e ↦ h e ])
SendResult_holds P (accepted r) f g h hf hg hh = hf r
SendResult_holds P (rejected e) f g h hf hg hh = hg e
SendResult_holds P (broken e) f g h hf hg hh = hh e

pub record CloseRequest (F : Type 0) : Type 0 where
  pub ticket : ℕ
  pub symbol : String
  pub side : OrderType
  pub volume : F
  pub price : F
  pub comment : String

-- A call that changes something says whether it succeeded.
pub record Broker (F B : Type 0) : Type 0 where
  pub account_info : B → Fetched (AccountInfo F)
  pub symbol_info : B → String → Fetched (SymbolInfo F)
  pub current_tick : B → String → Fetched (Tick F)
  pub open_positions : B → Fetched (List (Position F))
  pub open_order : B → OrderRequest F → SendResult F × B
  pub modify_position : B → ℕ → (sl tp : F) → Bool × B
  pub close_position : B → CloseRequest F → Bool × B
  pub calc_loss_per_lot : B → String → (is_buy : Bool) → (entry stop : F) → Option F
  -- the price and the reason ("SL", "TP" or none) of the deal that closed a ticket
  pub deal_info : B → ℕ → Fetched (Option F × Option String)
