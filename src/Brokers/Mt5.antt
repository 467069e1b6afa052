-- ===== src/Brokers/Mt5.antt =====
-- src/brokers/mt5/: the adapters of the MetaTrader 5 package. The package is outside the repository:
-- `Terminal` is an interface of its calls over a state `T`, each of which may move the state on. A
-- method is a call on the session: a result or an exception, and the session it leaves, also after a
-- raise.

pub mod Client
pub mod Orders
pub mod Positions
use bobis_quote_mt5_trading.Prelude.{ℕ, String, Bool, Option, List, true, false, ◌≡◌, refl}
use bobis_quote_mt5_trading.Prelude.Dict.{Dict}
use bobis_quote_mt5_trading.Infra.Metrics.{Metrics}
use bobis_quote_mt5_trading.Domain.Position.{AccountInfo}
use bobis_quote_mt5_trading.Brokers.{OrderType, Fetched}

pub data TradeAction : Type 0 where
  deal pending sltp remove : TradeAction

pub data OrderTypeTime : Type 0 where
  gtc specified : OrderTypeTime

-- The dict that order_send takes; a key that it does not have is `none`.
pub record TradeRequest (F : Type 0) : Type 0 where
  pub action : TradeAction
  pub symbol : Option String
  pub volume : Option F
  pub order_type : Option OrderType
  pub price : Option F
  pub sl : Option F
  pub tp : Option F
  pub position : Option ℕ
  pub order : Option ℕ
  pub deviation : Option ℕ
  pub magic : Option ℕ
  pub comment : Option String
  pub type_filling : Option ℕ
  pub type_time : Option OrderTypeTime
  pub expiration : Option ℕ

pub record SendAnswer (F : Type 0) : Type 0 where
  pub retcode : ℕ
  pub order : ℕ
  pub price : F
  pub volume : F
  pub comment : String

pub record RawTick (F : Type 0) : Type 0 where
  pub bid : F
  pub ask : F
  pub time : F
  pub time_msc : F

pub record RawSymbol (F : Type 0) : Type 0 where
  pub name : String
  pub visible : Bool
  pub digits : ℕ
  pub point : F
  pub trade_tick_size : F
  pub trade_tick_value : F
  pub volume_min : F
  pub volume_max : F
  pub volume_step : F
  pub filling_mode : ℕ
  pub trade_stops_level : ℕ
  pub trade_freeze_level : ℕ

pub record RawPosition (F : Type 0) : Type 0 where
  pub ticket : ℕ
  pub symbol : String
  pub is_buy : Bool
  pub volume : F
  pub price_open : F
  pub price_current : F
  pub sl : F
  pub tp : F
  pub profit : F
  pub time : ℕ
  pub magic : ℕ

pub record RawOrder (F : Type 0) : Type 0 where
  pub ticket : ℕ
  pub symbol : String
  pub order_type : OrderType
  pub volume_current : F
  pub price_open : F
  pub sl : F
  pub tp : F
  pub time_setup : ℕ
  pub time_expiration : ℕ
  pub magic : ℕ

pub data DealEntry : Type 0 where
  entry_in entry_out entry_inout entry_out_by : DealEntry

pub data DealReason : Type 0 where
  reason_sl reason_tp reason_other : DealReason

pub record Deal (F : Type 0) : Type 0 where
  pub position_id : ℕ
  pub entry : DealEntry
  pub reason : DealReason
  pub price : F
  pub profit : F
  pub swap : F
  pub commission : F
  pub magic : ℕ

-- The package. A list that it gives as None is empty to the code that reads it; of the queries only
-- history_deals_get is caught where it raises. Times are Unix seconds.
pub record Terminal (F T : Type 0) : Type 0 where
  pub initialize : T → Bool × T
  pub login : T → Bool × T
  pub shutdown : T → T
  -- whether the terminal is connected to the broker, if it answers
  pub terminal_info : T → Option Bool × T
  -- a symbol may be asked for by None
  pub symbol_info : Option String → T → Option (RawSymbol F) × T
  pub symbols_get : T → List String × T
  pub symbol_select : Option String → T → Bool × T
  pub symbol_info_tick : Option String → T → Option (RawTick F) × T
  pub order_send : TradeRequest F → T → Option (SendAnswer F) × T
  pub order_calc_profit : (is_buy : Bool) → String → (lots entry exit : F) → T → Option F × T
  pub positions_get : T → List (RawPosition F) × T
  pub orders_get : T → List (RawOrder F) × T
  pub history_deals_get : (since until : F) → T → Fetched (List (Deal F)) × T
  pub account_info : T → Option (AccountInfo F) × T
  pub now : T → F
  pub sleep : ℕ → T → T

pub record Mt5Config : Type 0 where
  pub login : ℕ
  pub symbol_aliases : Dict String String

pub data ConnectFailure : Type 0 where
  initialize_failed login_failed : ConnectFailure

-- The client's attributes, the cache of symbols, the program's metrics, and the terminal.
pub record Session (F R T : Type 0) : Type 0 where
  pub terminal : T
  pub connected : Bool
  pub broker_utc_offset_hours : F
  pub last_error : Option (ConnectFailure × F)
  pub symbol_cache : Dict String String
  pub metrics : Metrics F R

-- A ConnectionError, a RuntimeError with the code that stands after `retcode=`, if any, and the
-- AttributeError of a field of None.
pub data Mt5Error : Type 0 where
  connection_error attribute_error : Mt5Error
  runtime_error : Option ℕ → Mt5Error

pub data Result (A : Type 0) : Type 0 where
  ok : A → Result A
  err : Mt5Error → Result A

-- A method of an object with state `S`.
abbrev pub Call : (S A : Type 0) → Type 0
Call S A = S → Result A × S

module _ {S : Type 0} where
  -- What follows a call, unless it raised.
  abbrev pub after : {A B : Type 0} → Result A × S → (A → Call S B) → Result B × S
  after (ok a, s) f = f a s
  after (err e, s) f = (err e, s)

  infixl 5 ◌>>=◌ ◌>>◌
  abbrev pub ◌>>=◌ : {A B : Type 0} → Call S A → (A → Call S B) → Call S B
  ◌>>=◌ m f s = after (m s) f

  abbrev pub ◌>>◌ : {A B : Type 0} → Call S A → Call S B → Call S B
  m >> k = m >>= λ _. k

  abbrev pub pure : {A : Type 0} → A → Call S A
  pure a s = (ok a, s)

  abbrev pub raise : {A : Type 0} → Mt5Error → Call S A
  raise e s = (err e, s)

  abbrev pub modify : (S → S) → Call S (Unit {0})
  modify f s = (ok tt, f s)

  abbrev pub reads : {A : Type 0} → (S → A) → Call S A
  reads f s = (ok (f s), s)

  -- if not done: m
  abbrev pub unless : (done : Bool) → Call S (Unit {0}) → Call S (Unit {0})
  unless true m s = (ok tt, s)
  unless false m s = m s

  pub unless_holds :
      (P : Result (Unit {0}) × S → Type 0) (b : Bool) (m : Call S (Unit {0})) (s : S)
      → ((b ≡ true) → P (ok tt, s))
      → ((b ≡ false) → P (m s))
      → P (unless b m s)
  unless_holds P true m s h k = h refl
  unless_holds P false m s h k = k refl

  -- A predicate of a call and what follows it, from one of the call alone.
  pub after_holds :
      {A B : Type 0} (Q : Result A × S → Type 0) (P : Result B × S → Type 0) (r : Result A × S)
      (f : A → Call S B)
      → Q r
      → ((a : A) (s : S) → Q (ok a, s) → P (f a s))
      → ((e : Mt5Error) (s : S) → Q (err e, s) → P (err e, s))
      → P (after r f)
  after_holds Q P (ok a, s) f q h k = h a s q
  after_holds Q P (err e, s) f q h k = k e s q

module _ {F R T : Type 0} where
  -- A call of the package.
  abbrev pub ask : {A : Type 0} → (T → A × T) → Call (Session F R T) A
  ask g s = (ok (g s.terminal).0, record s { terminal = (g s.terminal).1 })

  abbrev pub tell : (T → T) → Call (Session F R T) (Unit {0})
  tell g s = (ok tt, record s { terminal = g s.terminal })
