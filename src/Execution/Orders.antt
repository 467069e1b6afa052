-- ===== src/Execution/Orders.antt =====
-- src/execution/order_manager.py. A call works on a state of its own, with the broker's state, the metrics
-- and the requests that it has sent so far; waiting between attempts is left out.
pub mod Market
pub mod Limit
pub mod Attempts
pub mod LimitAttempts
pub mod Stops
use bobis_quote_mt5_trading.Prelude.{
  ℕ, String, Bool, true, false, not, ◌&&◌, ◌||◌, Option, none, some, List, [], ◌∷◌, ◌++◌, ◌==◌, ◌*◌,
  if◌then◌else◌, Eq_nat, Eq_option,
}
use bobis_quote_mt5_trading.Prelude.Floats.{Floats, num, add, sub, mul, div, lt, fmin, fmax}
use bobis_quote_mt5_trading.Utils.Price.{normalise_lots}
use bobis_quote_mt5_trading.Infra.Metrics.{Metrics, increment}
use bobis_quote_mt5_trading.Domain.Trade.{OrderSide, buy, sell}
use bobis_quote_mt5_trading.Domain.Position.{SymbolInfo}
use bobis_quote_mt5_trading.Brokers.{BrokerError, OrderRequest, CloseRequest}

abbrev pub retcode_no_money : ℕ
retcode_no_money = 10019

abbrev pub retcode_invalid_stops : ℕ
retcode_invalid_stops = 10016

-- _RETRYABLE_RETCODES; no code is none of them.
unfoldable pub is_retryable : Option ℕ → Bool
is_retryable none = false
is_retryable (some c) = c == 10004 || c == 10006 || c == 10007 || c == 10016 || c == 10018

pub record Work (F B R : Type 0) : Type 0 where
  pub sl : F
  pub tp : F
  pub volume : F
  pub margin_halved : Bool
  pub last_error : Option BrokerError
  pub broker : B
  pub metrics : Metrics F R
  pub requests : List (OrderRequest F)
  pub closes : List (CloseRequest F)

-- After a rejected attempt: try again, or raise.
pub data Next (F B R : Type 0) : Type 0 where
  retry : Work F B R → Next F B R
  give_up : Work F B R → Next F B R

-- A predicate of a split on what a handler decided, from a fact about the decision.
pub Next_holds :
    {F B R C : Type 0} (P : C → Type 0) (Q : Next F B R → Type 0) (next : Next F B R)
    (f g : Work F B R → C)
    → ((w : Work F B R) → Q (retry w) → P (f w))
    → ((w : Work F B R) → Q (give_up w) → P (g w))
    → Q next
    → P (elim next [ retry w ↦ f w | give_up w ↦ g w ])
Next_holds P Q (retry w) f g hf hg q = hf w q
Next_holds P Q (give_up w) f g hf hg q = hg w q

module _ {F : Type 0} ⦃fl : Floats F⦄ where
  unfoldable pub widen_stops : OrderSide → (entry sl tp min_dist : F) → F × F
  widen_stops buy entry sl tp min_dist =
      (fmin sl (sub entry min_dist), fmax tp (add entry min_dist))
  widen_stops sell entry sl tp min_dist =
      (fmax sl (add entry min_dist), fmin tp (sub entry min_dist))

  unfoldable pub is_better_price : OrderSide → (executed planned : F) → Bool
  is_better_price buy executed planned = lt executed planned
  is_better_price sell executed planned = lt planned executed

  unfoldable pub halve : SymbolInfo F → F → F
  halve si volume = normalise_lots (div volume (num 2)) si.lot_step si.lot_min si.lot_max

module _ {F B R : Type 0} ⦃fl : Floats F⦄ (side : OrderSide) (si : SymbolInfo F) where
  -- The volume is halved once.
  unfoldable pub on_no_money : BrokerError → Work F B R → Next F B R
  on_no_money error w =
      let halved = halve si w.volume in
      if w.margin_halved || lt halved si.lot_min
      then give_up w
      else retry (record w {
        volume = halved;
        margin_halved = true;
        last_error = some error;
        metrics = increment "orders.margin_reduced" 1 w.metrics;
      })

  unfoldable pub widen : (price : F) → Work F B R → Work F B R
  widen price w =
      let stops = widen_stops side price w.sl w.tp (mul (num si.stops_level) si.point) in
      record w { sl = stops.0; tp = stops.1 }

  -- The handler of a RuntimeError; `is_last` is the test `attempt >= max_attempts`.
  unfoldable pub on_error : (is_last : Bool) → (price : F) → BrokerError → Work F B R → Next F B R
  on_error is_last price error w =
      let tried = record w {
        last_error = some error;
        metrics = increment "orders.retried" 1 w.metrics;
      } in
      if error.retcode == some retcode_no_money
      then on_no_money error w
      else if not (is_retryable error.retcode) || is_last
      then give_up w
      else if error.retcode == some retcode_invalid_stops
      then retry (widen price tried)
      else retry tried
