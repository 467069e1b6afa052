-- ===== src/Positions/Manager/Closing.antt =====
-- PositionManager._handle_position_gone: why and at what price a position closed.
use bobis_quote_mt5_trading.Prelude.{
  ℕ, String, Bool, false, true, not, ◌&&◌, ◌||◌, Option, none, some, List, [], ◌∷◌, ◌++◌, length,
  ◌==◌, if◌then◌else◌, Eq_string, Eq_nat,
}
use bobis_quote_mt5_trading.Prelude.Dict.{lookup, remove}
use bobis_quote_mt5_trading.Prelude.Floats.{Floats, num, lt, truthy}
use bobis_quote_mt5_trading.Infra.Metrics.{Metrics, increment, set_gauge}
use bobis_quote_mt5_trading.Domain.Trade.{Trade, TradeStatus, CloseReason}
use bobis_quote_mt5_trading.Brokers.{Fetched, found, missing, raised}
use bobis_quote_mt5_trading.Positions.Store
use bobis_quote_mt5_trading.Positions.Store.{Store, Patch, update, discard, get_open_trades}
use bobis_quote_mt5_trading.Positions.Manager.{
  ManagerEvent, ManagerState, is_stub, reached, stopped, calculate_realized_rr, is_profitable_close,
  is_losing_close,
}

pub record Resolution (F : Type 0) : Type 0 where
  pub tp2_hit : Bool
  pub sl_hit : Bool
  pub close_reason : CloseReason
  pub close_price : Option F
  pub realized_rr : Option F

-- What get_deal_info_for_ticket gives: the price and the reason of the deal.
abbrev pub Deal : Type 0 → Type 0
Deal F = Option (Option F × Option String)

module _ {F : Type 0} where
  -- A deal that names its reason and has a price: whether it was the target, and the price.
  unfoldable pub authoritative : Deal F → Option (Bool × F)
  authoritative none = none
  authoritative (some (none, reason)) = none
  authoritative (some (some price, none)) = none
  authoritative (some (some price, some reason)) =
      if reason == "TP"
      then some (true, price)
      else if reason == "SL"
      then some (false, price)
      else none

  unfoldable pub deal_price : Deal F → Option F
  deal_price none = none
  deal_price (some (price, reason)) = price

  unfoldable pub or_else : Option F → Option F → Option F
  or_else none other = other
  or_else (some x) other = some x

module _ {F : Type 0} ⦃fl : Floats F⦄ where
  -- `last_price or trade.tp2 or trade.entry_price or 0.0`
  unfoldable pub close_price_of : Trade F → F → F
  close_price_of trade last =
      if truthy last then last else if truthy trade.tp2 then trade.tp2 else elim trade.entry_price [
        | none ↦ num 0
        | some entry ↦ if truthy entry then entry else num 0
      ]

  abbrev pub priced : Trade F → Bool → Bool → CloseReason → F → Resolution F
  priced trade tp2 sl reason last =
      let price = close_price_of trade last in
      record {
        tp2_hit = tp2;
        sl_hit = sl;
        close_reason = reason;
        close_price = some price;
        realized_rr = some (calculate_realized_rr trade price);
      }

  -- Without such a deal: by the last price that was seen, or the deal's.
  unfoldable pub infer : Trade F → Option F → Resolution F
  infer trade none = record {
    tp2_hit = false;
    sl_hit = false;
    close_reason = CloseReason.unknown;
    close_price = none;
    realized_rr = none;
  }
  infer trade (some last) =
      let tp2 = truthy trade.tp2 && reached trade.side last trade.tp2 in
      let sl = truthy trade.tp2 && stopped trade.side last trade.stop_loss in
      if tp2
      then priced trade tp2 sl CloseReason.tp2_hit last
      else if sl
      then priced trade tp2 sl CloseReason.sl_hit last
      else if truthy trade.tp2
      then priced trade tp2 sl CloseReason.manual last
      else priced trade tp2 sl CloseReason.unknown last

  -- A deal that says why has the word, whatever price was seen.
  unfoldable pub judge : Trade F → (known : Option F) → (said : Option (Bool × F)) → Resolution F
  unfolding infer
  judge trade known (some (true, price)) = priced trade true false CloseReason.tp2_hit price
  judge trade known (some (false, price)) = priced trade false true CloseReason.sl_hit price
  judge trade known none = infer trade known

  unfoldable pub resolve : Trade F → (last_price : Option F) → Deal F → Resolution F
  resolve trade last_price deal =
      judge trade (or_else last_price (deal_price deal)) (authoritative deal)

  -- A stub keeps no price, and no level is said to be hit.
  abbrev pub stub_resolution : Resolution F
  stub_resolution = record {
    tp2_hit = false;
    sl_hit = false;
    close_reason = CloseReason.closed_while_down;
    close_price = none;
    realized_rr = none;
  }

  unfoldable pub closing_patches : ℕ → Resolution F → List (Patch F)
  closing_patches now r =
      Store.tp2_hit r.tp2_hit
      ∷ Store.tp2_hit_at (if r.tp2_hit then some now else none)
      ∷ Store.sl_hit r.sl_hit
      ∷ Store.sl_hit_at (if r.sl_hit then some now else none)
      ∷ Store.status TradeStatus.closed
      ∷ Store.close_reason (some r.close_reason)
      ∷ Store.close_price r.close_price
      ∷ Store.closed_at (some now)
      ∷ Store.realized_rr r.realized_rr
      ∷ []

abbrev pub is_unknown : CloseReason → Bool
is_unknown CloseReason.unknown = true
is_unknown _ = false

abbrev pub is_manual : CloseReason → Bool
is_manual CloseReason.manual = true
is_manual _ = false

abbrev pub is_tp2_reason : CloseReason → Bool
is_tp2_reason CloseReason.tp2_hit = true
is_tp2_reason _ = false

abbrev pub is_sl_reason : CloseReason → Bool
is_sl_reason CloseReason.sl_hit = true
is_sl_reason _ = false

-- How a close counts: not at all, or as a win, a loss or neither.
pub data Tally : Type 0 where
  uncounted winning losing breakeven : Tally

module _ {F : Type 0} ⦃fl : Floats F⦄ where
  abbrev pub rr_above : Option F → Bool
  rr_above none = false
  rr_above (some rr) = lt (num 0) rr

  abbrev pub rr_below : Option F → Bool
  rr_below none = false
  rr_below (some rr) = lt rr (num 0)

  unfoldable pub tally : Trade F → Resolution F → Tally
  tally updated r =
      if is_unknown r.close_reason
      then uncounted
      else if is_tp2_reason r.close_reason || is_profitable_close updated || rr_above r.realized_rr
      then winning
      else if is_sl_reason r.close_reason || is_losing_close updated || rr_below r.realized_rr
      then losing
      else breakeven

  abbrev pub metric_key : (stub : Bool) → Resolution F → String
  metric_key stub r =
      if r.tp2_hit
      then "trades.tp2_hit"
      else if r.sl_hit
      then "trades.sl_hit"
      else if is_unknown r.close_reason
      then "trades.unknown_close"
      else if stub
      then "trades.stub_closed"
      else "trades.manual_close"

  abbrev pub closing_events : (stub : Bool) → Resolution F → Trade F → List (ManagerEvent F)
  closing_events stub r updated =
      if not stub && r.tp2_hit
      then ManagerEvent.tp2_hit updated ∷ ManagerEvent.trade_closed updated ∷ []
      else if not stub && r.sl_hit
      then ManagerEvent.sl_hit updated ∷ ManagerEvent.trade_closed updated ∷ []
      else ManagerEvent.trade_closed updated ∷ []

module _ {F R : Type 0} where
  abbrev pub count_tally : (manual : Bool) → Tally → Metrics F R → Metrics F R
  count_tally manual uncounted m = m
  count_tally manual winning m =
      let counted = increment "trades.winning" 1 m in
      if manual then increment "trades.manual_profit" 1 counted else counted
  count_tally manual losing m =
      let counted = increment "trades.losing" 1 m in
      if manual then increment "trades.manual_loss" 1 counted else counted
  count_tally manual breakeven m =
      let counted = increment "trades.breakeven" 1 m in
      if manual then increment "trades.manual_breakeven" 1 counted else counted

module _ {F R : Type 0} ⦃fl : Floats F⦄ where
  unfoldable pub count_close : (stub : Bool) → Trade F → Resolution F → Metrics F R → Metrics F R
  count_close stub updated r m =
      let keyed = increment (metric_key stub r) 1 m in
      if stub
      then keyed
      else count_tally (is_manual r.close_reason) (tally updated r)
          (increment "trades.closed" 1 keyed)

module _ {F B R : Type 0} ⦃fl : Floats F⦄ (now : ℕ) where
  abbrev pub record_close :
      Trade F
      → Resolution F
      → (updated : Trade F) → Store F
      → ManagerState F B R
      → ManagerState F B R
  record_close trade r updated left s = record s {
    positions = left;
    saved = s.saved ++ updated ∷ [];
    events = s.events ++ closing_events (is_stub trade) r updated;
    metrics =
        set_gauge "trades.open_count" (num (length (get_open_trades left)))
          (count_close (is_stub trade) updated r s.metrics);
  }

  abbrev pub after_update :
      Trade F → Resolution F → ManagerState F B R → Option (Trade F) × Store F → ManagerState F B R
  after_update trade r s (none, positions) = s
  after_update trade r s (some updated, positions) =
      record_close trade r updated (discard updated.id positions) s

  unfoldable pub close_with : Trade F → Resolution F → ManagerState F B R → ManagerState F B R
  close_with trade r s =
      after_update trade r s (update now trade.id (closing_patches now r) s.positions)

module _ {F B R : Type 0} ⦃fl : Floats F⦄ (deal_info : B → ℕ → Fetched (Option F × Option String))
    (now : ℕ) where
  -- The last price is taken out before the broker is asked.
  abbrev pub forget_price : (ticket : ℕ) → ManagerState F B R → ManagerState F B R
  forget_price ticket s = record s { last_price = remove ticket s.last_price }

  -- A stub is closed unasked. A question that raises leaves the trade in the store.
  abbrev pub gone_with :
      Trade F
      → (ticket : ℕ) (stub : Bool) → Fetched (Option F × Option String)
      → ManagerState F B R
      → Bool × ManagerState F B R
  gone_with trade ticket true answer s = (true, close_with now trade stub_resolution s)
  gone_with trade ticket false (found info) s = (
    true,
    close_with now trade (resolve trade (lookup ticket s.last_price) (some info))
        (forget_price ticket s),
  )
  gone_with trade ticket false missing s = (
    true,
    close_with now trade (resolve trade (lookup ticket s.last_price) none) (forget_price ticket s),
  )
  gone_with trade ticket false raised s = (false, forget_price ticket s)

  -- Whether it returned, and the state. `ticket` is the trade's entry ticket, which the poll has found to
  -- be set.
  unfoldable pub handle_position_gone :
      Trade F → (ticket : ℕ) → ManagerState F B R → Bool × ManagerState F B R
  handle_position_gone trade ticket s =
      let handled = gone_with trade ticket (is_stub trade) (deal_info s.broker ticket) s in
      if trade.tp2_hit then (true, s) else handled
