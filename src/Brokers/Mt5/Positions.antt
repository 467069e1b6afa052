-- ===== src/Brokers/Mt5/Positions.antt =====
-- src/brokers/mt5/positions.py: what the terminal reports, read for the other parts. A naive datetime
-- is its seconds; a midnight is a whole number of days. Logging is left out.
pub mod History
pub mod Queries
pub mod Pnl
pub mod Backed
use bobis_quote_mt5_trading.Prelude.{
  ℕ, ◌*◌, String, Bool, true, false, not, ◌&&◌, ◌||◌, nat_eq, if◌then◌else◌, Option, none, some,
  List, [], ◌∷◌, map, keep, ◌==◌, Eq_string,
}
use bobis_quote_mt5_trading.Prelude.Floats.{Floats, num, add, sub, mul, div, le, lt, fabs}
use bobis_quote_mt5_trading.Domain.Position.{
  Position, PositionSide, PendingOrder, SymbolInfo, AccountInfo, Tick,
}
use bobis_quote_mt5_trading.Brokers.{OrderType, Fetched, found, missing, raised}
use bobis_quote_mt5_trading.Brokers.Mt5.{
  Terminal, Session, Mt5Config, RawTick, RawSymbol, RawPosition, RawOrder, Deal, DealEntry,
  entry_in, entry_out, entry_inout, entry_out_by, DealReason, reason_sl, reason_tp, reason_other,
  connection_error, attribute_error, runtime_error, Result, ok, err, Call, ◌>>=◌, ◌>>◌, pure, raise,
  modify, reads, ask,
}
use bobis_quote_mt5_trading.Brokers.Mt5.Client.{resolve_symbol, ensure_connected, disconnect}

abbrev pub day : ℕ
day = 86400

abbrev pub recent_deal_window : ℕ
recent_deal_window = 600

abbrev pub week : ℕ
week = 604800

unfoldable pub is_out : DealEntry → Bool
is_out entry_out = true
is_out entry_in = false
is_out entry_inout = false
is_out entry_out_by = false

unfoldable pub reason_text : DealReason → Option String
reason_text reason_sl = some "SL"
reason_text reason_tp = some "TP"
reason_text reason_other = none

-- Every order but a BUY_LIMIT counts as a sale, a BUY_STOP too.
unfoldable pub pending_side : OrderType → PositionSide
pending_side OrderType.buy_limit = PositionSide.buy
pending_side _ = PositionSide.sell

unfoldable pub with_magic : {A : Type 0} → (A → ℕ) → Option ℕ → List A → List A
with_magic magic_of none xs = xs
with_magic magic_of (some magic) xs = keep (λ x. nat_eq (magic_of x) magic) xs

unfoldable pub deals_of : {F : Type 0} → Fetched (List (Deal F)) → Option (List (Deal F))
deals_of (found deals) = some deals
deals_of missing = none
deals_of raised = none

module _ {F : Type 0} ⦃fl : Floats F⦄ where
  unfoldable pub position_of : RawPosition F → Position F
  position_of p = record {
    ticket = p.ticket;
    symbol = p.symbol;
    side = if p.is_buy then PositionSide.buy else PositionSide.sell;
    lots = p.volume;
    open_price = p.price_open;
    current_price = p.price_current;
    stop_loss = p.sl;
    take_profit = p.tp;
    open_time = p.time * 1000;
  }

  unfoldable pub pending_of : RawOrder F → PendingOrder F
  pending_of o = record {
    ticket = o.ticket;
    symbol = o.symbol;
    side = pending_side o.order_type;
    lots = o.volume_current;
    price = o.price_open;
    stop_loss = o.sl;
    take_profit = o.tp;
    setup_time = o.time_setup * 1000;
    expiration = o.time_expiration * 1000;
  }

  unfoldable pub find_ticket : ℕ → List (Position F) → Option (Position F)
  find_ticket ticket [] = none
  find_ticket ticket (p ∷ ps) =
      let rest = find_ticket ticket ps in if nat_eq p.ticket ticket then some p else rest

  -- What the code asks of a deal that closed a ticket.
  unfoldable pub closes : ℕ → Deal F → Bool
  closes ticket d = nat_eq d.position_id ticket && is_out d.entry

  -- The first deal that closed a ticket, if any.
  unfoldable pub find_deal : ℕ → List (Deal F) → Option (Deal F)
  find_deal ticket [] = none
  find_deal ticket (d ∷ ds) =
      let rest = find_deal ticket ds in if closes ticket d then some d else rest

  -- What the deals that closed positions today and the open positions of a magic number come to.
  unfoldable pub total_pnl : (magic : ℕ) → List (Deal F) → List (RawPosition F) → F
  total_pnl magic deals positions =
      add
        (fl.sum (
          map (λ (d : Deal F). add (add d.profit d.swap) d.commission)
            (keep (λ d. nat_eq d.magic magic && is_out d.entry) deals)))
        (fl.sum
          (map (λ (p : RawPosition F). p.profit) (keep (λ p. nat_eq p.magic magic) positions)))

  -- (loss in percent, equity at the start of the day, equity now)
  unfoldable pub daily_pnl : (total equity : F) → F × F × F
  daily_pnl total equity =
      let start = sub equity total in
      if le equity (num 0)
      then (num 0, num 0, num 0)
      else if le start (num 0)
      then (num 0, equity, equity)
      else if le (num 0) total
      then (num 0, start, equity)
      else (mul (div (fabs total) start) (num 100), start, equity)

  unfoldable pub daily_pnl_on : (total : F) → Option (AccountInfo F) → F × F × F
  daily_pnl_on total none = (num 0, num 0, num 0)
  daily_pnl_on total (some account) = daily_pnl total account.equity

  -- The midnight before a time.
  unfoldable pub midnight : F → F
  midnight t = num (fl.floor (div t (num day)) * day)

  unfoldable pub price_of : Option (Deal F) → Option F
  price_of none = none
  price_of (some d) = some d.price

  unfoldable pub info_of : Deal F → F × Option String
  info_of d = (d.price, reason_text d.reason)

  unfoldable pub symbol_info_of : RawSymbol F → Option (RawTick F) → SymbolInfo F
  symbol_info_of info tick = record {
    symbol = info.name;
    digits = info.digits;
    point = info.point;
    tick_size = info.trade_tick_size;
    tick_value = info.trade_tick_value;
    lot_min = info.volume_min;
    lot_max = info.volume_max;
    lot_step = info.volume_step;
    ask = elim tick [ none ↦ num 0 | some t ↦ t.ask ];
    bid = elim tick [ none ↦ num 0 | some t ↦ t.bid ];
    filling_mode = info.filling_mode;
    stops_level = info.trade_stops_level;
    freeze_level = info.trade_freeze_level;
    volume_step = info.volume_step;
  }
