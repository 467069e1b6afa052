-- ===== src/Examples/TerminalRuns.antt =====
-- A terminal that counts its calls and the seconds slept, and that is down at first and then refuses
-- logins for a while; and the adapters' properties on it.
use bobis_quote_mt5_trading.Prelude.{
  nat_eq, ◌||◌, ℕ, suc, ◌+◌, String, true, false, ltb, none, some, [], ◌∷◌, ◌≡◌, refl, arith,
  Eq_string,
}
use bobis_quote_mt5_trading.Prelude.Dict.{lookup, lookup_or, insert}
use bobis_quote_mt5_trading.Prelude.Floats.{num, decimal, sub}
use bobis_quote_mt5_trading.Brokers.{buy, found}
use bobis_quote_mt5_trading.Brokers.Mt5.{
  Terminal, Session, Mt5Config, Deal, entry_out, reason_tp, ok, err, runtime_error,
}
use bobis_quote_mt5_trading.Brokers.Mt5.Client.{
  ensure_connected, resolve_symbol, search_symbols, from_cache, resolve_uncached, by_name, settle,
  scan, canonical, is_flexible, select_and_remember, remember, shortest, is_connected, reconnect,
  or_retry, connect, fail_connect, back_off, authorise, finish_connect, derive_broker_utc_offset,
  first_tick, tick_of, or_next, offset_from,
}
use bobis_quote_mt5_trading.Utils.Text.{to_upper, without, starts_with, ends_with, text_length}
use bobis_quote_mt5_trading.Utils.Symbol.{upper}
use bobis_quote_mt5_trading.Brokers.Mt5.Client.Recovery.{IsSettled, ensure_connected-IsSettled}
use bobis_quote_mt5_trading.Brokers.Mt5.Client.Choice.{IsAnswer, search_symbols-IsAnswer}
use bobis_quote_mt5_trading.Brokers.Mt5.Client.Cache.{resolve_symbol-resolve_symbol}
use bobis_quote_mt5_trading.Brokers.Mt5.Orders.{
  perform, submit, check, is_done_or_placed, market_request, order_result, open_market_order,
}
use bobis_quote_mt5_trading.Brokers.Mt5.Orders.Confirmed.{IsConfirmed, orders-IsConfirmed}
use bobis_quote_mt5_trading.Brokers.Mt5.Positions.History.{get_deal_info_for_ticket}
use bobis_quote_mt5_trading.Brokers.Mt5.Positions.Backed.{
  IsBacked, get_deal_info_for_ticket-IsBacked,
}
use bobis_quote_mt5_trading.Examples.Fixed.{Fixed, floats}

abbrev deal : Deal Fixed
deal = record {
  position_id = 77;
  entry = entry_out;
  reason = reason_tp;
  price = decimal 12 1;
  profit = sub (num 0) (num 30);
  swap = num 0;
  commission = num 0;
  magic = 7;
}

abbrev terminal : Terminal Fixed ℕ
terminal = record {
  initialize = λ t. (ltb 2 t, suc t);
  login = λ t. (ltb 12 t, suc t);
  shutdown = λ t. suc t;
  terminal_info = λ t. (some (ltb 5 t), suc t);
  symbol_info = λ name t. (none, t);
  symbols_get = λ t. ("XAUUSD." ∷ "EURUSDmicro" ∷ "EURUSDm" ∷ [], t);
  symbol_select = λ name t. (true, suc t);
  symbol_info_tick = λ name t. (none, t);
  order_send = λ request t. (
    some (record {
      retcode = 10010;
      order = 900;
      price = num 1;
      volume = decimal 5 1;
      comment = "partial";
    }),
    suc t,
  );
  order_calc_profit = λ is_buy name lots entry exit t. (none, t);
  positions_get = λ t. ([], t);
  orders_get = λ t. ([], t);
  history_deals_get = λ since until t. (found (deal ∷ []), suc t);
  account_info = λ t. (some (record { balance = num 970; equity = num 970 }), t);
  now = λ t. num 1000000;
  sleep = λ seconds t. t + seconds;
}

abbrev config : Mt5Config
config = record { login = 1; symbol_aliases = [] }

abbrev session : ℕ → Session Fixed String ℕ
session t = record {
  terminal = t;
  connected = false;
  broker_utc_offset_hours = num 0;
  last_error = none;
  symbol_cache = [];
  metrics = record { counters = []; gauges = []; rejections = [] };
}

ensure_connected-IsSettled_example :
    IsSettled terminal config (ensure_connected terminal config (session 0))
ensure_connected-IsSettled_example = ensure_connected-IsSettled terminal config (session 0)

search_symbols-IsAnswer_example :
    IsAnswer "EURUSD"
      (terminal.symbols_get 0).0
      (search_symbols terminal config "EURUSD" (session 0)).0
search_symbols-IsAnswer_example = search_symbols-IsAnswer terminal config "EURUSD" (session 0)

get_deal_info_for_ticket-IsBacked_example :
    IsBacked terminal config 77 (get_deal_info_for_ticket terminal config 77 (session 6))
get_deal_info_for_ticket-IsBacked_example =
    get_deal_info_for_ticket-IsBacked terminal config 77 (session 6)

resolved : (resolve_symbol terminal config "eur/usd" (session 6)).0 ≡ ok (some "EURUSDm")
unfolding resolve_symbol from_cache lookup resolve_uncached by_name search_symbols settle scan
    to_upper upper canonical lookup_or without is_flexible starts_with ends_with select_and_remember
    remember shortest insert text_length
resolved = refl

resolve_symbol-resolve_symbol_example :
    resolve_symbol terminal config "eur/usd"
      (resolve_symbol terminal config "eur/usd" (session 6)).1
    ≡ (ok (some "EURUSDm"), (resolve_symbol terminal config "eur/usd" (session 6)).1)
resolve_symbol-resolve_symbol_example =
    resolve_symbol-resolve_symbol terminal config "eur/usd" "EURUSDm" (session 6) resolved
      (λ h. ground (arith, Eq_string.beq_iff "EURUSDm" "", h))

reconnected : (ensure_connected terminal config (session 0)).0 ≡ ok tt
unfolding ensure_connected is_connected reconnect or_retry connect fail_connect back_off authorise
    finish_connect derive_broker_utc_offset first_tick tick_of or_next offset_from resolve_symbol
    from_cache lookup resolve_uncached by_name search_symbols settle scan to_upper upper canonical
    lookup_or without is_flexible starts_with ends_with select_and_remember remember shortest insert
    text_length
reconnected = refl

-- A volume that is filled in part only is an error to open_market_order.
partial_fill :
    (open_market_order terminal config "EURUSDm" buy
      (num 1)
      (num 1)
      (decimal 9 1)
      (num 2)
      10
      7
      "apex"
      1
      (session 6)).0
    ≡ err (runtime_error (some 10010))
unfolding ensure_connected is_connected open_market_order perform submit check is_done_or_placed
    market_request
partial_fill = refl

orders-IsConfirmed_example :
    IsConfirmed terminal config
      (λ code. nat_eq code 10009 || nat_eq code 10008)
      "mt5.orders.opened"
      (λ _. market_request "EURUSDm" buy (num 1) (num 1) (decimal 9 1) (num 2) 10 7 "apex" 1)
      (λ a. order_result a.price a)
      (session 6)
      (open_market_order terminal config "EURUSDm" buy
        (num 1)
        (num 1)
        (decimal 9 1)
        (num 2)
        10
        7
        "apex"
        1
        (session 6))
orders-IsConfirmed_example =
    (orders-IsConfirmed terminal config "EURUSDm" "apex" buy buy (num 1) (num 1) (decimal 9 1)
      (num 2) 77 10 7 1 3600 false (session 6)).0
