-- ===== src/Brokers/Mt5/Positions/History.antt =====
-- src/brokers/mt5/positions.py: the deals of the past, the loss of the day, and how a position ended.
use bobis_quote_mt5_trading.Prelude.{ℕ, String, Option, none, some, List, [], ◌∷◌}
use bobis_quote_mt5_trading.Prelude.Floats.{Floats, num, add, sub, mul}
use bobis_quote_mt5_trading.Brokers.Mt5.{
  Terminal, Session, Mt5Config, Deal, connection_error, attribute_error, runtime_error, Result, ok,
  err, Call, ◌>>=◌, ◌>>◌, pure, raise, reads, ask,
}
use bobis_quote_mt5_trading.Brokers.Mt5.Client.{ensure_connected, disconnect}
use bobis_quote_mt5_trading.Brokers.Mt5.Positions.{
  day, recent_deal_window, week, deals_of, total_pnl, daily_pnl_on, midnight, find_deal, price_of,
  info_of,
}

module _ {F R T : Type 0} ⦃fl : Floats F⦄ (api : Terminal F T) (config : Mt5Config) where
  unfoldable pub history_attempt : (since until : F) → Call (Session F R T) (Option (List (Deal F)))
  history_attempt since until = do
    ensure_connected api config
    answer ← ask (api.history_deals_get since until)
    pure (deals_of answer)

  unfoldable pub last_attempt : Option (List (Deal F)) → Call (Session F R T) (List (Deal F))
  last_attempt (some deals) = pure deals
  last_attempt none = raise (runtime_error none)

  -- After a failure the terminal is left and entered again, once.
  unfoldable pub or_again :
      (since until : F) → Option (List (Deal F)) → Call (Session F R T) (List (Deal F))
  or_again since until (some deals) = pure deals
  or_again since until none = do
    disconnect api config
    deals ← history_attempt since until
    last_attempt deals

  unfoldable pub history_deals_get : (since until : F) → Call (Session F R T) (List (Deal F))
  history_deals_get since until = do deals ← history_attempt since until; or_again since until deals

  -- A RuntimeError leaves no deals; any other exception goes on.
  unfoldable pub or_no_deals :
      Result (List (Deal F)) × Session F R T → Result (List (Deal F)) × Session F R T
  or_no_deals (ok deals, s) = (ok deals, s)
  or_no_deals (err (runtime_error code), s) = (ok [], s)
  or_no_deals (err connection_error, s) = (err connection_error, s)
  or_no_deals (err attribute_error, s) = (err attribute_error, s)

  -- A method that gives a value for any exception.
  unfoldable pub or_default : {A : Type 0} → A → Result A × Session F R T → Result A × Session F R T
  or_default default (ok a, s) = (ok a, s)
  or_default default (err e, s) = (ok default, s)

  -- The day starts at the broker's midnight.
  unfoldable pub day_start : Session F R T → F
  day_start s = midnight (add (api.now s.terminal) (mul s.broker_utc_offset_hours (num 3600)))

  unfoldable pub read_daily_pnl : (magic : ℕ) → Call (Session F R T) (F × F × F)
  read_daily_pnl magic = do
    since ← reads day_start
    deals ← λ s. or_no_deals (history_deals_get since (add since (num day)) s)
    positions ← ask api.positions_get
    account ← ask api.account_info
    pure (daily_pnl_on (total_pnl magic deals positions) account)

  unfoldable pub get_daily_pnl_info : (magic : ℕ) → Call (Session F R T) (F × F × F)
  get_daily_pnl_info magic = do
    ensure_connected api config
    λ s. or_default (num 0, num 0, num 0) (read_daily_pnl magic s)

  unfoldable pub get_deal_price_for_ticket : (ticket : ℕ) → Call (Session F R T) (Option F)
  get_deal_price_for_ticket ticket = do
    ensure_connected api config
    until ← reads (λ s. api.now s.terminal)
    λ s. or_default none (
        (do
          deals ← history_deals_get (sub until (num week)) until
          pure (price_of (find_deal ticket deals)))
          s)

  unfoldable pub found_or :
      Call (Session F R T) (Option (F × Option String))
      → Option (Deal F)
      → Call (Session F R T) (Option (F × Option String))
  found_or next none = next
  found_or next (some d) = pure (some (info_of d))

  -- The windows in turn, until one has the deal.
  unfoldable pub search_windows :
      (ticket : ℕ) (until : F) → List ℕ → Call (Session F R T) (Option (F × Option String))
  search_windows ticket until [] = pure none
  search_windows ticket until (window ∷ windows) = do
    deals ← history_deals_get (sub until (num window)) until
    found_or (search_windows ticket until windows) (find_deal ticket deals)

  unfoldable pub get_deal_info_for_ticket :
      (ticket : ℕ) → Call (Session F R T) (Option (F × Option String))
  get_deal_info_for_ticket ticket = do
    ensure_connected api config
    until ← reads (λ s. api.now s.terminal)
    λ s. or_default none (search_windows ticket until (recent_deal_window ∷ week ∷ []) s)
