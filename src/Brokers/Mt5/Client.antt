-- ===== src/Brokers/Mt5/Client.antt =====
-- src/brokers/mt5/client.py: the connection, its recovery, and the broker's names for symbols. The
-- lock is left out, since each method is one sequence of calls; so is logging.
pub mod Recovery
pub mod Choice
pub mod Cache
use bobis_quote_mt5_trading.Prelude.{
  ℕ, String, Bool, true, false, ◌||◌, ltb, nat_eq, if◌then◌else◌, Option, none, some, List, [], ◌∷◌,
  ◌++◌, ◌==◌, Eq_string,
}
use bobis_quote_mt5_trading.Prelude.Dict.{lookup, lookup_or, insert}
use bobis_quote_mt5_trading.Prelude.Floats.{Floats, num, sub, div, truthy}
use bobis_quote_mt5_trading.Utils.Text.{text_length, to_upper, without, starts_with, ends_with}
use bobis_quote_mt5_trading.Brokers.Mt5.{
  Terminal, Session, Mt5Config, ConnectFailure, initialize_failed, login_failed, connection_error,
  runtime_error, unless, Result, ok, err, Call, ◌>>=◌, ◌>>◌, pure, modify, reads, ask, tell,
  RawTick, RawSymbol, attribute_error,
}

abbrev pub reconnect_delays : List ℕ
reconnect_delays = 2 ∷ 4 ∷ 8 ∷ 16 ∷ 30 ∷ []

abbrev pub offset_symbols : List String
offset_symbols = "BTCUSD" ∷ "ETHUSD" ∷ "BTCUSDT" ∷ "ETHUSDT" ∷ "EURUSD" ∷ []

-- What the scan of the broker's names, none of which is empty, gives: an exact match, at which it stops, or the others.
pub data Matches : Type 0 where
  exact_match : String → Matches
  matches : List String → Matches

unfoldable pub is_flexible : (key name : String) → Bool
is_flexible key name = starts_with key (to_upper name) || ends_with key (to_upper name)

unfoldable pub scan : (key : String) → List String → (found : List String) → Matches
scan key [] found = matches found
scan key (name ∷ names) found =
    let rest = scan key names (if is_flexible key name then found ++ name ∷ [] else found) in
    if to_upper name == key then exact_match name else rest

-- min(names, key=len): the first of the shortest
unfoldable pub shortest : String → List String → String
shortest best [] = best
shortest best (name ∷ names) =
    shortest (if ltb (text_length name) (text_length best) then name else best) names

unfoldable pub canonical : Mt5Config → String → String
canonical config base =
    let clean = to_upper (without b'_' (without b'/' base)) in
    lookup_or clean clean config.symbol_aliases

-- How far the broker's clock is ahead of `now`, in whole hours.
unfoldable pub offset_of : {F : Type 0} ⦃fl : Floats F⦄ → RawTick F → (now : F) → F
offset_of ⦃fl⦄ tick now =
    let broker_ts = if truthy tick.time_msc then div tick.time_msc (num 1000) else tick.time in
    fl.round (div (sub broker_ts now) (num 3600)) 0

-- A terminal that gives no information is not connected.
abbrev pub is_up : Option Bool → Bool
is_up none = false
is_up (some connected) = connected

module _ {F R T : Type 0} ⦃fl : Floats F⦄ (api : Terminal F T) (config : Mt5Config) where
  unfoldable pub remember : (key name : String) → Call (Session F R T) (Option String)
  remember key name s = (ok (some name), record s { symbol_cache = insert key name s.symbol_cache })

  unfoldable pub select_and_remember : (key name : String) → Call (Session F R T) (Option String)
  select_and_remember key name = do _ ← ask (api.symbol_select (some name)); remember key name

  -- What follows the scan: an exact match, none, the only one, or the shortest.
  unfoldable pub settle : (key : String) → Matches → Call (Session F R T) (Option String)
  settle key (exact_match name) = select_and_remember key name
  settle key (matches []) = pure none
  settle key (matches (name ∷ names)) = select_and_remember key (shortest name names)

  unfoldable pub search_symbols : (key : String) → Call (Session F R T) (Option String)
  search_symbols key = do names ← ask api.symbols_get; settle key (scan key names [])

  -- The terminal knows the name as it is, or its names are searched.
  unfoldable pub by_name :
      (key : String) → (known : Option (RawSymbol F)) → Call (Session F R T) (Option String)
  by_name key (some info) = select_and_remember key info.name
  by_name key none = search_symbols key

  unfoldable pub resolve_uncached : (clean : String) → Call (Session F R T) (Option String)
  resolve_uncached clean = do
    known ← ask (api.symbol_info (some clean))
    by_name (to_upper clean) known

  -- An empty text in the cache counts as none.
  unfoldable pub from_cache :
      (clean : String) → (cached : Option String) → Call (Session F R T) (Option String)
  from_cache clean none s = resolve_uncached clean s
  from_cache clean (some name) s =
      if name == "" then resolve_uncached clean s else (ok (some name), s)

  unfoldable pub resolve_symbol : (base : String) → Call (Session F R T) (Option String)
  resolve_symbol base s =
      let clean = canonical config base in
      from_cache clean (lookup (to_upper clean) s.symbol_cache) s

  unfoldable pub or_next :
      (next : Call (Session F R T) (Option (RawTick F)))
      → Option (RawTick F)
      → Call (Session F R T) (Option (RawTick F))
  or_next next none = next
  or_next next (some tick) = pure (some tick)

  unfoldable pub tick_of :
      (next : Call (Session F R T) (Option (RawTick F)))
      → (resolved : Option String) → Call (Session F R T) (Option (RawTick F))
  tick_of next none = next
  tick_of next (some name) = do tick ← ask (api.symbol_info_tick (some name)); or_next next tick

  -- The tick of the first symbol that has one.
  unfoldable pub first_tick : List String → Call (Session F R T) (Option (RawTick F))
  first_tick [] = pure none
  first_tick (symbol ∷ symbols) = do
    resolved ← resolve_symbol symbol
    tick_of (first_tick symbols) resolved

  -- UTC is assumed where no symbol has a tick.
  unfoldable pub offset_from : Option (RawTick F) → Call (Session F R T) F
  offset_from none = pure (num 0)
  offset_from (some tick) = reads (λ s. offset_of tick (api.now s.terminal))

  unfoldable pub derive_broker_utc_offset : Call (Session F R T) F
  derive_broker_utc_offset = do found ← first_tick offset_symbols; offset_from found

  unfoldable pub fail_connect : ConnectFailure → Call (Session F R T) (Unit {0})
  fail_connect failure s =
      (err connection_error, record s { last_error = some (failure, api.now s.terminal) })

  unfoldable pub authorise : Call (Session F R T) (Unit {0})
  authorise = do
    authorised ← ask api.login
    unless authorised (do tell api.shutdown; fail_connect login_failed)

  unfoldable pub finish_connect : Call (Session F R T) (Unit {0})
  finish_connect = do
    _ ← ask api.terminal_info
    modify (λ s. record s { connected = true; last_error = none })
    offset ← derive_broker_utc_offset
    modify (λ s. record s { broker_utc_offset_hours = offset })

  unfoldable pub connect : Call (Session F R T) (Unit {0})
  connect = do
    initialised ← ask api.initialize
    unless initialised (fail_connect initialize_failed)
    unless (nat_eq config.login 0) authorise
    finish_connect

  unfoldable pub disconnect : Call (Session F R T) (Unit {0})
  disconnect s =
      if s.connected
      then (ok tt, record s { terminal = api.shutdown s.terminal; connected = false })
      else (ok tt, s)

  unfoldable pub is_connected : Call (Session F R T) Bool
  is_connected = do
    info ← ask api.terminal_info
    modify (λ s. record s { connected = is_up info })
    pure (is_up info)

  -- Between two attempts the thread sleeps, after the last one it does not.
  unfoldable pub back_off : (delay : ℕ) → List ℕ → Session F R T → Session F R T
  back_off delay [] s = s
  back_off delay (_ ∷ _) s = record s { terminal = api.sleep delay s.terminal }

  -- Only a ConnectionError is caught.
  unfoldable pub or_retry :
      (retry : Call (Session F R T) (Unit {0}))
      → Result (Unit {0}) × Session F R T
      → Result (Unit {0}) × Session F R T
  or_retry retry (ok _, s) = (ok tt, s)
  or_retry retry (err connection_error, s) = retry s
  or_retry retry (err (runtime_error code), s) = (err (runtime_error code), s)
  or_retry retry (err attribute_error, s) = (err attribute_error, s)

  unfoldable pub reconnect : List ℕ → Call (Session F R T) (Unit {0})
  reconnect [] s = (err connection_error, s)
  reconnect (delay ∷ delays) s =
      or_retry (λ s'. reconnect delays (back_off delay delays s'))
        (connect (record s { terminal = api.shutdown s.terminal }))

  unfoldable pub ensure_connected : Call (Session F R T) (Unit {0})
  ensure_connected = do connected ← is_connected; unless connected (reconnect reconnect_delays)
