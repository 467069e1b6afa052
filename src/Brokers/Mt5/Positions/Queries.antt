-- ===== src/Brokers/Mt5/Positions/Queries.antt =====
-- src/brokers/mt5/positions.py: the account, the symbols, the open positions and the resting orders.
use bobis_quote_mt5_trading.Prelude.{
  ℕ, String, Bool, if◌then◌else◌, Option, none, some, List, map, ◌==◌, Eq_string,
}
use bobis_quote_mt5_trading.Prelude.Floats.{Floats, num, fabs}
use bobis_quote_mt5_trading.Domain.Position.{Position, PendingOrder, SymbolInfo, AccountInfo}
use bobis_quote_mt5_trading.Brokers.Mt5.{
  Terminal, Session, Mt5Config, RawTick, RawSymbol, RawPosition, RawOrder, attribute_error,
  runtime_error, ok, Call, ◌>>=◌, ◌>>◌, pure, raise, ask,
}
use bobis_quote_mt5_trading.Brokers.Mt5.Client.{resolve_symbol, ensure_connected}
use bobis_quote_mt5_trading.Brokers.Mt5.Positions.{
  with_magic, position_of, pending_of, find_ticket, symbol_info_of,
}

module _ {F R T : Type 0} ⦃fl : Floats F⦄ (api : Terminal F T) (config : Mt5Config) where
  unfoldable pub or_fail : {A : Type 0} → Option A → Call (Session F R T) A
  or_fail none = raise (runtime_error none)
  or_fail (some a) = pure a

  unfoldable pub get_account_info : Call (Session F R T) (AccountInfo F)
  get_account_info = do ensure_connected api config; info ← ask api.account_info; or_fail info

  -- None and the empty text are no name.
  unfoldable pub calc_with :
      (is_long : Bool) (entry_price exit_price : F)
      → Option String
      → Call (Session F R T) (Option F)
  calc_with is_long entry_price exit_price none = pure none
  calc_with is_long entry_price exit_price (some name) = do
    ensure_connected api config
    profit ← ask (api.order_calc_profit is_long name (num 1) entry_price exit_price)
    pure (elim profit [ none ↦ none | some p ↦ some (fabs p) ])

  unfoldable pub calc_loss_per_lot :
      (symbol : String) (is_long : Bool) (entry_price exit_price : F)
      → Call (Session F R T) (Option F)
  calc_loss_per_lot symbol is_long entry_price exit_price = do
    resolved ← resolve_symbol api config symbol
    calc_with is_long entry_price exit_price
        (elim resolved [ none ↦ none | some name ↦ if name == "" then none else some name ])

  -- A hidden symbol is shown, and asked for again.
  unfoldable pub show : Option String → RawSymbol F → Call (Session F R T) (Option (RawSymbol F))
  show name info s =
      if info.visible
      then (ok (some info), s)
      else (do _ ← ask (api.symbol_select name); ask (api.symbol_info name)) s

  -- The fields of None are an AttributeError.
  unfoldable pub describe :
      Option (RawSymbol F) → Option (RawTick F) → Call (Session F R T) (SymbolInfo F)
  describe none tick = raise attribute_error
  describe (some info) tick = pure (symbol_info_of info tick)

  unfoldable pub get_symbol_info : (symbol : String) → Call (Session F R T) (SymbolInfo F)
  get_symbol_info symbol = do
    resolved ← resolve_symbol api config symbol
    ensure_connected api config
    known ← ask (api.symbol_info resolved)
    info ← or_fail known
    shown ← show resolved info
    tick ← ask (api.symbol_info_tick resolved)
    describe shown tick

  unfoldable pub get_current_tick : (symbol : String) → Call (Session F R T) (Option (RawTick F))
  get_current_tick symbol = do ensure_connected api config; ask (api.symbol_info_tick (some symbol))

  unfoldable pub get_open_positions : (magic : Option ℕ) → Call (Session F R T) (List (Position F))
  get_open_positions magic = do
    ensure_connected api config
    reported ← ask api.positions_get
    pure (map position_of (with_magic (λ (p : RawPosition F). p.magic) magic reported))

  unfoldable pub get_position_by_ticket : (ticket : ℕ) → Call (Session F R T) (Option (Position F))
  get_position_by_ticket ticket = do
    positions ← get_open_positions none
    pure (find_ticket ticket positions)

  unfoldable pub get_pending_orders :
      (magic : Option ℕ) → Call (Session F R T) (List (PendingOrder F))
  get_pending_orders magic = do
    ensure_connected api config
    reported ← ask api.orders_get
    pure (map pending_of (with_magic (λ (o : RawOrder F). o.magic) magic reported))
