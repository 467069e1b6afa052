-- ===== src/Brokers/Mt5/Client/Cache.antt =====
-- What the cache of symbols gives a second time.
use bobis_quote_mt5_trading.Prelude.{
  String, if_holds, ◌==◌, Eq_string, beq_self, ◌≡◌, ◌≢◌, refl, ◌∙◌, ap, Option, none, some, [], ◌∷◌,
  arith,
}
use bobis_quote_mt5_trading.Prelude.Dict.{lookup, lookup-insert}
use bobis_quote_mt5_trading.Prelude.Floats.{Floats}
use bobis_quote_mt5_trading.Utils.Text.{to_upper}
use bobis_quote_mt5_trading.Brokers.Mt5.{Terminal, Session, Mt5Config, RawSymbol, Result, ok, err}
use bobis_quote_mt5_trading.Brokers.Mt5.Client.{
  Matches, exact_match, matches, canonical, remember, select_and_remember, settle, search_symbols,
  by_name, resolve_uncached, from_cache, resolve_symbol,
}

module _ {F R T : Type 0} ⦃fl : Floats F⦄ (api : Terminal F T) (config : Mt5Config) where
  -- A name that was given stands in the cache.
  abbrev IsCached : (key : String) → Result (Option String) × Session F R T → Type 0
  IsCached key (ok (some name), s) = lookup key s.symbol_cache ≡ some name
  IsCached key (ok none, s) = Unit
  IsCached key (err e, s) = Unit

  select_and_remember-IsCached :
      (key name : String) (s : Session F R T)
      → IsCached key (select_and_remember api config key name s)
  unfolding select_and_remember remember
  select_and_remember-IsCached key name s =
      ground (arith, lookup-insert key key name s.symbol_cache, beq_self key)

  settle-IsCached :
      (key : String) (m : Matches) (s : Session F R T) → IsCached key (settle api config key m s)
  unfolding settle
  settle-IsCached key (exact_match name) s = select_and_remember-IsCached key name s
  settle-IsCached key (matches []) s = tt
  settle-IsCached key (matches (name ∷ names)) s = select_and_remember-IsCached key _ s

  by_name-IsCached :
      (key : String) (known : Option (RawSymbol F)) (s : Session F R T)
      → IsCached key (by_name api config key known s)
  unfolding by_name search_symbols
  by_name-IsCached key none s = settle-IsCached key _ _
  by_name-IsCached key (some info) s = select_and_remember-IsCached key info.name s

  from_cache-IsCached :
      (clean : String) (cached : Option String) (s : Session F R T)
      → lookup (to_upper clean) s.symbol_cache ≡ cached
      → IsCached (to_upper clean) (from_cache api config clean cached s)
  unfolding from_cache resolve_uncached
  from_cache-IsCached clean none s h = by_name-IsCached _ _ _
  from_cache-IsCached clean (some name) s h =
      if_holds (IsCached (to_upper clean)) (name == "") (resolve_uncached api config clean s)
        (ok (some name), s) (λ _. by_name-IsCached _ _ _) (λ _. h)

  IsCached-name :
      (key name : String) (r : Result (Option String) × Session F R T)
      → r.0 ≡ ok (some name)
      → IsCached key r
      → lookup key r.1.symbol_cache ≡ some name
  IsCached-name key name (ok (some n), s) h k = k ∙ cc
  IsCached-name key name (ok none, s) h k = cc
  IsCached-name key name (err e, s) h k = cc

  from_cache-hit :
      (clean name : String) (s : Session F R T)
      → name ≢ ""
      → from_cache api config clean (some name) s ≡ (ok (some name), s)
  unfolding from_cache
  from_cache-hit clean name s h = ground (arith, Eq_string.beq_iff name "", h)

  -- Once a symbol was resolved to a name that is not empty, resolving it again gives that name, and
  -- neither the terminal nor anything else of the session changes.
  pub resolve_symbol-resolve_symbol :
      (base name : String) (s : Session F R T)
      → (resolve_symbol api config base s).0 ≡ ok (some name)
      → name ≢ ""
      → resolve_symbol api config base (resolve_symbol api config base s).1
        ≡ (ok (some name), (resolve_symbol api config base s).1)
  unfolding resolve_symbol
  resolve_symbol-resolve_symbol base name s h ne =
      let clean : String = canonical config base in
      let once = from_cache api config clean (lookup (to_upper clean) s.symbol_cache) s in
      let known = IsCached-name (to_upper clean) name once h (from_cache-IsCached clean _ s refl) in
      ap (λ (cached : Option String). from_cache api config clean cached once.1) known
      ∙ from_cache-hit clean name once.1 ne
