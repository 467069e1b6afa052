-- ===== src/Brokers/Mt5/Client/Recovery.antt =====
-- What the connection promises once a method has made sure of it.
use bobis_quote_mt5_trading.Prelude.{
  ℕ, String, Bool, true, false, nat_eq, nat_eq_iff, ap, arith, if_holds, ◌≡◌, refl, ◌≢◌, ◌∙◌,
  Option, none, some, ◌==◌, Eq_string, sym, ◌⊎◌, List, [], ◌∷◌, inl, inr,
}
use bobis_quote_mt5_trading.Prelude.Floats.{Floats}
use bobis_quote_mt5_trading.Brokers.Mt5.{
  Terminal, Session, Mt5Config, Result, ok, err, connection_error, runtime_error, after,
  after_holds, unless_holds, initialize_failed, login_failed, Call, ConnectFailure, RawTick,
  RawSymbol, attribute_error,
}
use bobis_quote_mt5_trading.Brokers.Mt5.Client.{
  Matches, exact_match, matches, offset_symbols, reconnect_delays, remember, select_and_remember,
  settle, search_symbols, resolve_uncached, resolve_symbol, first_tick, derive_broker_utc_offset,
  by_name, offset_from, is_up, or_retry, from_cache, tick_of, or_next, fail_connect, authorise,
  finish_connect, connect, is_connected, back_off, reconnect, ensure_connected,
}

module _ {F T : Type 0} (api : Terminal F T) (config : Mt5Config) where
  -- The terminal says that it is up, or it was initialised and, where there is an account, took the login.
  abbrev pub IsOnline : Type 0
  IsOnline =
      ((t : T) × ((api.terminal_info t).0 ≡ some true))
      ⊎ ((t : T) × ((api.initialize t).0 ≡ true)
          × ((config.login ≡ 0) ⊎ ((api.login (api.initialize t).1).0 ≡ true)))

  -- What went wrong in the failure that is noted.
  abbrev pub HasFailed : ConnectFailure → Type 0
  HasFailed initialize_failed = (t : T) × ((api.initialize t).0 ≡ false)
  HasFailed login_failed =
      (config.login ≢ 0)
      × (t : T) × ((api.initialize t).0 ≡ true)
      × ((api.login (api.initialize t).1).0 ≡ false)

module _ {F R T : Type 0} ⦃fl : Floats F⦄ (api : Terminal F T) (config : Mt5Config) where
  -- The call returned, and left the flag and the last error as they were.
  abbrev Quiet : {A : Type 0} → Session F R T → Result A × Session F R T → Type 0
  Quiet s (ok a, s') = (s'.connected ≡ s.connected) × (s'.last_error ≡ s.last_error)
  Quiet s (err e, s') = ⊥

  select_and_remember-Quiet :
      (key name : String) (s : Session F R T) → Quiet s (select_and_remember api config key name s)
  unfolding select_and_remember remember
  select_and_remember-Quiet key name s = (refl, refl)

  settle-Quiet :
      (key : String) (m : Matches) (s : Session F R T) → Quiet s (settle api config key m s)
  unfolding settle
  settle-Quiet key (exact_match name) s = select_and_remember-Quiet key name s
  settle-Quiet key (matches []) s = (refl, refl)
  settle-Quiet key (matches (name ∷ names)) s = select_and_remember-Quiet key _ s

  by_name-Quiet :
      (key : String) (known : Option (RawSymbol F)) (s : Session F R T)
      → Quiet s (by_name api config key known s)
  unfolding by_name search_symbols
  by_name-Quiet key none s = settle-Quiet _ _ _
  by_name-Quiet key (some info) s = select_and_remember-Quiet key info.name s

  resolve_uncached-Quiet :
      (clean : String) (s : Session F R T) → Quiet s (resolve_uncached api config clean s)
  unfolding resolve_uncached
  resolve_uncached-Quiet clean s = by_name-Quiet _ _ _

  from_cache-Quiet :
      (clean : String) (cached : Option String) (s : Session F R T)
      → Quiet s (from_cache api config clean cached s)
  unfolding from_cache
  from_cache-Quiet clean none s = resolve_uncached-Quiet clean s
  from_cache-Quiet clean (some name) s =
      if_holds (Quiet s) (name == "") (resolve_uncached api config clean s) (ok (some name), s)
        (λ _. resolve_uncached-Quiet clean s) (λ _. (refl, refl))

  resolve_symbol-Quiet :
      (base : String) (s : Session F R T) → Quiet s (resolve_symbol api config base s)
  unfolding resolve_symbol
  resolve_symbol-Quiet base s = from_cache-Quiet _ _ s

  Quiet-then :
      {A B : Type 0} (s : Session F R T) (r : Result A × Session F R T)
      (f : A → Call (Session F R T) B)
      → Quiet s r
      → ((a : A) (s' : Session F R T) → Quiet s' (f a s'))
      → Quiet s (after r f)
  Quiet-then s (ok a, s') f h k = Quiet-trans s s' (f a s') h (k a s')
    where
      Quiet-trans :
          {B : Type 0} (s s' : Session F R T) (r : Result B × Session F R T)
          → (s'.connected ≡ s.connected) × (s'.last_error ≡ s.last_error)
          → Quiet s' r
          → Quiet s r
      Quiet-trans s s' (ok b, s2) h k = (k.0 ∙ h.0, k.1 ∙ h.1)
      Quiet-trans s s' (err e, s2) h k = k
  Quiet-then s (err e, s') f h k = absurd h

  or_next-Quiet :
      (next : Call (Session F R T) (Option (RawTick F))) (tick : Option (RawTick F))
      (s : Session F R T)
      → ((s : Session F R T) → Quiet s (next s))
      → Quiet s (or_next api config next tick s)
  unfolding or_next
  or_next-Quiet next none s h = h s
  or_next-Quiet next (some tick) s h = (refl, refl)

  tick_of-Quiet :
      (next : Call (Session F R T) (Option (RawTick F))) (resolved : Option String)
      (s : Session F R T)
      → ((s : Session F R T) → Quiet s (next s))
      → Quiet s (tick_of api config next resolved s)
  unfolding tick_of
  tick_of-Quiet next none s h = h s
  tick_of-Quiet next (some name) s h = or_next-Quiet next _ _ h

  first_tick-Quiet :
      (symbols : List String) (s : Session F R T) → Quiet s (first_tick api config symbols s)
  unfolding first_tick
  first_tick-Quiet [] s = (refl, refl)
  first_tick-Quiet (symbol ∷ symbols) s =
      Quiet-then s _ _ (resolve_symbol-Quiet symbol s)
        (λ resolved s'. tick_of-Quiet _ resolved s' (λ s2. first_tick-Quiet symbols s2))

  offset_from-Quiet :
      (found : Option (RawTick F)) (s : Session F R T) → Quiet s (offset_from api config found s)
  unfolding offset_from
  offset_from-Quiet none s = (refl, refl)
  offset_from-Quiet (some tick) s = (refl, refl)

  derive_broker_utc_offset-Quiet :
      (s : Session F R T) → Quiet s (derive_broker_utc_offset api config s)
  unfolding derive_broker_utc_offset
  derive_broker_utc_offset-Quiet s =
      Quiet-then s _ _ (first_tick-Quiet offset_symbols s) offset_from-Quiet

  abbrev pub HasCause : Session F R T → Type 0
  HasCause s =
      (failure : ConnectFailure) × (at : F) × (s.last_error ≡ some (failure, at))
      × HasFailed api config failure

  -- Connected where it returned, and rightly so; else a ConnectionError, with the failure noted.
  abbrev pub IsSettled : Result (Unit {0}) × Session F R T → Type 0
  IsSettled (ok _, s) = (s.connected ≡ true) × IsOnline api config
  IsSettled (err e, s) = (e ≡ connection_error) × HasCause s

  finish_connect-IsSettled :
      (s : Session F R T) → IsOnline api config → IsSettled (finish_connect api config s)
  unfolding finish_connect
  finish_connect-IsSettled s online =
      after_holds (Quiet shown) IsSettled (derive_broker_utc_offset api config shown) _
        (derive_broker_utc_offset-Quiet shown) (λ offset s' h. (h.0, online)) (λ e s' h. absurd h)
    where
      shown : Session F R T
      shown = record s {
        terminal = (api.terminal_info s.terminal).1;
        connected = true;
        last_error = none;
      }

  -- A step of connect that stops it, or lets it go on with what it has shown.
  abbrev IsNoted : (shown : Session F R T → Type 0) → Result (Unit {0}) × Session F R T → Type 0
  IsNoted shown (ok _, s) = shown s
  IsNoted shown (err e, s) = (e ≡ connection_error) × HasCause s

  fail_connect-IsNoted :
      (shown : Session F R T → Type 0) (failure : ConnectFailure) (s : Session F R T)
      → HasFailed api config failure
      → IsNoted shown (fail_connect api config failure s)
  unfolding fail_connect
  fail_connect-IsNoted shown failure s h = (refl, (failure, api.now s.terminal, refl, h))

  -- After the terminal was initialised from a state.
  abbrev IsStarted : (t : T) → Session F R T → Type 0
  IsStarted t s = ((api.initialize t).0 ≡ true) × (s.terminal ≡ (api.initialize t).1)

  authorise-IsNoted :
      (t : T) (s : Session F R T)
      → IsStarted t s
      → config.login ≢ 0
      → IsNoted (λ _. IsOnline api config) (authorise api config s)
  unfolding authorise
  authorise-IsNoted t s h login =
      unless_holds (IsNoted (λ _. IsOnline api config)) (api.login s.terminal).0 _ _
        (λ e. inr (t, h.0, inr (ap (λ x. (api.login x).0) (sym h.1) ∙ e)))
        (λ e.
          fail_connect-IsNoted (λ _. IsOnline api config) login_failed _
            (login, t, h.0, ap (λ x. (api.login x).0) (sym h.1) ∙ e))

  connect-IsSettled : (s : Session F R T) → IsSettled (connect api config s)
  unfolding connect
  connect-IsSettled s =
      after_holds (IsNoted (IsStarted s.terminal)) IsSettled _ _
        (unless_holds (IsNoted (IsStarted s.terminal)) (api.initialize s.terminal).0 _ _
          (λ e. (e, refl))
          (λ e. fail_connect-IsNoted (IsStarted s.terminal) initialize_failed _ (s.terminal, e)))
        (λ _ s' started.
          after_holds (IsNoted (λ _. IsOnline api config)) IsSettled _ _
            (unless_holds (IsNoted (λ _. IsOnline api config)) (nat_eq config.login 0) _ s'
              (λ e. inr (s.terminal, started.0, inl ((nat_eq_iff config.login 0).0 e)))
              (λ e. authorise-IsNoted s.terminal s' started (λ z. ground (arith, e, z))))
            (λ _ s2 online. finish_connect-IsSettled s2 online) (λ e s2 h. h))
        (λ e s' h. h)

  or_retry-IsSettled :
      (retry : Call (Session F R T) (Unit {0})) (r : Result (Unit {0}) × Session F R T)
      → IsSettled r
      → ((s : Session F R T) → HasCause s → IsSettled (retry s))
      → IsSettled (or_retry api config retry r)
  unfolding or_retry
  or_retry-IsSettled retry (ok _, s) h k = h
  or_retry-IsSettled retry (err connection_error, s) h k = k s h.1
  or_retry-IsSettled retry (err (runtime_error code), s) h k = h
  or_retry-IsSettled retry (err attribute_error, s) h k = h

  back_off-last_error :
      (delay : ℕ) (delays : List ℕ) (s : Session F R T)
      → (back_off api config delay delays s).last_error ≡ s.last_error
  unfolding back_off
  back_off-last_error delay [] s = refl
  back_off-last_error delay (_ ∷ _) s = refl

  reconnect-IsSettled :
      (delays : List ℕ) (s : Session F R T)
      → (delays ≢ []) ⊎ HasCause s
      → IsSettled (reconnect api config delays s)
  unfolding reconnect
  reconnect-IsSettled [] s (inl h) = absurd (h refl)
  reconnect-IsSettled [] s (inr h) = (refl, h)
  reconnect-IsSettled (delay ∷ delays) s h = or_retry-IsSettled _ _ (connect-IsSettled _) (λ s' k.
      reconnect-IsSettled delays _ (inr (k.0, k.1, back_off-last_error delay delays s' ∙ k.2, k.3)))

  -- However the terminal answers, ensure_connected returns with the session marked as connected, after the
  -- terminal said that it is up, or was initialised and took the login that is configured; or it raises
  -- a ConnectionError, and the session notes a failure that happened: an initialisation that failed, or a
  -- login that failed after one that did not.
  pub ensure_connected-IsSettled : (s : Session F R T) → IsSettled (ensure_connected api config s)
  unfolding ensure_connected is_connected
  ensure_connected-IsSettled s =
      unless_holds IsSettled (is_up info.0) _ seen (λ h. (h, inl (s.terminal, is_up-true info.0 h)))
        (λ _. reconnect-IsSettled reconnect_delays seen (inl (λ e. cc)))
    where
      info : Option Bool × T
      info = api.terminal_info s.terminal

      seen : Session F R T
      seen = record s { terminal = info.1; connected = is_up info.0 }

      is_up-true : (o : Option Bool) → is_up o ≡ true → o ≡ some true
      is_up-true none h = cc
      is_up-true (some b) h = ap (λ x. some x) h
