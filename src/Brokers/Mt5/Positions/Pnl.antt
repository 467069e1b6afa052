-- ===== src/Brokers/Mt5/Positions/Pnl.antt =====
-- What the loss of the day is measured against.
use bobis_quote_mt5_trading.Prelude.{
  ℕ, true, ◌⊎◌, ◌≡◌, Option, none, some, List, [], ◌∷◌, nat_eq, ◌&&◌, if◌then◌else◌,
}
use bobis_quote_mt5_trading.Prelude.Floats.{Floats, num, add, sub, mul, div, le, lt, fabs}
use bobis_quote_mt5_trading.Domain.Position.{AccountInfo}
use bobis_quote_mt5_trading.Brokers.Mt5.{
  Terminal, Session, Mt5Config, Deal, RawPosition, Mt5Error, connection_error, Result, ok, err,
}
use bobis_quote_mt5_trading.Brokers.Mt5.Client.{ensure_connected}
use bobis_quote_mt5_trading.Brokers.Mt5.Positions.{day, is_out}
use bobis_quote_mt5_trading.Brokers.Mt5.Positions.History.{
  or_no_deals, history_deals_get, day_start,
}

module _ {F : Type 0} ⦃fl : Floats F⦄ where
  -- What the deals out of the market and the open positions of a magic number made, one by one.
  abbrev pub made : (magic : ℕ) → List (Deal F) → List F
  made magic [] = []
  made magic (d ∷ ds) =
      let rest = made magic ds in
      if nat_eq d.magic magic && is_out d.entry
      then add (add d.profit d.swap) d.commission ∷ rest
      else rest

  abbrev pub floating : (magic : ℕ) → List (RawPosition F) → List F
  floating magic [] = []
  floating magic (p ∷ ps) =
      let rest = floating magic ps in if nat_eq p.magic magic then p.profit ∷ rest else rest

  abbrev pub net : (magic : ℕ) → List (Deal F) → List (RawPosition F) → F
  net magic deals positions = add (fl.sum (made magic deals)) (fl.sum (floating magic positions))

  -- The loss is not negative. It is 0 where the equity now or that of the start is not positive, or the
  -- total is not negative; else it is the total in percent of the equity of the start, which is the
  -- equity now less the total. Without an account there is no loss.
  abbrev pub IsPnl : (total : F) → Option (AccountInfo F) → F × F × F → Type 0
  IsPnl total none (loss, start, equity) = loss ≡ num 0
  IsPnl total (some a) (loss, start, equity) =
      (le (num 0) loss ≡ true)
      × (((loss ≡ num 0)
            × ((le a.equity (num 0) ≡ true)
                ⊎ ((le (sub a.equity total) (num 0) ≡ true) ⊎ (le (num 0) total ≡ true))))
          ⊎ ((lt total (num 0) ≡ true)
              × (lt (num 0) start ≡ true)
              × (start ≡ sub a.equity total)
              × (equity ≡ a.equity)
              × (loss ≡ mul (div (fabs total) start) (num 100))))

module _ {F R T : Type 0} ⦃fl : Floats F⦄ (api : Terminal F T) (config : Mt5Config) where
  -- The deals of the day that starts where the session says, none where the history has a RuntimeError.
  abbrev pub deals_of_day : Session F R T → Result (List (Deal F)) × Session F R T
  deals_of_day s = or_no_deals api config (
      history_deals_get api config (day_start api config s) (add (day_start api config s) (num day))
        s)

  -- A reading of the day: zeros where the deals cannot be had, and else from these deals, the positions
  -- that the terminal then reports and the account that it reports after them; or the connection that
  -- could not be made.
  abbrev pub IsReading : (magic : ℕ) → Session F R T → Result (F × F × F) × Session F R T → Type 0
  IsReading magic before (ok reading, s) =
      (start : Session F R T) × (ensure_connected api config before ≡ (ok tt, start))
      × (((e : Mt5Error) × (s' : Session F R T) × (deals_of_day start ≡ (err e, s'))
            × (reading ≡ (num 0, num 0, num 0)))
          ⊎ ((deals : List (Deal F)) × (s' : Session F R T) × (deals_of_day start ≡ (ok deals, s'))
              × IsPnl (net magic deals (api.positions_get s'.terminal).0)
                  (api.account_info (api.positions_get s'.terminal).1).0 reading))
  IsReading magic before (err e, s) = e ≡ connection_error
