-- ===== src/Positions/Manager/Verdict.antt =====
-- Why a position is said to have closed: what stands behind each reason that `resolve` gives.
use bobis_quote_mt5_trading.Prelude.{◌≡◌, ◌⊎◌, Bool, true, false, Option, none, some}
use bobis_quote_mt5_trading.Prelude.Floats.{Floats, truthy}
use bobis_quote_mt5_trading.Domain.Trade.{Trade, CloseReason}
use bobis_quote_mt5_trading.Positions.Manager.{reached, stopped, calculate_realized_rr}
use bobis_quote_mt5_trading.Positions.Manager.Closing.{Resolution}

module _ {F : Type 0} ⦃fl : Floats F⦄ (trade : Trade F) (known : Option F)
    (said : Option (Bool × F)) where
  abbrev Seen : (F → Type 0) → Type 0
  Seen P = (p : F) × ((known ≡ some p) × (truthy trade.tp2 ≡ true) × P p)

  abbrev Said : Bool → Type 0
  Said is_tp = (p : F) × (said ≡ some (is_tp, p))

  -- What each reason rests on: the broker's own word for a deal, or else a known price and the levels.
  abbrev pub Rests : CloseReason → Resolution F → Type 0
  Rests CloseReason.tp2_hit r = Said true ⊎ Seen (λ p. reached trade.side p trade.tp2 ≡ true)
  Rests CloseReason.sl_hit r =
      Said false
      ⊎ Seen (λ p.
        (reached trade.side p trade.tp2 ≡ false) × (stopped trade.side p trade.stop_loss ≡ true))
  Rests CloseReason.manual r = Seen (λ p.
      (reached trade.side p trade.tp2 ≡ false) × (stopped trade.side p trade.stop_loss ≡ false))
  Rests CloseReason.unknown r =
      ((known ≡ none) × (r.close_price ≡ none) × (r.realized_rr ≡ none))
      ⊎ (truthy trade.tp2 ≡ false)
  Rests _ r = ⊥

  -- The flags agree with the reason.
  abbrev pub Flags : CloseReason → Resolution F → Type 0
  Flags CloseReason.tp2_hit r = r.tp2_hit ≡ true
  Flags CloseReason.sl_hit r = (r.tp2_hit ≡ false) × (r.sl_hit ≡ true)
  Flags _ r = (r.tp2_hit ≡ false) × (r.sl_hit ≡ false)

  -- A price that is not 0 is recorded with its R.
  abbrev pub At : F → Resolution F → Type 0
  At price r =
      truthy price ≡ true
      → (r.close_price ≡ some price) × (r.realized_rr ≡ some (calculate_realized_rr trade price))

  -- What is recorded: the deal's price where the broker says why, else the known price, else nothing.
  abbrev pub Recorded : (known : Option F) (said : Option (Bool × F)) → Resolution F → Type 0
  Recorded known (some (_, price)) r = At price r
  Recorded (some price) none r = At price r
  Recorded none none r = (r.close_price ≡ none) × (r.realized_rr ≡ none)

  abbrev pub IsBacked : Resolution F → Type 0
  IsBacked r = Rests r.close_reason r × Flags r.close_reason r × Recorded known said r
