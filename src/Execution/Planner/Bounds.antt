-- ===== src/Execution/Planner/Bounds.antt =====
-- What every plan keeps to: the risk ceiling, the range of the lots and the signal's levels.
use bobis_quote_mt5_trading.Prelude.{◌≡◌, ◌⊎◌, true, Option, none, some}
use bobis_quote_mt5_trading.Prelude.Floats.{Floats, num, le}
use bobis_quote_mt5_trading.Config.{RiskConfig}
use bobis_quote_mt5_trading.Domain.Signal.{InboundSignal}
use bobis_quote_mt5_trading.Domain.Trade.{TradePlan}
use bobis_quote_mt5_trading.Domain.Position.{SymbolInfo}
use bobis_quote_mt5_trading.Risk.LossTracker.{LossTracker}
use bobis_quote_mt5_trading.Execution.Planner.Lots.{LotCalcResult}
use bobis_quote_mt5_trading.Execution.Planner.{risk_amount, tier_cap_of}

module _ {F : Type 0} ⦃fl : Floats F⦄ (si : SymbolInfo F) (max_lot min_lot : F) where
  -- The configured minimum, or the rounding of a volume from it up, and above it within both maxima.
  abbrev pub IsLot : F → Type 0
  IsLot lots =
      (lots ≡ min_lot)
      ⊎ ((x : F) × ((lots ≡ fl.round x 2)
            × (le min_lot x ≡ true)
            × ((x ≡ min_lot) ⊎ ((le x max_lot ≡ true) × (le x si.lot_max ≡ true)))))

  -- A result for the risk that was asked.
  abbrev pub IsSized : (risk : F) → Option (LotCalcResult F) → Type 0
  IsSized risk none = Unit
  IsSized risk (some r) = (r.risk_amount ≡ risk) × IsLot r.lot_size

module _ {F : Type 0} ⦃fl : Floats F⦄ (risk : RiskConfig F) (tracker : LossTracker F)
    (signal : InboundSignal F) (si : SymbolInfo F) where
  abbrev pub IsWithinLimits : Option (TradePlan F) → Type 0
  IsWithinLimits none = Unit
  IsWithinLimits (some p) =
      ((p.entry_price ≡ signal.entry_price)
        × (p.stop_loss ≡ signal.stop_loss)
        × (p.tp2 ≡ signal.tp2))
      × (le p.risk_amount (tier_cap_of risk tracker) ≡ true)
      × ((le (num 0) p.risk_multiplier ≡ true) × (le p.risk_multiplier (num 1) ≡ true))
      × IsLot si risk.max_lot_size risk.min_lot_size p.lot_size
