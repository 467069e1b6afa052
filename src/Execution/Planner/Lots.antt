-- ===== src/Execution/Planner/Lots.antt =====
-- src/utils/lot_calculator.py: the lots of a risk amount; `none` is a division by zero.
use bobis_quote_mt5_trading.Prelude.{Option, none, some, if◌then◌else◌}
use bobis_quote_mt5_trading.Prelude.Floats.{Floats, num, sub, mul, div, lt, eq, fmin, fabs}
use bobis_quote_mt5_trading.Domain.Position.{SymbolInfo}
use bobis_quote_mt5_trading.Utils.Price.{pip_size, normalise_lots}

pub record LotCalcResult (F : Type 0) : Type 0 where
  pub lot_size : F
  pub risk_amount : F
  pub risk_pips : F

module _ {F : Type 0} ⦃fl : Floats F⦄ (risk_amount : F) (si : SymbolInfo F)
    (max_lot min_lot : F) where
  abbrev pub smallest : (risk_pips : F) → Option (LotCalcResult F)
  smallest risk_pips =
      some (record { lot_size = min_lot; risk_amount = risk_amount; risk_pips = risk_pips })

  unfoldable pub size_by : (risk_pips loss_per_lot : F) → Option (LotCalcResult F)
  size_by risk_pips loss_per_lot =
      let lots =
        normalise_lots (div risk_amount loss_per_lot) si.lot_step min_lot
          (fmin max_lot si.lot_max) in
      if eq loss_per_lot (num 0)
      then none
      else if eq si.lot_step (num 0)
      then none
      else some (record { lot_size = lots; risk_amount = risk_amount; risk_pips = risk_pips })

  -- The formula of forex symbols, where the broker gave no loss of a lot.
  unfoldable pub size_by_ticks : (risk_pips pip : F) → Option (LotCalcResult F)
  size_by_ticks risk_pips pip =
      let pip_value = mul (div si.tick_value si.tick_size) pip in
      if eq si.tick_size (num 0)
      then smallest risk_pips
      else if eq pip_value (num 0)
      then smallest risk_pips
      else size_by risk_pips (mul risk_pips pip_value)

  unfoldable pub calculate_lot_size :
      (entry_price stop_loss : F) → (loss_per_lot : Option F) → Option (LotCalcResult F)
  calculate_lot_size entry_price stop_loss loss_per_lot =
      let pip = pip_size si.point si.digits in
      let risk_pips = div (fabs (sub entry_price stop_loss)) pip in
      if eq pip (num 0)
      then none
      else if eq risk_pips (num 0)
      then smallest (num 0)
      else elim loss_per_lot [
        | none ↦ size_by_ticks risk_pips pip
        | some loss ↦
            if lt (num 0) loss then size_by risk_pips loss else size_by_ticks risk_pips pip
      ]
