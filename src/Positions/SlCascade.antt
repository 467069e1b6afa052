-- ===== src/Positions/SlCascade.antt =====
-- src/positions/sl_cascade.py. The broker is a state `B` with a call that modifies a position, which
-- says whether it succeeded; a call that raises may leave the broker in any state. `now` is the clock's
-- reading, one for the whole cascade.
pub mod Favor
use bobis_quote_mt5_trading.Prelude.{
  ℕ, String, Bool, true, false, not, ◌||◌, Option, none, some, List, [], ◌∷◌, ◌==◌, if◌then◌else◌,
  Eq_string,
}
use bobis_quote_mt5_trading.Prelude.Floats.{Floats, lt}
use bobis_quote_mt5_trading.Domain.Trade.{Trade, OrderSide, buy, sell}
use bobis_quote_mt5_trading.Positions.Store.{Store, stop_loss, update, get_open_trades}

abbrev pub same_side : OrderSide → OrderSide → Bool
same_side buy buy = true
same_side sell sell = true
same_side _ _ = false

module _ {F : Type 0} ⦃fl : Floats F⦄ where
  unfoldable pub is_more_favorable : OrderSide → (candidate_sl current_sl : F) → Bool
  is_more_favorable buy candidate_sl current_sl = lt current_sl candidate_sl
  is_more_favorable sell candidate_sl current_sl = lt candidate_sl current_sl

  -- The four tests of the loop: the ticket to modify, if the trade is one to move.
  unfoldable pub ticket_to_move : Trade F → Trade F → Option ℕ
  unfolding is_more_favorable
  ticket_to_move new_trade existing =
      if existing.id == new_trade.id
      then none
      else if not (existing.symbol == new_trade.symbol)
          || not (same_side existing.side new_trade.side)
      then none
      else if not (is_more_favorable existing.side new_trade.stop_loss existing.stop_loss)
      then none
      else existing.entry_ticket

module _ {F B : Type 0} ⦃fl : Floats F⦄ (modify_position : B → ℕ → (sl tp : F) → Bool × B)
    (now : ℕ) where
  unfoldable pub move : Trade F → Trade F → Option ℕ → Store F × B → Store F × B
  move new_trade existing none (s, b) = (s, b)
  move new_trade existing (some ticket) (s, b) =
      let answer = modify_position b ticket new_trade.stop_loss existing.tp2 in
      elim answer.0 [
        | true ↦ ((update now existing.id (stop_loss new_trade.stop_loss ∷ []) s).1, answer.1)
        | false ↦ (s, answer.1)
      ]

  unfoldable pub cascade_over : Trade F → List (Trade F) → Store F × B → Store F × B
  unfolding move
  cascade_over new_trade [] sb = sb
  cascade_over new_trade (existing ∷ rest) sb =
      cascade_over new_trade rest (move new_trade existing (ticket_to_move new_trade existing) sb)

  unfoldable pub cascade_sl_to_stacked_position : Trade F → Store F × B → Store F × B
  unfolding cascade_over
  cascade_sl_to_stacked_position new_trade sb = cascade_over new_trade (get_open_trades sb.0) sb
