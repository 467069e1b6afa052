-- ===== src/Risk/ClusterTracker/Slots.antt =====
-- What a group's state goes through in a day, where signals are reserved only when admitted and
-- trades are opened only for reserved signals, as the execution engine does.
use bobis_quote_mt5_trading.Prelude.{
  ◌≤◌, ◌<◌, ◌+◌, ◌≡◌, String, true, false, some, arith, Eq_string,
}
use bobis_quote_mt5_trading.Prelude.Dict.{
  lookup, length-insert-le, length-remove-le, length-remove_present,
}
use bobis_quote_mt5_trading.Prelude.Floats.{Floats}
use bobis_quote_mt5_trading.Risk.ClusterTracker.{
  ClusterGroupConfig, ClusterState, concurrent, preview_state, reserve, release, open_trade,
  close_trade, book_loss,
}
use bobis_quote_mt5_trading.Risk.ClusterTracker.Preview.{preview_state-approved}

module _ {F : Type 0} ⦃fl : Floats F⦄ (g : ClusterGroupConfig F) where
  pub data Step (st u : ClusterState F) : Type 0 where
    admitted :
        (signal_id : String)
        → (preview_state g st).approved ≡ true
        → u ≡ reserve signal_id (preview_state g st).planned_risk_r st
        → Step st u
    released : (signal_id : String) → u ≡ release signal_id st → Step st u
    filled :
        (trade_id signal_id : String)
        → (r : F) → lookup signal_id st.pending ≡ some r
        → u ≡ open_trade trade_id signal_id st
        → Step st u
    ended :
        (trade_id signal_id : String)
        → (rr : F) → u ≡ close_trade trade_id signal_id rr st
        → Step st u

  pub data Reach (st : ClusterState F) : ClusterState F → Type 0 where
    here : Reach st st
    next : {u v : ClusterState F} → Reach st u → Step u v → Reach st v

  concurrent-reserve :
      (i : String) (r : F) (st : ClusterState F) → concurrent (reserve i r st) ≤ concurrent st + 1
  unfolding reserve
  concurrent-reserve i r st = omega (arith, length-insert-le i r st.pending)

  concurrent-release :
      (i : String) (st : ClusterState F) → concurrent (release i st) ≤ concurrent st
  unfolding release
  concurrent-release i st = omega (arith, length-remove-le i st.pending)

  concurrent-open_trade :
      (t i : String) (r : F) (st : ClusterState F)
      → lookup i st.pending ≡ some r
      → concurrent (open_trade t i st) ≤ concurrent st
  unfolding open_trade
  concurrent-open_trade t i r st h =
      omega (arith, length-remove_present i r st.pending h, length-insert-le t _ st.opened)

  concurrent-close_trade :
      (t i : String) (rr : F) (st : ClusterState F)
      → concurrent (close_trade t i rr st) ≤ concurrent st
  unfolding close_trade book_loss
  concurrent-close_trade t i rr st = ground (arith, length-remove-le t st.opened)

  -- `preview_state-approved` at its first half.
  room :
      (st : ClusterState F)
      → (preview_state g st).approved ≡ true
      → concurrent st < g.max_concurrent_positions
  room st a = ((preview_state-approved g st).0 a).positions

  Step-concurrent :
      {st u : ClusterState F}
      → Step st u
      → concurrent st ≤ g.max_concurrent_positions
      → concurrent u ≤ g.max_concurrent_positions
  Step-concurrent {st} (admitted i a e) h =
      rw e (omega (arith, room st a, concurrent-reserve i (preview_state g st).planned_risk_r st))
  Step-concurrent {st} (released i e) h = rw e (omega (arith, concurrent-release i st))
  Step-concurrent {st} (filled t i r p e) h = rw e (omega (arith, concurrent-open_trade t i r st p))
  Step-concurrent {st} (ended t i rr e) h = rw e (omega (arith, concurrent-close_trade t i rr st))

  -- Within one day, and as long as signals are reserved only when admitted and trades are opened only for
  -- signals that are reserved, a group that is within its limit stays so: it never holds more pending
  -- and open trades than it allows. A trade that is opened without a reservation, as a resting order
  -- that is filled after midnight or a restart, is not covered.
  pub Reach-concurrent :
      {st u : ClusterState F}
      → Reach st u
      → concurrent st ≤ g.max_concurrent_positions
      → concurrent u ≤ g.max_concurrent_positions
  Reach-concurrent here h = h
  Reach-concurrent (next r s) h = Step-concurrent s (Reach-concurrent r h)

  Step-loss_count : {st u : ClusterState F} → Step st u → st.loss_count ≤ u.loss_count
  unfolding reserve release open_trade close_trade book_loss
  Step-loss_count (admitted i a e) = ground (arith, e)
  Step-loss_count (released i e) = ground (arith, e)
  Step-loss_count (filled t i r p e) = ground (arith, e)
  Step-loss_count (ended t i rr e) = ground (arith, e)

  Reach-loss_count : {st u : ClusterState F} → Reach st u → st.loss_count ≤ u.loss_count
  Reach-loss_count here = omega arith
  Reach-loss_count (next r s) = omega (arith, Reach-loss_count r, Step-loss_count s)

  -- Once a group has taken its losses of the day, no later signal of the day is admitted, whatever is
  -- reserved, released, filled or closed in between.
  pub Reach-blocked :
      {st u : ClusterState F}
      → Reach st u
      → g.max_same_day_losses ≤ st.loss_count
      → (preview_state g u).approved ≡ false
  unfolding preview_state
  Reach-blocked r h = ground (arith, Reach-loss_count r)
