-- ===== src/Examples/RiskRuns.antt =====
-- The trackers' properties, on the sample states.
use bobis_quote_mt5_trading.Prelude.{◌≤◌, ◌<◌, ◌≡◌, ◌≢◌, refl, true, none, [], ◌∷◌, arith}
use bobis_quote_mt5_trading.Prelude.Floats.{num, decimal}
use bobis_quote_mt5_trading.Risk.LossTracker.{
  LossTracker, day_end_ms, is_paused, update_daily_loss_pct,
}
use bobis_quote_mt5_trading.Risk.LossTracker.Pause.{
  trade_closed, equity, calls, daily_loss_pauses, daily_loss_after_24h,
}
use bobis_quote_mt5_trading.Risk.LossTracker.Session.{IsConsistent}
use bobis_quote_mt5_trading.Risk.ClusterTracker.{
  ClusterState, concurrent, planned_risk, used_r, preview_state, reserve,
}
use bobis_quote_mt5_trading.Risk.ClusterTracker.Slots.{
  admitted, Reach, here, next, Reach-concurrent,
}
use bobis_quote_mt5_trading.Examples.Fixed.{Fixed, floats}
use bobis_quote_mt5_trading.Examples.Samples.{tracker, utc, long_days, group}

noon : 43_200_000 < day_end_ms utc 0
unfolding day_end_ms
noon = omega arith

-- A loss of 7 percent at noon, and a win and a reading after it.
daily_loss_pauses_example :
    is_paused 50_000_000 (
      calls
        (trade_closed 44_000_000 (num 50) ∷ equity 45_000_000 (num 900) ∷ [])
        (update_daily_loss_pct 43_200_000 (num 7) (num 1000) tracker))
    ≢ none
unfolding day_end_ms
daily_loss_pauses_example =
    daily_loss_pauses tracker 43_200_000 (num 7) (num 1000)
      (trade_closed 44_000_000 (num 50) ∷ equity 45_000_000 (num 900) ∷ []) 50_000_000 refl
      ((refl, omega arith), ((refl, omega arith), tt)) (omega arith)

abbrev autumn_tracker : LossTracker Fixed
autumn_tracker = record tracker { tz = long_days }

daily_loss_after_24h_example :
    is_paused 87_000_000 (update_daily_loss_pct 87_000_000 (num 7) (num 1000) autumn_tracker) ≡ none
unfolding day_end_ms
daily_loss_after_24h_example =
    daily_loss_after_24h autumn_tracker 87_000_000 (num 7) (num 1000) refl (omega arith)

tracker-IsConsistent : IsConsistent tracker
tracker-IsConsistent = record {
  peak_total = refl;
  peak_zero = refl;
  drawback = refl;
  window = omega arith;
}

-- A session that opened with 1000, made 100 and is at its peak.
abbrev winning : LossTracker Fixed
winning = record tracker {
  start_of_day_equity = num 1000;
  session_closed_pnl = num 300;
  session_closed_peak = num 300;
}

abbrev today : ClusterState Fixed
today = record {
  day = 0;
  pending = [];
  opened = [];
  open_signal_map = [];
  realized_loss_r = num 1;
  loss_count = 1;
}

admits_today : (preview_state group today).approved ≡ true
unfolding preview_state planned_risk used_r
admits_today = refl

one_reserved : Reach group today (reserve "sig-1" (preview_state group today).planned_risk_r today)
one_reserved = next here (admitted "sig-1" admits_today refl)

Reach-concurrent_example :
    concurrent (reserve "sig-1" (preview_state group today).planned_risk_r today) ≤ 2
Reach-concurrent_example = Reach-concurrent group one_reserved (omega arith)

abbrev beaten : ClusterState Fixed
beaten = record today { loss_count = 2; realized_loss_r = decimal 15 1 }
