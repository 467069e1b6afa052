-- ===== src/Risk/LossTracker/Session.antt =====
-- Guards 2 and 3: what the session totals, the window and the pause are after each call.
use bobis_quote_mt5_trading.Prelude.{
  ℕ, ◌≤◌, ◌-◌, ◌≡◌, ◌≢◌, ◌↔◌, true, none, List, [], ◌∷◌, ◌++◌, arith, length, length-drop,
  take_last, refl, ◌<◌,
}
use bobis_quote_mt5_trading.Prelude.Floats.{Floats, IsOrdered, num, add, sub, mul, div, le, lt}
use bobis_quote_mt5_trading.Risk.LossTracker.{
  LossTracker, day_end_ms, roll_day, lift_expired, daily_loss_guard, update_daily_loss_pct,
  pause_if_free, book_close, profit_guard, record_trade_closed, rolling_guard, track_peak,
  push_reading, watch_window, update_equity, is_paused,
}
use bobis_quote_mt5_trading.Risk.LossTracker.Pause.{
  Call, daily_loss_pct, trade_closed, equity, call, calls,
}

-- The session peak is at least the session total and at least zero, the drawback is not negative, and
-- the window holds at most `rolling_window_size` readings.
pub record IsConsistent {F : Type 0} ⦃fl : Floats F⦄ (s : LossTracker F) : Type 0 where
  pub peak_total : le s.session_closed_pnl s.session_closed_peak ≡ true
  pub peak_zero : le (num 0) s.session_closed_peak ≡ true
  pub drawback : le (num 0) s.profit_drawback_pct ≡ true
  pub window : length s.equity_window ≤ s.rolling_window_size

module _ {F : Type 0} ⦃fl : Floats F⦄ (o : IsOrdered F) where
  length-take_last : (n : ℕ) (xs : List F) → length (take_last n xs) ≤ n
  length-take_last n xs = omega (arith, length-drop (length xs - n) xs)

  update_daily_loss_pct-IsConsistent :
      (now : ℕ) (pct start : F) (s : LossTracker F)
      → IsConsistent s
      → IsConsistent (update_daily_loss_pct now pct start s)
  unfolding update_daily_loss_pct roll_day lift_expired daily_loss_guard
  update_daily_loss_pct-IsConsistent now pct start s c = ground (arith, o.le_refl (num 0))

  drawback_nonneg :
      (pnl peak start : F)
      → le pnl peak ≡ true
      → lt (num 0) start ≡ true
      → le (num 0) (mul (div (sub peak pnl) start) (num 100)) ≡ true
  drawback_nonneg pnl peak start h pos =
      o.mul-nonneg _ _ (o.div-nonneg _ _ (o.sub-nonneg peak pnl h) pos)
        (o.decimal_mono 0 100 0 (omega arith))

  book_close-IsConsistent :
      (pnl : F) (s : LossTracker F) → IsConsistent s → IsConsistent (book_close pnl s)
  unfolding book_close
  book_close-IsConsistent pnl s c =
      let total = add s.session_closed_pnl pnl in
      ground (
        arith,
        o.le_refl (num 0),
        o.le_refl total,
        o.le_total total s.session_closed_peak,
        o.le_trans (num 0) s.session_closed_peak total,
        drawback_nonneg total total s.start_of_day_equity,
        drawback_nonneg total s.session_closed_peak s.start_of_day_equity,
      )

  profit_guard-IsConsistent :
      (now : ℕ) (s : LossTracker F) → IsConsistent s → IsConsistent (profit_guard now s)
  unfolding profit_guard pause_if_free
  profit_guard-IsConsistent now s c = ground arith

  rolling_guard-IsConsistent :
      (now : ℕ) (s : LossTracker F) → IsConsistent s → IsConsistent (rolling_guard now s)
  unfolding rolling_guard pause_if_free
  rolling_guard-IsConsistent now s c = ground arith

  track_peak-IsConsistent :
      (e : F) (s : LossTracker F) → IsConsistent s → IsConsistent (track_peak e s)
  unfolding track_peak
  track_peak-IsConsistent e s c = ground arith

  push_reading-IsConsistent :
      (e : F) (s : LossTracker F) → IsConsistent s → IsConsistent (push_reading e s)
  unfolding push_reading
  push_reading-IsConsistent e s c = record {
    peak_total = c.peak_total;
    peak_zero = c.peak_zero;
    drawback = c.drawback;
    window = length-take_last s.rolling_window_size (s.equity_window ++ e ∷ []);
  }

  update_equity-IsConsistent :
      (now : ℕ) (e : F) (s : LossTracker F) → IsConsistent s → IsConsistent (update_equity now e s)
  unfolding update_equity watch_window
  update_equity-IsConsistent now e s c =
      let tracked = track_peak-IsConsistent e s c in
      let pushed = push_reading-IsConsistent e (track_peak e s) tracked in
      let guarded = rolling_guard-IsConsistent now (push_reading e (track_peak e s)) pushed in
      ground (arith, tracked, guarded)

  call-IsConsistent : (c : Call F) (s : LossTracker F) → IsConsistent s → IsConsistent (call c s)
  unfolding call record_trade_closed
  call-IsConsistent (daily_loss_pct now pct start) s h =
      update_daily_loss_pct-IsConsistent now pct start s h
  call-IsConsistent (trade_closed now pnl) s h =
      profit_guard-IsConsistent now (book_close pnl s) (book_close-IsConsistent pnl s h)
  call-IsConsistent (equity now e) s h = update_equity-IsConsistent now e s h

  -- Every sequence of calls keeps the session peak at or above both the session total and zero, the
  -- drawback at or above zero, and the window within its size.
  pub calls-IsConsistent :
      (cs : List (Call F)) (s : LossTracker F) → IsConsistent s → IsConsistent (calls cs s)
  unfolding calls
  calls-IsConsistent [] s h = h
  calls-IsConsistent (c ∷ cs) s h = calls-IsConsistent cs (call c s) (call-IsConsistent c s h)

module _ {F : Type 0} ⦃fl : Floats F⦄ where
  -- Before the session has a positive peak, a close changes no pause.
  pub record_trade_closed_dormant :
      (now : ℕ) (pnl : F) (s : LossTracker F)
      → le (book_close pnl s).session_closed_peak (num 0) ≡ true
      → (record_trade_closed now pnl s).paused_until ≡ s.paused_until
  unfolding record_trade_closed profit_guard pause_if_free book_close
  record_trade_closed_dormant now pnl s h = ground arith

  book_close_keeps :
      (pnl : F) (s : LossTracker F)
      → ((book_close pnl s).paused_until ≡ s.paused_until)
        × ((book_close pnl s).tz ≡ s.tz)
        × ((book_close pnl s).max_profit_drawdown ≡ s.max_profit_drawdown)
  unfolding book_close
  book_close_keeps pnl s = (refl, refl, refl)

  -- Where no pause runs and the day is not over, a close pauses exactly if guard 2 is on and the
  -- drawback that the close leaves reaches its limit.
  pub record_trade_closed_pauses :
      (now : ℕ) (pnl : F) (s : LossTracker F)
      → is_paused now s ≡ none
      → now < day_end_ms s.tz (s.tz.date now)
      → (is_paused now (record_trade_closed now pnl s) ≢ none) ↔ (
          (lt (num 0) s.max_profit_drawdown ≡ true)
          × (le s.max_profit_drawdown (book_close pnl s).profit_drawback_pct ≡ true))
  unfolding is_paused record_trade_closed profit_guard pause_if_free
  record_trade_closed_pauses now pnl s free early =
      let k = book_close_keeps pnl s in (λ h. ground (arith, k), λ h e. ground (arith, k, e))
