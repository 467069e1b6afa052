-- ===== src/Risk/LossTracker/Pause.antt =====
-- How long a pause lasts.
use bobis_quote_mt5_trading.Prelude.{ℕ, ◌≤◌, ◌<◌, ◌≡◌, true, none, some, List, [], ◌∷◌, arith, ◌≢◌}
use bobis_quote_mt5_trading.Prelude.Floats.{Floats, le}
use bobis_quote_mt5_trading.Risk.LossTracker.{
  LossTracker, Zone, PauseReason, day_end_ms, roll_day, lift_expired, daily_loss_guard,
  update_daily_loss_pct, pause_if_free, book_close, profit_guard, record_trade_closed,
  rolling_guard, track_peak, push_reading, watch_window, update_equity, is_paused,
}

-- The calls that the poll thread and the signal thread make, with their instants.
pub data Call (F : Type 0) : Type 0 where
  daily_loss_pct : (now : ℕ) → (pct start_equity : F) → Call F
  trade_closed : (now : ℕ) → F → Call F
  equity : (now : ℕ) → F → Call F

abbrev pub time_of : {F : Type 0} → Call F → ℕ
time_of (daily_loss_pct now _ _) = now
time_of (trade_closed now _) = now
time_of (equity now _) = now

module _ {F : Type 0} ⦃fl : Floats F⦄ where
  unfoldable pub call : Call F → LossTracker F → LossTracker F
  call (daily_loss_pct now pct start) s = update_daily_loss_pct now pct start s
  call (trade_closed now pnl) s = record_trade_closed now pnl s
  call (equity now e) s = update_equity now e s

  unfoldable pub calls : List (Call F) → LossTracker F → LossTracker F
  calls [] s = s
  calls (c ∷ cs) s = calls cs (call c s)

-- Paused to the end of `day`, on `day`.
pub record IsPausedFor {F : Type 0} (tz : Zone) (day : ℕ) (s : LossTracker F) : Type 0 where
  pub zone : s.tz ≡ tz
  pub tracked : s.tracked_day ≡ some day
  pub until : s.paused_until ≡ day_end_ms tz day

-- An instant of the day, before the pause's end.
abbrev pub Within : Zone → ℕ → ℕ → Type 0
Within tz day now = (tz.date now ≡ day) × (now < day_end_ms tz day)

abbrev pub AllWithin : {F : Type 0} → Zone → ℕ → List (Call F) → Type 0
AllWithin tz day [] = Unit
AllWithin tz day (c ∷ cs) = Within tz day (time_of c) × AllWithin tz day cs

module _ {F : Type 0} ⦃fl : Floats F⦄ (tz : Zone) (day : ℕ) where
  update_daily_loss_pct-IsPausedFor :
      (now : ℕ) (pct start : F) (s : LossTracker F)
      → Within tz day now
      → IsPausedFor tz day s
      → IsPausedFor tz day (update_daily_loss_pct now pct start s)
  unfolding update_daily_loss_pct roll_day lift_expired daily_loss_guard
  update_daily_loss_pct-IsPausedFor now pct start s w p = ground arith

  pause_if_free-IsPausedFor :
      (now : ℕ) (r : PauseReason F) (s : LossTracker F)
      → Within tz day now
      → IsPausedFor tz day s
      → IsPausedFor tz day (pause_if_free now r s)
  unfolding pause_if_free
  pause_if_free-IsPausedFor now r s w p = ground arith

  record_trade_closed-IsPausedFor :
      (now : ℕ) (pnl : F) (s : LossTracker F)
      → Within tz day now
      → IsPausedFor tz day s
      → IsPausedFor tz day (record_trade_closed now pnl s)
  unfolding record_trade_closed profit_guard book_close pause_if_free
  record_trade_closed-IsPausedFor now pnl s w p = ground arith

  rolling_guard-IsPausedFor :
      (now : ℕ) (s : LossTracker F)
      → Within tz day now
      → IsPausedFor tz day s
      → IsPausedFor tz day (rolling_guard now s)
  unfolding rolling_guard pause_if_free
  rolling_guard-IsPausedFor now s w p = ground arith

  track_peak-IsPausedFor :
      (e : F) (s : LossTracker F) → IsPausedFor tz day s → IsPausedFor tz day (track_peak e s)
  unfolding track_peak
  track_peak-IsPausedFor e s p = ground arith

  push_reading-IsPausedFor :
      (e : F) (s : LossTracker F) → IsPausedFor tz day s → IsPausedFor tz day (push_reading e s)
  unfolding push_reading
  push_reading-IsPausedFor e s p = ground arith

  update_equity-IsPausedFor :
      (now : ℕ) (e : F) (s : LossTracker F)
      → Within tz day now
      → IsPausedFor tz day s
      → IsPausedFor tz day (update_equity now e s)
  unfolding update_equity watch_window
  update_equity-IsPausedFor now e s w p =
      let tracked = track_peak-IsPausedFor e s p in
      let pushed = push_reading-IsPausedFor e (track_peak e s) tracked in
      let guarded = rolling_guard-IsPausedFor now (push_reading e (track_peak e s)) w pushed in
      ground (arith, tracked, guarded)

  call-IsPausedFor :
      (c : Call F) (s : LossTracker F)
      → Within tz day (time_of c)
      → IsPausedFor tz day s
      → IsPausedFor tz day (call c s)
  unfolding call
  call-IsPausedFor (daily_loss_pct now pct start) s w p =
      update_daily_loss_pct-IsPausedFor now pct start s w p
  call-IsPausedFor (trade_closed now pnl) s w p = record_trade_closed-IsPausedFor now pnl s w p
  call-IsPausedFor (equity now e) s w p = update_equity-IsPausedFor now e s w p

  calls-IsPausedFor :
      (cs : List (Call F)) (s : LossTracker F)
      → AllWithin tz day cs
      → IsPausedFor tz day s
      → IsPausedFor tz day (calls cs s)
  unfolding calls
  calls-IsPausedFor [] s w p = p
  calls-IsPausedFor (c ∷ cs) s w p =
      calls-IsPausedFor cs (call c s) w.1 (call-IsPausedFor c s w.0 p)

fresh_pause :
    {F : Type 0} ⦃fl : Floats F⦄ (s : LossTracker F) (now : ℕ) (pct start : F)
    → le s.limit pct ≡ true
    → IsPausedFor s.tz (s.tz.date now) (update_daily_loss_pct now pct start s)
unfolding update_daily_loss_pct roll_day lift_expired daily_loss_guard
fresh_pause s now pct start over = ground arith

-- Whatever is reported on the same day after a daily loss at or above the limit, signals are told of
-- a pause until 24 hours after that day's midnight: no later call lifts it early.
pub daily_loss_pauses :
    {F : Type 0} ⦃fl : Floats F⦄ (s : LossTracker F) (now : ℕ) (pct start : F) (cs : List (Call F))
    (later : ℕ)
    → le s.limit pct ≡ true
    → AllWithin s.tz (s.tz.date now) cs
    → later < day_end_ms s.tz (s.tz.date now)
    → is_paused later (calls cs (update_daily_loss_pct now pct start s)) ≢ none
unfolding is_paused
daily_loss_pauses s now pct start cs later over w l =
    let p = calls-IsPausedFor s.tz (s.tz.date now) cs _ w (fresh_pause s now pct start over) in
    ground (arith, p)

-- On a day of more than 24 hours, a daily loss at or above the limit that is reported after the 24th
-- hour leaves signals unpaused, although the day's midnight is still to come.
pub daily_loss_after_24h :
    {F : Type 0} ⦃fl : Floats F⦄ (s : LossTracker F) (now : ℕ) (pct start : F)
    → le s.limit pct ≡ true
    → day_end_ms s.tz (s.tz.date now) ≤ now
    → is_paused now (update_daily_loss_pct now pct start s) ≡ none
unfolding is_paused
daily_loss_after_24h s now pct start over late =
    let p = fresh_pause s now pct start over in ground (arith, p)
