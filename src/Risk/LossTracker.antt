-- ===== src/Risk/LossTracker.antt =====
-- src/risk/loss_tracker.py. Each method holds the lock throughout and is one step here. `now` is the
-- instant of the call: a method that reads the date and the time reads them at one instant.
pub mod Pause
pub mod Session
pub mod Sizing
use bobis_quote_mt5_trading.Prelude.{
  ℕ, zero, suc, ◌+◌, ◌-◌, ◌*◌, ◌/◌, ◌^◌, Bool, true, false, not, ◌&&◌, ◌||◌, Option, none, some,
  List, [], ◌∷◌, ◌++◌, length, ltb, leb, ◌==◌, if◌then◌else◌, Eq_nat, Eq_option, take_last,
}
use bobis_quote_mt5_trading.Prelude.Floats.{Floats, num, decimal, add, sub, mul, div, le, lt, fmax}

-- The engine's time zone (zoneinfo): the date at an instant, and the instant of a date's midnight.
pub record Zone : Type 0 where
  pub date : ℕ → ℕ
  pub midnight : ℕ → ℕ

-- The messages, with what is formatted into them.
pub data PauseReason (F : Type 0) : Type 0 where
  no_reason : PauseReason F
  daily_loss : (pct limit : F) → PauseReason F
  profit_drawdown : (drawback limit peak current : F) → PauseReason F
  rolling_drawdown : (drawdown limit : F) → (window : ℕ) → PauseReason F

pub record LossTracker (F : Type 0) : Type 0 where
  pub limit : F
  pub tz : Zone
  pub max_profit_drawdown : F
  pub rolling_window_size : ℕ
  pub rolling_drawdown_pct : F
  pub current_pct : F
  pub start_of_day_equity : F
  pub tracked_day : Option ℕ
  pub paused_until : ℕ
  pub pause_reason : PauseReason F
  pub session_closed_pnl : F
  pub session_closed_peak : F
  pub profit_drawback_pct : F
  pub equity_window : List F
  pub equity_peak : F

-- The end of a day: 24 hours after its midnight.
unfoldable pub day_end_ms : Zone → ℕ → ℕ
day_end_ms tz day = tz.midnight day + 24 * 3_600_000

-- max(1, int(max_losing_streak))
abbrev pub slots : ℕ → ℕ
slots max_losing_streak = if ltb 1 max_losing_streak then max_losing_streak else 1

module _ {F : Type 0} ⦃fl : Floats F⦄ where
  unfoldable pub init : F → Zone → F → ℕ → F → LossTracker F
  init max_daily_loss_pct tz max_equity_drawdown_pct window pct = record {
    limit = max_daily_loss_pct;
    tz = tz;
    max_profit_drawdown = max_equity_drawdown_pct;
    rolling_window_size = window;
    rolling_drawdown_pct = pct;
    current_pct = num 0;
    start_of_day_equity = num 0;
    tracked_day = none;
    paused_until = 0;
    pause_reason = no_reason;
    session_closed_pnl = num 0;
    session_closed_peak = num 0;
    profit_drawback_pct = num 0;
    equity_window = [];
    equity_peak = num 0;
  }

  abbrev latched : F → F
  latched start_equity = if lt (num 0) start_equity then start_equity else num 0

  -- A new trading day, or the equity of a day that began without one.
  unfoldable pub roll_day : ℕ → F → LossTracker F → LossTracker F
  roll_day today start_equity s =
      if not (s.tracked_day == some today)
      then record s {
        tracked_day = some today;
        profit_drawback_pct = num 0;
        session_closed_pnl = num 0;
        session_closed_peak = num 0;
        equity_window = [];
        paused_until = 0;
        pause_reason = no_reason;
        start_of_day_equity = latched start_equity;
        equity_peak = latched start_equity;
      }
      else if le s.start_of_day_equity (num 0) && lt (num 0) start_equity
      then record s { start_of_day_equity = start_equity; equity_peak = start_equity }
      else s

  unfoldable pub lift_expired : ℕ → LossTracker F → LossTracker F
  lift_expired now s =
      if not (s.paused_until == 0) && leb s.paused_until now
      then record s { paused_until = 0; pause_reason = no_reason }
      else s

  abbrev pause : ℕ → PauseReason F → LossTracker F → LossTracker F
  pause until reason s = record s { paused_until = until; pause_reason = reason }

  unfoldable pub daily_loss_guard : ℕ → F → LossTracker F → LossTracker F
  daily_loss_guard today pct s =
      if le s.limit pct then pause (day_end_ms s.tz today) (daily_loss pct s.limit) s else s

  unfoldable pub update_daily_loss_pct : ℕ → F → F → LossTracker F → LossTracker F
  update_daily_loss_pct now pct start_equity s =
      let today = s.tz.date now in
      let rolled = roll_day today start_equity (record s { current_pct = pct }) in
      daily_loss_guard today pct (lift_expired now rolled)

  -- Guards 2 and 3 leave a pause that still runs as it is.
  unfoldable pub pause_if_free : ℕ → PauseReason F → LossTracker F → LossTracker F
  pause_if_free now reason s =
      if s.paused_until == 0 || leb s.paused_until now
      then pause (day_end_ms s.tz (s.tz.date now)) reason s
      else s

  unfoldable pub book_close : F → LossTracker F → LossTracker F
  book_close realized_pnl s =
      let pnl = add s.session_closed_pnl realized_pnl in
      let peak : F = if lt s.session_closed_peak pnl then pnl else s.session_closed_peak in
      record s {
        session_closed_pnl = pnl;
        session_closed_peak = peak;
        profit_drawback_pct =
            if lt (num 0) peak && lt (num 0) s.start_of_day_equity
            then mul (div (sub peak pnl) s.start_of_day_equity) (num 100)
            else num 0;
      }

  unfoldable pub profit_guard : ℕ → LossTracker F → LossTracker F
  profit_guard now s =
      if lt (num 0) s.max_profit_drawdown && le s.max_profit_drawdown s.profit_drawback_pct
      then pause_if_free now
          (profit_drawdown s.profit_drawback_pct s.max_profit_drawdown s.session_closed_peak
            s.session_closed_pnl)
          s
      else s

  unfoldable pub record_trade_closed : ℕ → F → LossTracker F → LossTracker F
  record_trade_closed now realized_pnl s = profit_guard now (book_close realized_pnl s)

  unfoldable pub max_of : F → List F → F
  max_of x [] = x
  max_of x (y ∷ ys) = max_of (fmax x y) ys

  unfoldable pub min_of : F → List F → F
  min_of x [] = x
  min_of x (y ∷ ys) = min_of (if lt y x then y else x) ys

  -- The peak-to-trough swing of a window of at least three readings, as a percentage of the peak.
  unfoldable pub rolling_dd : List F → Option F
  rolling_dd (x ∷ y ∷ z ∷ rest) =
      let w_peak = max_of x (y ∷ z ∷ rest) in
      let w_trough = min_of x (y ∷ z ∷ rest) in
      if lt (num 0) w_peak then some (mul (div (sub w_peak w_trough) w_peak) (num 100)) else none
  rolling_dd _ = none

  unfoldable pub rolling_guard : ℕ → LossTracker F → LossTracker F
  rolling_guard now s = elim (rolling_dd s.equity_window) [
    | none ↦ s
    | some dd ↦
        if le s.rolling_drawdown_pct dd
        then pause_if_free now (rolling_drawdown dd s.rolling_drawdown_pct (length s.equity_window))
            s
        else s
  ]

  -- The display peak.
  unfoldable pub track_peak : F → LossTracker F → LossTracker F
  track_peak equity s = if lt s.equity_peak equity then record s { equity_peak = equity } else s

  unfoldable pub push_reading : F → LossTracker F → LossTracker F
  push_reading equity s = record s {
    equity_window = take_last s.rolling_window_size (s.equity_window ++ equity ∷ []);
  }

  unfoldable pub watch_window : ℕ → F → LossTracker F → LossTracker F
  watch_window now equity s =
      if ltb 0 s.rolling_window_size && lt (num 0) s.rolling_drawdown_pct
      then rolling_guard now (push_reading equity s)
      else s

  unfoldable pub update_equity : ℕ → F → LossTracker F → LossTracker F
  update_equity now equity s =
      if le equity (num 0) then s else watch_window now equity (track_peak equity s)

  -- `none` is (False, ""); otherwise the reason, where `no_reason` shows the default text, and the
  -- whole minutes left.
  unfoldable pub is_paused : ℕ → LossTracker F → Option (PauseReason F × ℕ)
  is_paused now s =
      if not (s.paused_until == 0) && ltb now s.paused_until
      then some (s.pause_reason, (s.paused_until - now) / 60_000)
      else none

  unfoldable pub daily_risk_amount : ℕ → LossTracker F → F
  daily_risk_amount max_losing_streak s =
      if le s.start_of_day_equity (num 0)
      then num 0
      else div (mul s.start_of_day_equity (div s.limit (num 100))) (num (slots max_losing_streak))

  unfoldable pub tier_cap_pct : F → F → F → F → F
  tier_cap_pct balance base_threshold base_cap_pct floor_pct =
      if le balance (num 0) || le base_threshold (num 0) || le balance base_threshold
      then base_cap_pct
      else let doublings = fl.floor (fl.log2 (div balance base_threshold)) in
        fmax floor_pct (div base_cap_pct (num (2 ^ doublings)))

  unfoldable pub balance_tier_cap_pct : F → F → F → LossTracker F → F
  balance_tier_cap_pct base_threshold base_cap_pct floor_pct s =
      tier_cap_pct s.start_of_day_equity base_threshold base_cap_pct floor_pct

  unfoldable pub balance_tier_cap_amount : F → F → F → LossTracker F → F
  balance_tier_cap_amount base_threshold base_cap_pct floor_pct s =
      let balance = s.start_of_day_equity in
      if le balance (num 0)
      then num 0
      else mul balance (div (tier_cap_pct balance base_threshold base_cap_pct floor_pct) (num 100))

  unfoldable pub balance_tier_cap : F → F → F → LossTracker F → F × F
  balance_tier_cap base_threshold base_cap_pct floor_pct s =
      let balance = s.start_of_day_equity in
      if le balance (num 0)
      then (base_cap_pct, num 0)
      else let cap_pct = tier_cap_pct balance base_threshold base_cap_pct floor_pct in
        (cap_pct, mul balance (div cap_pct (num 100)))

-- The dict of `stats`.
pub record Stats (F : Type 0) : Type 0 where
  pub daily_loss_pct : F
  pub start_of_day_equity : F
  pub daily_budget : F
  pub paused : Bool
  pub pause_reason : PauseReason F
  pub session_closed_pnl : F
  pub session_closed_peak : F
  pub profit_drawback_pct : F
  pub equity_peak : F
  pub rolling_window_samples : ℕ

module _ {F : Type 0} ⦃fl : Floats F⦄ where
  unfoldable pub stats : ℕ → LossTracker F → Stats F
  stats now s =
      let paused = not (s.paused_until == 0) && ltb now s.paused_until in
      record {
        daily_loss_pct = fl.round s.current_pct 4;
        start_of_day_equity = fl.round s.start_of_day_equity 2;
        daily_budget =
            if lt (num 0) s.start_of_day_equity
            then fl.round (mul s.start_of_day_equity (div s.limit (num 100))) 2
            else num 0;
        paused = paused;
        pause_reason = if paused then s.pause_reason else no_reason;
        session_closed_pnl = fl.round s.session_closed_pnl 2;
        session_closed_peak = fl.round s.session_closed_peak 2;
        profit_drawback_pct = fl.round s.profit_drawback_pct 4;
        equity_peak = fl.round s.equity_peak 2;
        rolling_window_samples = length s.equity_window;
      }
