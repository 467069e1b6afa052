-- ===== src/Risk/EquityThrottle.antt =====
-- src/risk/equity_throttle.py. Each method that holds the lock is one step here, at the instant `now`.
pub mod Contribution
pub mod Drawdown
pub mod Window
use bobis_quote_mt5_trading.Prelude.{
  ℕ, ◌+◌, ◌*◌, Bool, true, false, ◌&&◌, Option, none, some, List, [], ◌∷◌, ◌++◌, map, length, ltb,
  if◌then◌else◌,
}
use bobis_quote_mt5_trading.Prelude.Floats.{Floats, num, lt}
use bobis_quote_mt5_trading.Infra.Metrics.{Metrics, increment, set_gauge}
use bobis_quote_mt5_trading.Domain.Trade.{Trade}
use Contribution.{Row, Entry, compute_drawdown_r, contribution_from_trade, contribution_from_row}

-- EquityThrottleConfig of src/config/settings.py.
pub record EquityThrottleConfig (F : Type 0) : Type 0 where
  pub enabled : Bool
  pub drawdown_threshold_r : F
  pub release_threshold_r : F
  pub risk_multiplier : F
  pub window_days : ℕ

pub record ThrottlePreview (F : Type 0) : Type 0 where
  pub multiplier : F
  pub drawdown_r : F
  pub engaged : Bool

pub record EquityThrottle (F : Type 0) : Type 0 where
  pub config : EquityThrottleConfig F
  pub window : List (Entry F)
  pub engaged : Bool
  pub dd_r : F

abbrev pub day_ms : ℕ
day_ms = 86_400_000

module _ {F : Type 0} ⦃fl : Floats F⦄ where
  -- `while window and window[0][0] < cutoff`, with cutoff = now - window_days * day_ms.
  unfoldable pub prune : ℕ → ℕ → List (Entry F) → List (Entry F)
  prune now days [] = []
  prune now days ((t, c) ∷ w) =
      let rest = prune now days w in if ltb (t + days * day_ms) now then rest else (t, c) ∷ w

  unfoldable pub switch : EquityThrottleConfig F → F → Bool → Bool
  switch cfg dd was =
      if lt cfg.drawdown_threshold_r dd
      then true
      else if lt dd cfg.release_threshold_r
      then false
      else was

  unfoldable pub refreshed : ℕ → EquityThrottle F → EquityThrottle F
  refreshed now s =
      let w = prune now s.config.window_days s.window in
      let dd = compute_drawdown_r (map (λ e. e.1) w) in
      record s { window = w; dd_r = dd; engaged = switch s.config dd s.engaged }

  abbrev pub sizing : EquityThrottle F → F
  sizing s = if s.engaged && s.config.enabled then s.config.risk_multiplier else num 1

  -- The metrics of a refresh: a change of state counts, and the gauges are set.
  unfoldable pub report : {R : Type 0} → Bool → EquityThrottle F → Metrics F R → Metrics F R
  report was s m =
      let m1 : Metrics F _ =
        if s.engaged
        then if was then m else increment "risk.throttle_engaged" 1 m
        else if was
        then increment "risk.throttle_released" 1 m
        else m in
      set_gauge "risk.equity_throttle_multiplier" (sizing s)
        (set_gauge "risk.equity_throttle_dd_r" (fl.round s.dd_r 4) m1)

  unfoldable pub refresh :
      {R : Type 0} → ℕ → EquityThrottle F → Metrics F R → EquityThrottle F × Metrics F R
  refresh now s m = let s' = refreshed now s in (s', report s.engaged s' m)

  unfoldable pub push : Entry F → EquityThrottle F → EquityThrottle F
  push entry s = record s { window = s.window ++ entry ∷ [] }

  abbrev record_entry :
      {R : Type 0}
      → ℕ
      → Option (Entry F)
      → EquityThrottle F
      → Metrics F R
      → EquityThrottle F × Metrics F R
  record_entry now none s m = (s, m)
  record_entry now (some entry) s m = refresh now (push entry s) m

  unfoldable pub record_trade_closed :
      {R : Type 0} → ℕ → Trade F → EquityThrottle F → Metrics F R → EquityThrottle F × Metrics F R
  record_trade_closed now trade s m = record_entry now (contribution_from_trade now trade) s m

  unfoldable pub contributions : List (Row F) → List (Entry F)
  contributions [] = []
  contributions (row ∷ rows) = elim (contribution_from_row row) [
    | none ↦ contributions rows
    | some entry ↦ entry ∷ contributions rows
  ]

  -- list.sort(key=closed_at), which is stable.
  unfoldable pub insert_entry : Entry F → List (Entry F) → List (Entry F)
  insert_entry e [] = e ∷ []
  insert_entry e (x ∷ xs) =
      let rest = insert_entry e xs in if ltb x.0 e.0 then x ∷ rest else e ∷ x ∷ xs

  unfoldable pub sort_entries : List (Entry F) → List (Entry F)
  unfolding insert_entry
  sort_entries [] = []
  sort_entries (x ∷ xs) = insert_entry x (sort_entries xs)

  unfoldable pub hydrate :
      {R : Type 0}
      → ℕ
      → List (Row F)
      → EquityThrottle F
      → Metrics F R
      → EquityThrottle F × Metrics F R
  hydrate now rows s m = refresh now (record s { window = sort_entries (contributions rows) }) m

  unfoldable pub preview_of : EquityThrottle F → ThrottlePreview F
  preview_of s = record {
    multiplier = sizing s;
    drawdown_r = s.dd_r;
    engaged = s.engaged && s.config.enabled;
  }

  unfoldable pub preview :
      {R : Type 0}
      → ℕ
      → EquityThrottle F
      → Metrics F R
      → ThrottlePreview F × EquityThrottle F × Metrics F R
  preview now s m = let (s', m') = refresh now s m in (preview_of s', s', m')

-- The dict of `stats`.
pub record ThrottleStats (F : Type 0) : Type 0 where
  pub enabled : Bool
  pub engaged : Bool
  pub multiplier : F
  pub drawdown_r : F
  pub threshold_r : F
  pub release_r : F
  pub window_days : ℕ
  pub samples : ℕ

module _ {F : Type 0} ⦃fl : Floats F⦄ where
  unfoldable pub stats_of : EquityThrottle F → ThrottleStats F
  stats_of s = record {
    enabled = s.config.enabled;
    engaged = s.engaged && s.config.enabled;
    multiplier = sizing s;
    drawdown_r = fl.round s.dd_r 4;
    threshold_r = s.config.drawdown_threshold_r;
    release_r = s.config.release_threshold_r;
    window_days = s.config.window_days;
    samples = length s.window;
  }

  unfoldable pub stats :
      {R : Type 0}
      → ℕ
      → EquityThrottle F
      → Metrics F R
      → ThrottleStats F × EquityThrottle F × Metrics F R
  stats now s m = let (s', m') = refresh now s m in (stats_of s', s', m')
