-- ===== src/Execution/DailyLoss.antt =====
-- ExecutionEngine.update_daily_loss (src/execution/engine.py): what the position poll tells the engine, and
-- through it the loss tracker.
use bobis_quote_mt5_trading.Prelude.{ℕ, Option, none, some, if◌then◌else◌}
use bobis_quote_mt5_trading.Prelude.Floats.{Floats, num, lt}
use bobis_quote_mt5_trading.Risk.LossTracker.{LossTracker, update_daily_loss_pct, update_equity}

pub record DailyLoss (F : Type 0) : Type 0 where
  pub daily_loss_pct : F
  pub loss_tracker : Option (LossTracker F)

module _ {F : Type 0} ⦃fl : Floats F⦄ where
  unfoldable pub tell_tracker :
      (now : ℕ) → (loss_pct start_equity current_equity : F) → LossTracker F → LossTracker F
  tell_tracker now loss_pct start_equity current_equity tracker =
      let told = update_daily_loss_pct now loss_pct start_equity tracker in
      if lt (num 0) current_equity then update_equity now current_equity told else told

  unfoldable pub update_daily_loss :
      (now : ℕ) → (loss_pct start_equity current_equity : F) → DailyLoss F → DailyLoss F
  update_daily_loss now loss_pct start_equity current_equity d = record {
    daily_loss_pct = loss_pct;
    loss_tracker = elim d.loss_tracker [
      | none ↦ none
      | some tracker ↦ some (tell_tracker now loss_pct start_equity current_equity tracker)
    ];
  }
