-- ===== src/Execution.antt =====
-- src/execution/: from a signal to an order.
pub mod DailyLoss
pub mod Engine
pub mod Orders
pub mod Planner
