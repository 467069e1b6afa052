-- ===== src/Examples.antt =====
-- Concrete values and runs: a number format, sample signals and trades, and the properties at them.
pub mod Fixed
pub mod Samples
pub mod Desk
mod RiskRuns
mod EngineRuns
mod OtherRuns
mod PendingRuns
mod DeskRuns
mod ExecutionRuns
mod BusRuns
mod TerminalRuns
mod ConsumerRuns
mod SettingsRuns
mod HubRuns
