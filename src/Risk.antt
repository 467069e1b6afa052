-- ===== src/Risk.antt =====
-- src/risk/: the trackers, the rules and the engine that decide whether a signal may be traded.
pub mod Rules
pub mod LossTracker
pub mod EquityThrottle
pub mod ClusterTracker
pub mod Engine
