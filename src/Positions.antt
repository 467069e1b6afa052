-- ===== src/Positions.antt =====
-- src/positions/: what the program holds about its trades.
pub mod Manager
pub mod Store
pub mod SlCascade
pub mod Pending
