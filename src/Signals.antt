-- ===== src/Signals.antt =====
-- src/signals/: from the socket to the engine.
pub mod Queue
pub mod Validator
pub mod Consumer
