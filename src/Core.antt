-- ===== src/Core.antt =====
-- src/core/: what the parts call each other through.
pub mod EventBus
