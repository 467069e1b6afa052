-- ===== src/Domain.antt =====
-- The data that the components exchange (src/domain/).
pub mod Signal
pub mod Trade
pub mod Position
