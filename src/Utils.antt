-- ===== src/Utils.antt =====
-- src/utils/: pure helpers.
pub mod Symbol
pub mod Price
pub mod Text
