-- ===== src/Hub.antt =====
-- src/hub/: the slots of the brokers, and the two servers in front of them.
pub mod State
pub mod Internal
pub mod Public
