-- ===== src/Infra.antt =====
-- src/infra/: what the core uses of the infrastructure.
pub mod Metrics
