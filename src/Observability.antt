-- ===== src/Observability.antt =====
-- Observability: internal/observability.
pub mod Ring
pub mod Held
pub mod Listed
pub mod Recent
pub mod Latest
