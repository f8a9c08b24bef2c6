-- ===== src/Store.antt =====
-- Tables and effects: what the services of the control plane use of gorm and of Go's errors.
pub mod Base
pub mod Memory
pub mod Entities
pub mod EntityMemory
pub mod Effect
pub mod Program
