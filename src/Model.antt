-- ===== src/Model.antt =====
-- The entities and enumerations of internal/shared/model/entities.go. An identifier of type `uuid.UUID`
-- is a number, and 0 is `uuid.Nil`. A pointer to a value that may be missing is an `Option`. The
-- columns that gorm keeps by itself are left out but for the times of creation and of the last update
-- where a query reads them.
pub mod Slot
pub mod Scheduler
pub mod Release
pub mod Event
pub mod Service
