-- ===== src/Cron.antt =====
-- Cron expressions: internal/scheduler/application/cron.go. `Field` parses one field of an expression,
-- `Schedule` a whole one, `Calendar` is what the source uses of Go's UTC calendar, and `Next` is the
-- search for the next minute that a schedule names.
pub mod Field
pub mod FieldLaws
pub mod Values
pub mod Schedule
pub mod Calendar
pub mod Next
pub mod NextLaws
