-- ===== src/AutoEvent.antt =====
-- Auto events: internal/autoevent. `Duration` is the parsing of an interval, `Executor` what one
-- executor reads, compares and sends, `Manager` the executors of all devices.
pub mod Duration
pub mod Executor
pub mod Manager
pub mod Source
