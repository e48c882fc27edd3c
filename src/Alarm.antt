-- ===== src/Alarm.antt =====
-- Alarms: the table of active ones (internal/store/alarms.go) and the manager that notifies of its
-- changes (internal/alarm/alarm.go).
pub mod Table
pub mod Manager
pub mod Rows
pub mod History
pub mod Listing
mod Tests
