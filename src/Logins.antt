-- ===== src/Logins.antt =====
-- agent/logins/utmp.go: reading logins from wtmp records, and reporting each only once.
pub mod Layout
pub mod Records
pub mod Scan
pub mod Window
pub mod Once
mod Tests
