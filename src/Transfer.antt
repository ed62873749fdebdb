-- ===== src/Transfer.antt =====
-- internal/app/api/team/export_import.go: a team's configuration as a bundle, read from the
-- database with its credentials decrypted, and written to a team in the place of what it had.
pub mod Bundle
pub mod Database
pub mod Page
pub mod Checks
pub mod Export
pub mod Import
pub mod Steps
pub mod Rows
pub mod Keys
pub mod Accounting
pub mod Uids
pub mod Preserves
pub mod Isolation
pub mod References
mod Tests
