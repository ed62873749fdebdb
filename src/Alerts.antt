-- ===== src/Alerts.antt =====
-- The periodic alert evaluation (internal/task/alerts) and what it rests on: the limits on an
-- alert's configuration (internal/db/alert.go) and the delivery of a notice
-- (internal/servernotify/notify.go).
pub mod Types
pub mod Config
pub mod Groups
pub mod Delivery
pub mod Check
pub mod Rounds
pub mod Status
pub mod Metric
pub mod Expiry
pub mod Table
pub mod Run
pub mod Stored
mod Tests
mod FormTests
