-- ===== src/Conn.antt =====
-- internal/connect/conn: which servers the Hub is connected to (start.go, stop.go, type.go).
-- `State` is the state and its operations, `Steps` the histories, `Single` and `Stopped` what holds over them,
-- and `Backoff` the pauses of the connection loop.
pub mod State
pub mod Steps
pub mod Single
pub mod Stopped
pub mod Backoff
mod Tests
