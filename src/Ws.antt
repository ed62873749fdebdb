-- ===== src/Ws.antt =====
-- pkg/ws: the client of a WebSocket that connects again when its connection fails. `Client` is its
-- state and the critical sections of its operations, `Retry` the delay before an attempt and the
-- loop of attempts, `World` a client with the calls that are under way. `Single` and `Tasks` are
-- about the reconnect under way, `Closing` about `Close`, `Refused` about final close frames,
-- `Attempts` and `Ending` about the end of a reconnect, and `Delay` about the delay.
pub mod Client
pub mod Retry
pub mod World
pub mod Single
pub mod Tasks
pub mod Closing
pub mod Refused
pub mod Attempts
pub mod Ending
pub mod Delay
mod Tests
