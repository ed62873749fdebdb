-- ===== src/StatusWriter.antt =====
-- internal/influx/status_writer.go: the queue of server status points and the worker that writes
-- them to InfluxDB in batches. `Ring` is the circular buffer and the queue that it stands for,
-- `Slots` and `Holds` how a ring holds a queue's points, `Worker` the processor over either,
-- `Refines` how the two compare, `Counts`, `Working` and `Account` what the counters say, `Drain`
-- and `Shutdown` what a shutdown waits for.
pub mod Ring
pub mod Slots
pub mod Holds
pub mod Worker
pub mod Refines
pub mod Counts
pub mod Working
pub mod Account
pub mod Drain
pub mod Shutdown
mod Tests
