-- ===== src/Lib.antt =====
-- Mosona Manager: a Hub that watches servers, over SSH or by an Agent on the server, and tells
-- its users what happens to them. This library models the parts of the Hub and the Agent that
-- decide something, and leaves the databases, the network and the screens to parameters.
--
-- The parts, where they stand in the repository, and their files here:
--
-- * Alerts (internal/task/alerts, internal/servernotify, internal/db/alert.go). Once a minute the
--   Hub evaluates every rule. `Types` has the records, `Check` one function per check, `Run` the
--   evaluation of all rules of all teams, `Table` the stored states and the transaction that
--   writes them, `Delivery` the channels, `Config` the limits of a rule, `Groups` the servers that a
--   query is about (influx.go). A check returns the state to store, the notice that it built and
--   what the delivery reported (`Outcome`). `Rounds` runs one rule over a sequence of evaluations,
--   each with whether its state could be stored; `Status`, `Metric` and `Expiry` are about that, and
--   `Stored` about the rows after an evaluation.
-- * Identity (pkg/identity/auth.go, keys.go). The signed headers with which Hub and Agent prove who
--   they are: `VerifySignedHeaders`, `isReplay`, `SignHeaders`. `Replay` is about the memory of
--   nonces, `Exchange` about the two ends.
-- * SecureWs (pkg/securews/ws.go, handshake.go). The cipher of a session over a WebSocket, with its
--   sequence numbers (`Session`), and the hashed transcript of its handshake (`Transcript`).
-- * Conn (internal/connect/conn). Which servers the Hub is connected to: `ReconcileServer`,
--   `StopServer`, the retries and the goroutines of the connections, as steps on one state.
--   `Single` and `Stopped` are about the connections, `Backoff` about the pauses between attempts.
-- * AutoRenew (internal/task/auto_renew.go). The renewal of expiry dates: month arithmetic
--   (`Months`), one date (`Renewal`) and the table (`Rows`), in a transaction whose statements may fail.
-- * Logins (agent/logins/utmp.go). The Agent's reading of login records: `Layout` finds how the file
--   is laid out, `Records` parses it, `Scan` has the window of keys that were seen; `Window` and
--   `Once` are about the window.
-- * StatusWriter (internal/influx/status_writer.go). The points of the servers' status on their way
--   to InfluxDB: `Ring` is the circular buffer and `Worker` the processor, as a state and events. An
--   event is a call, or a step of the worker between two points where it waits or gives up the
--   mutex, so that a run is a list of events in any order; what `select` and the writer answer is
--   part of the event. `recordDrop` and `notify` after an `enqueue` are events of their own.
--   `Refines` compares the ring with a bounded queue, `Account` says what the counters add up to,
--   and `Shutdown` what a drain does.
-- * Stores (internal/utils/store). The states of sign-ins with an external provider
--   (`AuthSession`), of second factors and of cooling times (`TwoFa`).
-- * RateLimit (internal/app/auth/rate_limit.go). Counters of failures in Redis, an interface with
--   laws (`Counting`): the wait after failures of one counter (`Waiting`), and of the two counters
--   of a sign-in (`SignIn`).
-- * Sessions (internal/redis/sessions.go). The users' sessions in Redis: `ParseSessionData`,
--   `RemoveUserTeamSessions` (`Team`) and `GetUserSessions` (`Listing`), over an interface to Redis
--   whose reads may fail (`Faults`).
-- * Ws (pkg/ws). The client of a WebSocket that connects again by itself. `Client` has one function
--   for each critical section of `Connect`, `dial`, `reconnect`, `Close`, `ReadMessage` and
--   `connection`, `Retry` the delay and the loop `runReconnect` as a task that moves one critical
--   section at a time, and `World` a client with its tasks under any sequence of events. `Single`
--   and `Tasks` are about the reconnect under way, `Closing` about `Close`, `Refused` about final
--   close frames, `Attempts` and `Ending` about the loop and `Delay` about the delay.
-- * Access (internal/access/team.go, internal/app/middleware/role.go). Who may act in a team.
-- * Encrypt (internal/utils/encrypt/key.go). The envelopes in which the database keeps credentials.
--   `Envelope` is about the context, a column of a row, that an envelope is bound to. The rest of
--   the Hub sees the encryption as a `Cipher` with the laws `IsCipher`, which `Envelope` fills.
-- * Transfer (internal/app/api/team/export_import.go, public_page_type.go,
--   internal/notification/validate.go). A team's configuration as a file, and back. `Bundle` has the
--   file, `Database` the tables, and a transaction as a function of their state that may fail;
--   whether a statement fails is a parameter. `Export` (`exportKeys`), `Export.Servers` and
--   `Export.Whole` are `buildTeamExport`; `Checks` is what `applyTeamImport` checks first, `Page` the
--   names of public pages, and `Import`, `Import.Page`, `Import.Servers` and `Import.Whole` the
--   transaction. `Keys` is about keys that are imported and exported again, `Accounting` about what
--   an export leaves out, `Uids` about the check of UIDs, `References` about the categories of the
--   imported servers, and `Isolation` about the other teams; `Steps`, `Rows` and `Preserves` have
--   what these share.
-- * Pagination (internal/app/api/pagination/offset.go), on top of Decimal, which writes out what
--   `strconv.ParseInt` and `%d` do.
--
-- How the code is read. A Go map is an association list over keys with a decidable equality, and
-- its order of iteration is the list's (`Prelude.Maps`), save that the category that an import falls
-- back on is an entry of its own choice (`Library`); where a map is only a set of keys and a
-- time, it is a list of these. A pointer that may be nil is an `Option`. A mutex makes an
-- operation one step. Instants are counts of nanoseconds, or of seconds where the code counts
-- those. Texts are lists of bytes where the code looks into them, and strings elsewhere. `float64`
-- is a parameter with a comparison. What a package outside the repository does (Ed25519, Base64,
-- AEAD, SHA-256, MessagePack, PEM, SSH host keys, Redis, PostgreSQL, e-mail, Shoutrrr) is a
-- parameter, and what is relied on is a record of laws next to it (`IsKeyPair`, `IsSound`,
-- `Reliable`, `IsRedis`, `IsSessionRedis`, `IsGcm`).
--
-- Bounds. The sequence numbers of SecureWs wrap around at 2^64, as uint64 does. `print` has as much
-- fuel as the number plus one, which is more than its digits. `parse_utmp_records` has the length
-- of the file plus one as fuel, and every turn takes a whole record of it. `strconv` refuses what
-- exceeds an int64. Durations stay below the bound of int64, and the counters of StatusWriter below
-- that of uint64. `finish` in Ws takes a list of answers, one for each step. Years and months are
-- positive, so that Go's division agrees with that of ℕ.
--
-- Not modelled: the SQL statements (internal/db) and the HTTP handlers (the rest of internal/app),
-- the Flux queries (the rest of internal/task/alerts/influx.go), SSH and the terminal
-- (internal/connect/ssh), the sockets themselves (internal/connect/active), the Agent's metrics,
-- installation and updates (the rest of agent), and the configuration and start-up
-- (internal/config, cmd). They move data between the parts above and the outside.
mod Prelude
pub mod Alerts
pub mod Decimal
pub mod Identity
pub mod SecureWs
pub mod AutoRenew
pub mod Pagination
pub mod Stores
pub mod Transfer
pub mod Sessions
pub mod Ws
pub mod Encrypt
pub mod RateLimit
pub mod Access
pub mod Logins
pub mod Conn
pub mod StatusWriter
