-- ===== src/Alerts/Types.antt =====
-- internal/task/alerts/types.go and the items of internal/task/alerts/influx.go.
-- An instant is a number of nanoseconds since the year 1, the zero of Go's `time.Time`.
use Prim.Native.String.{String}
use mosona_manager.Prelude.{Bool, List, Option, String-discrete, ℕ, ◌*◌}

-- the texts that name an alert's item; `other` is any text that the code does not name
pub data AlertItem : Type 0 where
  status cpu_usage memory_usage disk_usage read_iops write_iops bandwidth : AlertItem
  expiry_reminder ssh_login : AlertItem
  other : String → AlertItem

pub AlertItem-discrete : Discrete AlertItem
AlertItem-discrete = hlevel String-discrete

-- `time.Second`, `time.Hour` and a day, in nanoseconds
abbrev pub second : ℕ
second = 1_000_000_000

abbrev pub minute : ℕ
minute = 60 * second

abbrev pub hour : ℕ
hour = 60 * minute

abbrev pub day : ℕ
day = 24 * hour

-- `float64`, which is not modelled: the operations that the evaluation applies to it.
pub record Float : Type 1 where
  pub Value : Type 0
  pub of_int : ℕ → Value
  pub ge : Value → Value → Bool

pub record AlertObservation (F : Type 0) : Type 0 where
  pub present : Bool
  pub value : F
  pub mount_point : String

pub record AlertRule : Type 0 where
  pub id : ℕ
  pub threshold : ℕ
  pub for_duration : ℕ
  pub last_status : Option Bool
  pub last_notify_at : Option ℕ

pub record AlertRuleUpdate : Type 0 where
  pub id : ℕ
  pub last_status : Option Bool
  pub last_notify_at : Option ℕ

pub record ServerExpiryInfo : Type 0 where
  pub end_time : Option ℕ
  pub auto_renew : Bool

-- The title and message of a notice, by the values that its text is built from.
pub data Notice (F : Type 0) : Type 0 where
  metric : AlertItem → F → ℕ → ℕ → Notice F
  disk : String → F → ℕ → ℕ → Notice F
  server_up : Notice F
  server_down : ℕ → Notice F
  expiry : ℕ → ℕ → Notice F

pub record NotificationDelivery : Type 0 where
  pub attempted : Bool
  pub delivered : Bool

-- `_type.TeamNotification`
pub record TeamNotification : Type 0 where
  pub module_name : String
  pub target : List ℕ
