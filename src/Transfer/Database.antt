-- ===== src/Transfer/Database.antt =====
-- The tables, the statements on them, and transactions as a monad. A table holds its rows in the
-- order of their identifiers. The rows that belong to one server (`server_info`, `server_info_adv`,
-- `ssh`, `agents`, `enroll_tokens` and `server_alerts`, which a deletion of the server deletes too)
-- are kept together by the server.
use native.Mathlib.Decide.{ℕ_discrete}
use Prim.Native.String.{String}
use mosona_manager.Transfer.Bundle.{
  Team, Alert, PublicPage, ServerInfo, ServerInfoAdv, EnrollToken, Notification, SkippedServer,
  SkippedKey,
}
use mosona_manager.Prelude.{
  Bool, List, Option, [], delete, find, get_or, if◌then◌else◌, inl, inr, none, some, store, ℕ, ℤ,
  ◌==◌, ◌∷◌, ◌⊎◌,
}

pub record CategoryRow : Type 0 where
  pub id : ℕ
  pub team : ℕ
  pub name : String
  pub sort : ℤ

pub record KeyRow : Type 0 where
  pub id : ℕ
  pub team_id : ℕ
  pub name : String
  pub content : List ℕ
  pub password : Option (List ℕ)

pub record ServerRow : Type 0 where
  pub id : ℕ
  pub team_id : ℕ
  pub category : ℕ
  pub type_ : ℕ
  pub name : String
  pub allow_monitor : Bool
  pub allow_terminal : Bool
  pub public_visible : Bool
  pub weight : ℤ

pub record SshRow : Type 0 where
  pub address : String
  pub port : ℤ
  pub username : String
  pub key_id : ℕ
  pub password : List ℕ
  pub host_key : Option (List ℕ)
  pub trust_legacy_host_key : Bool

pub record AgentRow : Type 0 where
  pub agent_uid : List ℕ
  pub status : ℤ
  pub last_seen_at : Option ℕ
  pub last_ip : String
  pub last_version : String
  pub public_key : List ℕ
  pub private_key : List ℕ
  pub protocol_version : ℕ
  pub host : String
  pub port : ℤ

-- the rows of one server in the other tables
pub record Attached : Type 0 where
  pub info : Option ServerInfo
  pub info_adv : Option ServerInfoAdv
  pub ssh : Option SshRow
  pub agent : Option AgentRow
  pub enroll_token : Option EnrollToken
  pub alerts : List Alert

abbrev pub no_rows : Attached
no_rows = record {
  info = none;
  info_adv = none;
  ssh = none;
  agent = none;
  enroll_token = none;
  alerts = [];
}

-- the rows of one team that have no identifier of their own
pub record TeamRows : Type 0 where
  pub team : Team
  pub team_alerts : List Alert
  pub notifications : List Notification
  pub public_page : Option PublicPage

pub record Database : Type 0 where
  pub teams : List (ℕ × TeamRows)
  pub categories : List CategoryRow
  pub keys : List KeyRow
  pub servers : List ServerRow
  pub attached : List (ℕ × Attached)
  -- the sequences
  pub next_category : ℕ
  pub next_key : ℕ
  pub next_server : ℕ

-- the statements that may fail, by what they are about
pub data Statement : Type 0 where
  begins commits reads_team reads_categories reads_keys reads_team_alerts : Statement
  reads_notifications reads_page reads_servers reads_agent_uids updates_team : Statement
  clears_servers clears_keys clears_categories clears_team_alerts clears_notifications : Statement
  clears_page inserts_key inserts_category inserts_team_alert inserts_notification : Statement
  inserts_page inserts_server : Statement
  reads_info reads_info_adv reads_ssh reads_agent reads_token reads_alerts : ℕ → Statement
  updates_key inserts_info inserts_info_adv inserts_ssh inserts_agent inserts_token : ℕ → Statement
  inserts_alert : ℕ → Statement

pub data TransferError : Type 0 where
  database_error encryption_error invalid_notification invalid_public_page no_category :
      TransferError
  -- `errInvalidTeamImport`, about a server
  invalid_import : String → TransferError
  -- the server, its UID, and the server in the same bundle that has it too
  agent_uid_conflict : String → List ℕ → Option String → TransferError
  unreadable_server : SkippedServer → TransferError
  unreadable_key : SkippedKey → TransferError

-- a read outside transactions, or a check
abbrev pub Result : Type 0 → Type 0
Result A = TransferError ⊎ A

-- a part of a transaction
abbrev pub Tx : Type 0 → Type 0
Tx A = Database → Result (A × Database)

module _ {A B : Type 0} where
  unfoldable pub bind : Result (A × Database) → (A → Tx B) → Result (B × Database)
  bind (inl e) f = inl e
  bind (inr (a, db)) f = f a db

  unfoldable pub and_then : Result A → (A → Result B) → Result B
  and_then (inl e) f = inl e
  and_then (inr a) f = f a

infixl 5 ◌>>=◌ ◌>>◌
abbrev pub ◌>>=◌ : {A B : Type 0} → Tx A → (A → Tx B) → Tx B
◌>>=◌ m f db = bind (m db) f

abbrev pub ◌>>◌ : {A B : Type 0} → Tx A → Tx B → Tx B
m >> k = m >>= λ _. k

abbrev pub pure : {A : Type 0} → A → Tx A
pure a db = inr (a, db)

unfoldable pub lift : {A : Type 0} → Result A → Tx A
lift (inl e) db = inl e
lift (inr a) db = inr (a, db)

-- what the database makes of a statement in a state: whether it fails
abbrev pub Failures : Type 0
Failures = Statement → Database → Bool

-- a statement that changes rows; in a transaction an error discards all that was done
unfoldable pub exec : Failures → Statement → (Database → Database) → Tx (Unit {0})
exec fails st f db = if fails st db then inl database_error else inr (tt, f db)

-- a query
unfoldable pub query : {A : Type 0} → Failures → Statement → Database → A → Result A
query fails st db a = if fails st db then inl database_error else inr a

-- the rows of a team
abbrev pub no_team_rows : TeamRows
no_team_rows = record {
  team = record { name = ""; description = ""; color = ""; image = "" };
  team_alerts = [];
  notifications = [];
  public_page = none;
}

unfoldable pub team_rows : ℕ → Database → TeamRows
team_rows team db = get_or (find ℕ_discrete team db.teams) no_team_rows

-- a change of them, which changes nothing where the team has no row
abbrev pub changed_rows :
    ℕ → (TeamRows → TeamRows) → List (ℕ × TeamRows) → Option TeamRows → List (ℕ × TeamRows)
changed_rows team f teams none = teams
changed_rows team f teams (some rows) = store ℕ_discrete team (f rows) teams

unfoldable pub update_team_rows : ℕ → (TeamRows → TeamRows) → Database → Database
update_team_rows team f db = record db {
  teams = changed_rows team f db.teams (find ℕ_discrete team db.teams);
}

-- the rows of a server, and an `INSERT` of one of them
unfoldable pub rows_of : ℕ → List (ℕ × Attached) → Attached
rows_of id rows = get_or (find ℕ_discrete id rows) no_rows

unfoldable pub attach : ℕ → (Attached → Attached) → Database → Database
unfolding rows_of
attach id f db = record db {
  attached = store ℕ_discrete id (f (rows_of id db.attached)) db.attached;
}

-- `WHERE team_id = $1`, and what a `DELETE` with it leaves
unfoldable pub of_team : {R : Type 0} → (R → ℕ) → ℕ → List R → List R
of_team key team [] = []
of_team key team (r ∷ rs) =
    let rest = of_team key team rs in if key r == team then r ∷ rest else rest

unfoldable pub not_of_team : {R : Type 0} → (R → ℕ) → ℕ → List R → List R
not_of_team key team [] = []
not_of_team key team (r ∷ rs) =
    let rest = not_of_team key team rs in if key r == team then rest else r ∷ rest

-- the cascade of a deletion of servers
unfoldable pub detach : List ServerRow → List (ℕ × Attached) → List (ℕ × Attached)
detach [] rows = rows
detach (s ∷ ss) rows = delete ℕ_discrete s.id (detach ss rows)
