-- ===== src/Transfer/Bundle.antt =====
-- The bundle of an export. A `ref_id` is the row's identifier in the exporting database; texts are
-- lists of bytes where the code looks into them, instants are numbers.
use Prim.Native.String.{String}
use mosona_manager.Prelude.{Bool, List, Option, false, none, ℕ, ℤ}

pub record Team : Type 0 where
  pub name : String
  pub description : String
  pub color : String
  pub image : String

pub record Category : Type 0 where
  pub ref_id : ℕ
  pub name : String
  pub sort : ℤ

-- without the times, which an import does not write
pub record Key : Type 0 where
  pub ref_id : ℕ
  pub name : String
  pub content : List ℕ
  pub password : Option (List ℕ)

pub record Alert : Type 0 where
  pub item : String
  pub threshold : ℤ
  pub for_duration : ℤ

pub record PublicPage : Type 0 where
  pub enabled : Bool
  pub name : Option (List ℕ)
  pub domain : Option (List ℕ)
  pub title : Option (List ℕ)
  pub description : Option (List ℕ)
  pub custom_css : Option (List ℕ)

pub record ServerInfo : Type 0 where
  pub os : Option String
  pub county : Option String
  pub area : Option String
  pub open_time : Option ℕ
  pub note : Option String
  pub provider : Option String
  pub cycle : Option ℤ
  pub start_time : Option ℕ
  pub end_time : Option ℕ
  pub amount : Option String
  pub auto_renew : Option Bool
  pub bandwidth : Option String
  pub traffic : Option String
  pub traffic_type : Option ℤ
  pub note_public : Option String
  pub online : Bool

pub record ServerInfoAdv : Type 0 where
  pub hostname : Option String
  pub cpu_name : Option String
  pub core_c : Option ℤ
  pub core_t : Option ℤ
  pub kernel : Option String
  pub ip : Option String
  pub arch : Option String

-- `host_key` is empty for an old server that pins none
pub record Ssh : Type 0 where
  pub address : String
  pub port : ℤ
  pub username : String
  pub key_ref : ℕ
  pub password : List ℕ
  pub host_key : List ℕ

pub record Agent : Type 0 where
  pub agent_uid : List ℕ
  pub status : ℤ
  pub last_seen_at : Option ℕ
  pub last_ip : String
  pub last_version : String
  pub public_key : List ℕ
  pub private_key : List ℕ
  pub protocol_version : ℕ
  pub host : String
  pub port : ℤ

pub record EnrollToken : Type 0 where
  pub token_hash : String
  pub is_revoked : Bool
  pub created_at : ℕ

-- the type of a server: 0 over SSH, 1 and 2 by an Agent that the Hub or the Agent connects
pub record Server : Type 0 where
  pub ref_id : ℕ
  pub category_ref : ℕ
  pub type_ : ℕ
  pub name : String
  pub allow_monitor : Bool
  pub allow_terminal : Bool
  pub public_visible : Option Bool
  pub weight : ℤ
  pub info : ServerInfo
  pub advanced_info : ServerInfoAdv
  pub ssh : Option Ssh
  pub agent : Option Agent
  pub enroll_token : Option EnrollToken
  pub alerts : List Alert

pub record Notification : Type 0 where
  pub module_name : List ℕ
  pub target : List ℕ

pub record SkippedServer : Type 0 where
  pub server_id : ℕ
  pub server_name : String
  pub credential : String

pub record SkippedKey : Type 0 where
  pub key_id : ℕ
  pub key_name : String
  pub credential : String

-- `teamExportBundle`, whose version is checked before the import
pub record Bundle : Type 0 where
  pub skipped_servers : List SkippedServer
  pub skipped_keys : List SkippedKey
  pub team : Team
  pub categories : List Category
  pub keys : List Key
  pub team_alerts : List Alert
  pub notifications : List Notification
  pub public_page : Option PublicPage
  pub servers : List Server

-- what a Go variable holds that is declared and not set
abbrev pub no_info : ServerInfo
no_info = record {
  os = none;
  county = none;
  area = none;
  open_time = none;
  note = none;
  provider = none;
  cycle = none;
  start_time = none;
  end_time = none;
  amount = none;
  auto_renew = none;
  bandwidth = none;
  traffic = none;
  traffic_type = none;
  note_public = none;
  online = false;
}

abbrev pub no_info_adv : ServerInfoAdv
no_info_adv = record {
  hostname = none;
  cpu_name = none;
  core_c = none;
  core_t = none;
  kernel = none;
  ip = none;
  arch = none;
}
