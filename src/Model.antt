-- ===== src/Model.antt =====
-- internal/model/model.go: the values that the components hand to one another.
-- A time is the number of nanoseconds since Go's zero time, 1 January of the year 1.
use opencode_workspaces.Prelude.{ℕ, ◌*◌, ◌^◌, String, Bool, not, ◌&&◌, List, ◌==◌, string_eq}

-- []byte
abbrev pub Bytes : Type 0
Bytes = List ℕ

abbrev pub second : ℕ
second = 10 ^ 9

abbrev pub minute : ℕ
minute = 60 * second

-- The Unix epoch.
abbrev pub epoch : ℕ
epoch = 62135596800 * second

pub record User : Type 0 where
  pub id : String
  pub username : String
  pub display_name : String
  pub email : String
  pub role : String
  pub disabled : Bool
  pub created_at : ℕ
  pub last_login_at : ℕ

unfoldable pub is_admin : User → Bool
is_admin u = u.role == "admin" && not u.disabled

pub record Workspace : Type 0 where
  pub user_id : String
  pub resource_name : String
  pub desired_state : String
  pub restart_nonce : ℕ
  pub last_activity_at : ℕ
  pub created_at : ℕ
  pub updated_at : ℕ
  pub config_revision : ℕ

pub record WorkspaceConfiguration : Type 0 where
  pub opencode_json : Bytes
  pub api_key : String
  pub revision : ℕ

pub record WorkspaceStatus : Type 0 where
  pub found : Bool
  pub ready : Bool
  pub replicas : ℕ
  pub ready_replicas : ℕ
  pub phase : String
  pub message : String
  pub pod_name : String
  pub started_at : ℕ

pub record Branding : Type 0 where
  pub name : String
  pub logo_url : String
  pub favicon : String
  pub accent : String

pub record OidcSettings : Type 0 where
  pub enabled : Bool
  pub issuer : String
  pub client_id : String
  pub client_secret : String
  pub scopes : List String
  pub auto_provision : Bool
  pub link_by_email : Bool
  pub allowed_domains : List String
  pub admin_groups : List String
  pub has_client_secret : Bool
  pub configured : Bool

pub record AuditEvent : Type 0 where
  pub id : ℕ
  pub actor_user_id : String
  pub action : String
  pub target_type : String
  pub target_id : String
  pub details : String
  pub remote_addr : String
  pub created_at : ℕ
