-- ===== src/Tables.antt =====
-- internal/database/migrations/*.sql: the rows of each table, in the order of insertion.
-- A NULL is `none`; the columns that no statement of the program reads back are kept all the same.
use opencode_workspaces.Prelude.{ℕ, String, Bool, List, [], Option}
use opencode_workspaces.Model.{Bytes}

-- users: primary key id, unique lower(username), unique lower(email) where it is not NULL
pub record UserRow : Type 0 where
  pub id : String
  pub username : String
  pub display_name : String
  pub email : Option String
  pub role : String
  pub disabled : Bool
  pub created_at : ℕ
  pub updated_at : ℕ
  pub last_login_at : Option ℕ

-- local_credentials: primary key user_id
pub record CredentialRow : Type 0 where
  pub user_id : String
  pub password_hash : String
  pub changed_at : ℕ

-- oidc_identities: primary key (issuer, subject), unique (issuer, user_id)
pub record IdentityRow : Type 0 where
  pub issuer : String
  pub subject : String
  pub user_id : String
  pub email : Option String
  pub created_at : ℕ

-- sessions: primary key id_hash
pub record SessionRow : Type 0 where
  pub id_hash : Bytes
  pub user_id : String
  pub csrf_hash : Bytes
  pub expires_at : ℕ
  pub created_at : ℕ
  pub last_seen_at : ℕ
  pub user_agent : String
  pub remote_addr : String

-- settings: primary key key; the value is a JSON document
pub record SettingRow : Type 0 where
  pub key : String
  pub value : Bytes
  pub encrypted : Bool
  pub updated_at : ℕ
  pub updated_by : Option String

-- workspaces: primary key user_id, unique resource_name
pub record WorkspaceRow : Type 0 where
  pub user_id : String
  pub resource_name : String
  pub desired_state : String
  pub restart_nonce : ℕ
  pub last_activity_at : ℕ
  pub created_at : ℕ
  pub updated_at : ℕ

-- workspace_configurations: primary key user_id
pub record ConfigurationRow : Type 0 where
  pub user_id : String
  pub opencode_json_ciphertext : String
  pub api_key_ciphertext : String
  pub revision : ℕ
  pub created_at : ℕ
  pub updated_at : ℕ

pub record AuditRow : Type 0 where
  pub id : ℕ
  pub actor_user_id : Option String
  pub action : String
  pub target_type : String
  pub target_id : Option String
  pub details : String
  pub remote_addr : String
  pub created_at : ℕ

pub record Tables : Type 0 where
  pub users : List UserRow
  pub credentials : List CredentialRow
  pub identities : List IdentityRow
  pub sessions : List SessionRow
  pub settings : List SettingRow
  pub workspaces : List WorkspaceRow
  pub configurations : List ConfigurationRow
  pub audit_events : List AuditRow
  -- schema_migrations, and the migration files whose statements the database has executed
  pub versions : List String
  pub executed : List String

-- The tables that the migrations create.
abbrev pub empty_tables : Tables
empty_tables = record {
  users = [];
  credentials = [];
  identities = [];
  sessions = [];
  settings = [];
  workspaces = [];
  configurations = [];
  audit_events = [];
  versions = [];
  executed = [];
}
