-- ===== src/Config.antt =====
-- internal/config/config.go: the settings of the process.
pub mod Load
pub mod Valid
use opencode_workspaces.Prelude.{ℕ, String, Bool}
use opencode_workspaces.Model.{Bytes}
use opencode_workspaces.Cluster.{Labels}

-- int, and time.Duration in nanoseconds
pub data ℤ : Type 0 where
  pos negsuc : ℕ → ℤ

-- url.URL, as far as the program reads it; `text` is URL.String().
pub record Url : Type 0 where
  pub scheme : String
  pub host : String
  pub text : String

-- config.Workspace
pub record WorkspaceConfig : Type 0 where
  pub image : String
  pub image_pull_policy : String
  pub image_pull_secret : String
  pub storage_class : String
  pub storage_size : String
  pub runtime_class_name : String
  pub node_selector : Labels
  pub cpu_request : String
  pub memory_request : String
  pub cpu_limit : String
  pub memory_limit : String
  pub idle_timeout : ℤ
  pub reconcile_interval : ℤ
  pub port : ℕ

pub record Config : Type 0 where
  pub address : String
  pub database_url : String
  pub public_url : Url
  pub session_key : Bytes
  pub encryption_key : Bytes
  pub namespace : String
  pub owner_name : String
  pub cookie_secure : Bool
  pub trust_proxy : Bool
  pub workspace : WorkspaceConfig
