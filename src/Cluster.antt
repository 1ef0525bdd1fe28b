-- ===== src/Cluster.antt =====
-- The Kubernetes objects that internal/kube/controller.go reads and writes, with the fields that it
-- sets or reads, and the namespace that holds them.
use opencode_workspaces.Prelude.{ℕ, String, Bool, List, [], Option}
use opencode_workspaces.Model.{Bytes}

-- map[string]string
abbrev pub Labels : Type 0
Labels = List (String × String)

pub record OwnerReference : Type 0 where
  pub api_version : String
  pub kind : String
  pub name : String
  pub uid : String
  pub controller : Bool
  pub block_owner_deletion : Bool

pub record ObjectMeta : Type 0 where
  pub name : String
  pub namespace : String
  pub labels : Labels
  pub annotations : Labels
  pub owners : List OwnerReference

pub record Claim : Type 0 where
  pub meta : ObjectMeta
  pub access_modes : List String
  pub storage_class : String
  pub storage_size : String

pub record Secret : Type 0 where
  pub meta : ObjectMeta
  pub kind : String
  pub entries : List (String × Bytes)

pub record Service : Type 0 where
  pub meta : ObjectMeta
  pub selector : Labels
  pub port_name : String
  pub port : ℕ
  pub target_port : ℕ

pub record SecurityContext : Type 0 where
  pub run_as_user : ℕ
  pub run_as_non_root : Bool
  pub privileged : Bool
  pub allow_privilege_escalation : Bool
  pub drop : List String
  pub seccomp : String

pub record VolumeMount : Type 0 where
  pub name : String
  pub mount_path : String
  pub read_only : Bool

pub data EnvVar : Type 0 where
  value : String → String → EnvVar
  from_secret : String → String → String → EnvVar

pub record Probe : Type 0 where
  pub port : ℕ
  pub initial_delay_seconds : ℕ
  pub period_seconds : ℕ

pub record Container : Type 0 where
  pub name : String
  pub image : String
  pub pull_policy : String
  pub command : List String
  pub ports : List (String × ℕ)
  pub security : SecurityContext
  pub env : List EnvVar
  pub mounts : List VolumeMount
  pub requests : Labels
  pub limits : Labels
  pub readiness : Option Probe
  pub liveness : Option Probe

-- A volume has a name and comes from a claim, or from a secret with a file mode.
pub data Volume : Type 0 where
  of_claim : String → String → Volume
  of_secret : String → String → ℕ → Volume

pub record PodSpec : Type 0 where
  pub automount_token : Bool
  pub enable_service_links : Bool
  pub seccomp : String
  pub init_containers : List Container
  pub containers : List Container
  pub volumes : List Volume
  pub node_selector : Labels
  pub runtime_class : Option String
  pub pull_secrets : List String

pub record PodTemplate : Type 0 where
  pub labels : Labels
  pub annotations : Labels
  pub spec : PodSpec

pub record Deployment : Type 0 where
  pub meta : ObjectMeta
  pub resource_version : ℕ
  pub replicas : Option ℕ
  pub strategy : String
  pub selector : Labels
  pub template : PodTemplate
  pub status_replicas : ℕ
  pub ready_replicas : ℕ

pub record Pod : Type 0 where
  pub name : String
  pub labels : Labels
  pub start_time : Option ℕ
  pub conditions : List (String × String)

pub record Cluster : Type 0 where
  pub claims : List Claim
  pub secrets : List Secret
  pub services : List Service
  pub deployments : List Deployment
  pub pods : List Pod

abbrev pub empty_cluster : Cluster
empty_cluster = record { claims = []; secrets = []; services = []; deployments = []; pods = [] }
