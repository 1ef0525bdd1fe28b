-- ===== src/Kube/Objects.antt =====
-- The objects that the controller creates for a workspace: `owner`, `meta`, `podSpec` and the
-- literals of the ensure methods of internal/kube/controller.go.
use opencode_workspaces.Prelude.{
  ℕ, ◌*◌, String, true, false, Option, none, some, List, [], ◌∷◌, ◌==◌, string_eq, if◌then◌else◌,
}
use opencode_workspaces.Prelude.Strings.{◌<>◌}
use opencode_workspaces.Prelude.Decimal.{decimal}
use opencode_workspaces.Model.{Workspace}
use opencode_workspaces.Cluster.{
  Labels, OwnerReference, ObjectMeta, Claim, Service, SecurityContext, Probe, Container, PodSpec,
  Deployment, value, from_secret, of_claim, of_secret,
}
use opencode_workspaces.Config.{Config}

abbrev pub managed_by : String
managed_by = "opencode-workspaces"

-- The fields of Controller that do not change; the client and the store are the world's.
pub record Controller : Type 0 where
  pub config : Config
  pub owner_uid : String

abbrev pub managed_labels : Workspace → Labels
managed_labels w =
    ("app.kubernetes.io/managed-by", managed_by)
    ∷ ("opencode.workspaces/name", w.resource_name)
    ∷ ("opencode.workspaces/user-id", w.user_id)
    ∷ []

unfoldable pub owner : Controller → List OwnerReference
owner c =
    record {
      api_version = "v1";
      kind = "ConfigMap";
      name = c.config.owner_name;
      uid = c.owner_uid;
      controller = true;
      block_owner_deletion = true;
    }
    ∷ []

unfoldable pub meta : Controller → Workspace → ObjectMeta
meta c w = record {
  name = w.resource_name;
  namespace = c.config.namespace;
  labels = managed_labels w;
  annotations = [];
  owners = owner c;
}

-- The claim, which has no owner, so that removing the release keeps the data. The size is one that
-- resource.MustParse parses: on another it panics, which ends the request or the process.
unfoldable pub new_claim : Controller → Workspace → Claim
new_claim c w = record {
  meta = record (meta c w) { owners = [] };
  access_modes = "ReadWriteOnce" ∷ [];
  storage_class = c.config.workspace.storage_class;
  storage_size = c.config.workspace.storage_size;
}

unfoldable pub new_service : Controller → Workspace → Service
new_service c w = record {
  meta = meta c w;
  selector = ("opencode.workspaces/name", w.resource_name) ∷ [];
  port_name = "http";
  port = c.config.workspace.port;
  target_port = c.config.workspace.port;
}

abbrev pub secret_name : Workspace → String
secret_name w = w.resource_name <> "-auth"

abbrev pub container_security : SecurityContext
container_security = record {
  run_as_user = 0;
  run_as_non_root = false;
  privileged = false;
  allow_privilege_escalation = false;
  drop = "ALL" ∷ [];
  seccomp = "RuntimeDefault";
}

abbrev pub bootstrap_command : String
bootstrap_command =
    "set -euo pipefail\nconfig_dir=/workspace/home/.config/opencode\nif [[ -s /bootstrap/opencode.json ]]; then\n  mkdir -p \"$config_dir\"\n  cp /bootstrap/opencode.json \"$config_dir/opencode.json\"\n  chmod 600 \"$config_dir/opencode.json\"\nfi\nif [[ -s /bootstrap/ai-gateway.key ]]; then\n  mkdir -p \"$config_dir\"\n  cp /bootstrap/ai-gateway.key \"$config_dir/ai-gateway.key\"\n  chmod 600 \"$config_dir/ai-gateway.key\"\nfi"

abbrev pub probe : Controller → ℕ → ℕ → Option Probe
probe c delay period = some (record {
  port = c.config.workspace.port;
  initial_delay_seconds = delay;
  period_seconds = period;
})

abbrev pub bootstrap_container : Controller → Container
bootstrap_container c = record {
  name = "workspace-bootstrap";
  image = c.config.workspace.image;
  pull_policy = c.config.workspace.image_pull_policy;
  command = "/bin/bash" ∷ "-c" ∷ bootstrap_command ∷ [];
  ports = [];
  security = container_security;
  env = [];
  mounts =
      record { name = "workspace"; mount_path = "/workspace"; read_only = false }
      ∷ record { name = "bootstrap"; mount_path = "/bootstrap"; read_only = true }
      ∷ [];
  requests = [];
  limits = [];
  readiness = none;
  liveness = none;
}

abbrev pub workspace_container : Controller → Workspace → Container
workspace_container c w = record {
  name = "workspace";
  image = c.config.workspace.image;
  pull_policy = c.config.workspace.image_pull_policy;
  command = [];
  ports = ("http", c.config.workspace.port) ∷ [];
  security = container_security;
  env =
      from_secret "OPENCODE_SERVER_USERNAME" (secret_name w) "username"
      ∷ from_secret "OPENCODE_SERVER_PASSWORD" (secret_name w) "password"
      ∷ value "HOME" "/workspace/home"
      ∷ value "XDG_DATA_HOME" "/workspace/home/.local/share"
      ∷ value "XDG_CONFIG_HOME" "/workspace/home/.config"
      ∷ value "WORKSPACE_DIR" "/workspace/projects"
      ∷ [];
  mounts = record { name = "workspace"; mount_path = "/workspace"; read_only = false } ∷ [];
  requests =
      ("cpu", c.config.workspace.cpu_request) ∷ ("memory", c.config.workspace.memory_request) ∷ [];
  limits = ("cpu", c.config.workspace.cpu_limit) ∷ ("memory", c.config.workspace.memory_limit) ∷ [];
  readiness = probe c 3 5;
  liveness = probe c 20 20;
}

-- The quantities of the container are ones that resource.MustParse parses: on others it panics.
unfoldable pub pod_spec : Controller → Workspace → PodSpec
pod_spec c w = record {
  automount_token = false;
  enable_service_links = false;
  seccomp = "RuntimeDefault";
  init_containers = bootstrap_container c ∷ [];
  containers = workspace_container c w ∷ [];
  volumes =
      of_claim "workspace" w.resource_name ∷ of_secret "bootstrap" (secret_name w) (4 * 64) ∷ [];
  node_selector = c.config.workspace.node_selector;
  runtime_class =
      if c.config.workspace.runtime_class_name == ""
      then none
      else some c.config.workspace.runtime_class_name;
  pull_secrets =
      if c.config.workspace.image_pull_secret == ""
      then []
      else c.config.workspace.image_pull_secret ∷ [];
}

-- One replica for a workspace that is to run.
unfoldable pub replicas_of : Workspace → ℕ
replicas_of w = if w.desired_state == "running" then 1 else 0

-- The deployment that ensureDeployment asks for; the status and the version are the API server's.
unfoldable pub new_deployment : Controller → Workspace → Deployment
new_deployment c w = record {
  meta = meta c w;
  resource_version = 0;
  replicas = some (replicas_of w);
  strategy = "Recreate";
  selector = ("opencode.workspaces/name", w.resource_name) ∷ [];
  template = record {
    labels = managed_labels w;
    annotations = ("opencode.workspaces/restart-nonce", decimal w.restart_nonce) ∷ [];
    spec = pod_spec c w;
  };
  status_replicas = 0;
  ready_replicas = 0;
}
