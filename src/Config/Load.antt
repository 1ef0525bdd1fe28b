-- ===== src/Config/Load.antt =====
-- Load of internal/config/config.go, from the environment variables of the process and the parsers
-- of Go's standard library.
use opencode_workspaces.Prelude.{
  ℕ, String, Bool, false, not, ◌&&◌, ◌||◌, Option, none, some, [], ◌==◌, string_eq, nat_eq, leb,
  ltb, length, some_of, get_or, if◌then◌else◌,
}
use opencode_workspaces.Prelude.Strings.{trim_space, byte_len}
use opencode_workspaces.Model.{Bytes}
use opencode_workspaces.Cluster.{Labels}
use opencode_workspaces.Env.{Env}
use opencode_workspaces.World.{Result, ok, err, failed}
use opencode_workspaces.Config.{ℤ, pos, negsuc, Url, WorkspaceConfig, Config}

-- os.Getenv, url.Parse, strconv.Atoi, time.ParseDuration, strconv.ParseBool, and json.Unmarshal into
-- a map[string]string.
pub record Host : Type 0 where
  pub getenv : String → String
  pub parse_url : String → Option Url
  pub atoi : String → Option ℤ
  pub parse_duration : String → Option ℤ
  pub parse_bool : String → Option Bool
  pub parse_labels : String → Option Labels

infixl 10 ◌>>=◌ ◌>>◌
unfoldable pub ◌>>=◌ : {A B : Type 0} → Result A → (A → Result B) → Result B
ok a >>= f = f a
err e >>= f = err e

abbrev pub ◌>>◌ : {A B : Type 0} → Result A → Result B → Result B
r >> s = r >>= λ _. s

unfoldable pub check : Bool → String → Result (Unit {0})
check b message = if b then ok tt else err (failed message)

unfoldable pub found_or : {A : Type 0} → Option A → String → Result A
found_or none message = err (failed message)
found_or (some a) message = ok a

-- A port number, and a positive duration.
unfoldable pub port_of : ℤ → Option ℕ
port_of (pos n) = if leb 1 n && leb n 65535 then some n else none
port_of (negsuc n) = none

unfoldable pub is_positive : ℤ → Bool
is_positive (pos n) = ltb 0 n
is_positive (negsuc n) = false

abbrev pub is_blank : String × String → Bool
is_blank (k, v) = trim_space k == "" || trim_space v == ""

abbrev pub parsed_port : Option ℤ → Option ℕ
parsed_port none = none
parsed_port (some n) = port_of n

unfoldable pub is_web : Url → Bool
is_web u = u.scheme == "http" || u.scheme == "https"

module _ ⦃env : Env⦄ ⦃host : Host⦄ where
  unfoldable pub env_or : String → String → String
  env_or name fallback =
      let value = trim_space (host.getenv name) in if value == "" then fallback else value

  unfoldable pub bool_env : String → Bool → Bool
  bool_env name fallback =
      let value = trim_space (host.getenv name) in
      if value == "" then fallback else get_or (host.parse_bool value) false

  abbrev pub key_of : String → Option Bytes → Bytes
  key_of value none = env.sha256 (env.bytes value)
  key_of value (some d) = if length d == 32 then d else env.sha256 (env.bytes value)

  unfoldable pub key : String → Result Bytes
  key name =
      let value = host.getenv name in
      if ltb (byte_len value) 32
      then err (failed "must contain at least 32 characters")
      else ok (key_of value (env.decode_padded value))

  unfoldable pub node_selector : String → Result Labels
  node_selector raw = if raw == "" then ok [] else (do
    labels ← found_or (host.parse_labels raw) "WORKSPACE_NODE_SELECTOR must be a JSON object"
    check (not (some_of is_blank labels)) "WORKSPACE_NODE_SELECTOR must not be empty"
    ok labels)

  abbrev pub workspace_config : Labels → ℤ → ℤ → ℕ → WorkspaceConfig
  workspace_config selector idle interval port = record {
    image = env_or "WORKSPACE_IMAGE" "ghcr.io/ricsam/opencode-workspace:latest";
    image_pull_policy = env_or "WORKSPACE_IMAGE_PULL_POLICY" "IfNotPresent";
    image_pull_secret = trim_space (host.getenv "WORKSPACE_IMAGE_PULL_SECRET");
    storage_class = env_or "WORKSPACE_STORAGE_CLASS" "rook-ceph-block";
    storage_size = env_or "WORKSPACE_STORAGE_SIZE" "10Gi";
    runtime_class_name = trim_space (host.getenv "WORKSPACE_RUNTIME_CLASS");
    node_selector = selector;
    cpu_request = env_or "WORKSPACE_CPU_REQUEST" "250m";
    memory_request = env_or "WORKSPACE_MEMORY_REQUEST" "512Mi";
    cpu_limit = env_or "WORKSPACE_CPU_LIMIT" "2";
    memory_limit = env_or "WORKSPACE_MEMORY_LIMIT" "4Gi";
    idle_timeout = idle;
    reconcile_interval = interval;
    port = port;
  }

  abbrev pub config_of : Url → Bytes → Bytes → WorkspaceConfig → Config
  config_of url session encryption workspace = record {
    address = env_or "HTTP_ADDRESS" ":8080";
    database_url = trim_space (host.getenv "DATABASE_URL");
    public_url = url;
    session_key = session;
    encryption_key = encryption;
    namespace = env_or "POD_NAMESPACE" "opencode-workspaces";
    owner_name = env_or "WORKSPACE_OWNER_NAME" "opencode-workspaces-owner";
    cookie_secure = url.scheme == "https";
    trust_proxy = bool_env "TRUST_PROXY_HEADERS" false;
    workspace = workspace;
  }

  unfoldable pub load : Result Config
  load = do
    url ← found_or (host.parse_url (env_or "PUBLIC_URL" "http://localhost:8080")) "PUBLIC_URL"
    check (not (url.scheme == "") && not (url.host == "")) "PUBLIC_URL must be absolute"
    check (is_web url) "PUBLIC_URL must use http or https"
    session ← key "SESSION_SECRET"
    encryption ← key "ENCRYPTION_KEY"
    port ← found_or (parsed_port (host.atoi (env_or "WORKSPACE_PORT" "4096"))) "WORKSPACE_PORT"
    idle ← found_or (host.parse_duration (env_or "WORKSPACE_IDLE_TIMEOUT" "30m")) "idle"
    interval ← found_or (host.parse_duration (env_or "RECONCILE_INTERVAL" "15s")) "interval"
    check (is_positive interval) "RECONCILE_INTERVAL must be a positive duration"
    selector ← node_selector (trim_space (host.getenv "WORKSPACE_NODE_SELECTOR"))
    let config = config_of url session encryption (workspace_config selector idle interval port)
    check (not (config.database_url == "")) "DATABASE_URL is required"
    ok config
