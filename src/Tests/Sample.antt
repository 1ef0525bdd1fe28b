-- ===== src/Tests/Sample.antt =====
-- The environment of the tests, with the laws that it meets, and the worlds that they start in.
use opencode_workspaces.Prelude.{
  ℕ, ◌*◌, zero, suc, refl, String, true, false, Option, none, some, [], ◌∷◌, ◌==◌, nat_eq,
}
use opencode_workspaces.Model.{Bytes, minute}
use opencode_workspaces.Cluster.{empty_cluster}
use opencode_workspaces.Config.{pos}
use opencode_workspaces.Env.{Env, UrlEncodingLaws, StdEncodingLaws, SealLaws, BytesLaws, Argon2Laws}
use opencode_workspaces.Http.{Request}
use opencode_workspaces.Tables.{Tables, UserRow, SessionRow, WorkspaceRow, empty_tables}
use opencode_workspaces.Prelude.Strings.{split, trim_space}
use opencode_workspaces.Http.{value_of}
use opencode_workspaces.Rows.{find, modify, remove, has, upsert}
use opencode_workspaces.World.{
  World, ◌>>=◌, attempt, require, when, statement, api_call, exec, query, new_uuid, next_audit_id,
  random_bytes, transaction,
}
use opencode_workspaces.Database.Sql.{
  with_uuid, with_null_uuid, references_user, same_lower, has_email, clashes, blocked, is_role,
  is_state, insert_user_row, insert_audit_row, insert_credential_row, insert_workspace_row,
  update_user_row, user_of,
}
use opencode_workspaces.Database.Users
use opencode_workspaces.Database.Workspaces
use opencode_workspaces.Database.Sessions
use opencode_workspaces.Database.Vault.{hash}
use opencode_workspaces.Database.Calls.{perform}
use opencode_workspaces.Auth.Sessions.{
  Manager, sign, token, signed, random_token, new_session, user, csrf_valid, signed_session,
  csrf_of_token, provided_csrf, is_safe_method, remote_addr,
}
use opencode_workspaces.Kube.Objects.{
  Controller, new_claim, new_service, new_deployment, meta, owner, replicas_of,
}
use opencode_workspaces.Kube.Reconcile.{
  reconcile, ensure_pvc, ensure_secret, ensure_service, ensure_deployment, new_secret,
}
use opencode_workspaces.Kube.Lifecycle.{stop, reconcile_user}
use opencode_workspaces.World.Api.{
  get, create, created, update, updated, read_cluster, write_cluster, label,
}
use opencode_workspaces.Prelude.Decimal.{decimal}
use opencode_workspaces.Tests.Codec.{
  encode_bytes, decode_bytes, codes, decode-encode_bytes, encode_bytes-no_char, codes_injective,
}

abbrev zeros : ℕ → Bytes
zeros zero = []
zeros (suc n) = 0 ∷ zeros n

abbrev two_ids : ℕ → String
two_ids zero = "alpha"
two_ids (suc n) = "beta"

-- The database fails at call number 100, and random draws number themselves.
instance abbrev pub test_env : Env
test_env = record {
  bytes = codes;
  text = λ b. "text";
  sha256 = λ b. b;
  hmac = λ k b. 1 ∷ [];
  argon2id = λ p s. zeros 32;
  encode_url = encode_bytes;
  decode_url = decode_bytes;
  encode_std = encode_bytes;
  decode_std = decode_bytes;
  encode_padded = encode_bytes;
  decode_padded = decode_bytes;
  nonce_size = 1;
  seal = λ n b. b;
  open_sealed = λ n b. some b;
  quote = codes;
  unquote = λ b. some (encode_bytes b);
  is_json_object = λ b. true;
  jsonb = λ b. b;
  to_lower = λ s. s;
  sql_lower = λ s. s;
  parse_uuid = λ s. some s;
  uuid_at = two_ids;
  random_at = λ n size. some (n ∷ []);
  sql_fails = λ n. n == 100;
  api_fails = λ n. n == 100;
}

pub url_laws : UrlEncodingLaws test_env
url_laws = record {
  decode_encode = decode-encode_bytes;
  no_dot = encode_bytes-no_char b'.' refl refl;
}

pub std_laws : StdEncodingLaws test_env
std_laws = record {
  decode_encode = decode-encode_bytes;
  no_dollar = encode_bytes-no_char b'$' refl refl;
}

pub seal_laws : SealLaws test_env
seal_laws = record { open_seal = λ n b. refl }

pub bytes_laws : BytesLaws test_env
bytes_laws = record { injective = codes_injective }

pub argon_laws : Argon2Laws test_env
argon_laws = record { size = λ p s. refl }

abbrev pub ann : UserRow
ann = record {
  id = "alpha";
  username = "ann";
  display_name = "Ann";
  email = some "ann@example.com";
  role = "admin";
  disabled = false;
  created_at = 5;
  updated_at = 5;
  last_login_at = none;
}

abbrev pub ann_session : SessionRow
ann_session = record {
  id_hash = codes "key";
  user_id = "alpha";
  csrf_hash = codes "csrf";
  expires_at = 9000 * minute;
  created_at = 5;
  last_seen_at = 5;
  user_agent = "browser";
  remote_addr = "10.0.0.1";
}

abbrev pub ann_workspace : WorkspaceRow
ann_workspace = record {
  user_id = "alpha";
  resource_name = "ws-alpha";
  desired_state = "stopped";
  restart_nonce = 2;
  last_activity_at = 5;
  created_at = 5;
  updated_at = 5;
}

abbrev pub some_tables : Tables
some_tables = record empty_tables {
  users = ann ∷ [];
  sessions = ann_session ∷ [];
  workspaces = ann_workspace ∷ [];
}

abbrev pub empty_world : World
empty_world = record {
  tables = empty_tables;
  cluster = empty_cluster;
  clock = 600 * minute;
  uuids_drawn = 0;
  random_drawn = 0;
  sql_calls = 0;
  api_calls = 0;
  audit_ids = 1;
}

-- One account with a session and a workspace.
abbrev pub some_world : World
some_world = record empty_world { tables = some_tables }

abbrev pub test_manager : Manager
test_manager = record { signing_key = 7 ∷ []; cookie_secure = true }

abbrev pub no_header : String → String
no_header _ = ""

-- A request with a session cookie and a CSRF token.
abbrev pub request_with : Option String → String → Request
request_with cookie csrf = record {
  method = "POST";
  path = "/platform/";
  escaped_path = "/platform/";
  cookie = λ name. cookie;
  header = no_header;
  form = λ name. csrf;
  query = no_header;
  remote_addr = "10.0.0.1:5000";
}

abbrev pub test_controller : Controller
test_controller = record {
  config = record {
    address = ":8080";
    database_url = "postgres";
    public_url = record { scheme = "https"; host = "example.com"; text = "https://example.com" };
    session_key = [];
    encryption_key = [];
    namespace = "spaces";
    owner_name = "anchor";
    cookie_secure = true;
    trust_proxy = false;
    workspace = record {
      image = "image";
      image_pull_policy = "Always";
      image_pull_secret = "";
      storage_class = "fast";
      storage_size = "10Gi";
      runtime_class_name = "";
      node_selector = [];
      cpu_request = "1";
      memory_request = "1Gi";
      cpu_limit = "2";
      memory_limit = "2Gi";
      idle_timeout = pos (30 * minute);
      reconcile_interval = pos minute;
      port = 4096;
    };
  };
  owner_uid = "uid";
}

-- What the tests compute with: naming it unfolds the program.
unfoldable pub program : Unit {0}
unfolding ◌>>=◌ attempt require when statement api_call exec query new_uuid next_audit_id
    random_bytes transaction find modify remove has upsert with_uuid with_null_uuid references_user
    same_lower has_email clashes blocked is_role is_state insert_user_row insert_audit_row
    insert_credential_row insert_workspace_row update_user_row user_of Users.new_user
    Users.resource_name Users.insert_user Users.insert_user_with Users.audit Users.bootstrap_admin
    Users.bootstrap_body Users.create_local_user Users.create_local_user_body
    Workspaces.set_workspace_state Workspaces.set_workspace_state_body
    Workspaces.update_workspace_row Workspaces.workspace Workspaces.workspace_of Sessions.session
    Sessions.session_row Sessions.live_view Sessions.create_session Sessions.delete_session
    Sessions.insert_session_row hash sign token signed random_token new_session user csrf_valid
    signed_session csrf_of_token provided_csrf is_safe_method remote_addr split trim_space value_of
    perform stop reconcile_user reconcile ensure_pvc ensure_secret ensure_service ensure_deployment
    get create created update updated read_cluster write_cluster new_claim new_service
    new_deployment new_secret meta owner Workspaces.workspace_configuration replicas_of label
    decimal
program = tt
