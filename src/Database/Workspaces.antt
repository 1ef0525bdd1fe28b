-- ===== src/Database/Workspaces.antt =====
-- Workspaces and their configuration: the methods of `Store` on workspaces and
-- workspace_configurations in internal/database/database.go.
use opencode_workspaces.Prelude.{
  ℕ, ◌+◌, String, Bool, not, ◌&&◌, Option, none, some, List, map, ◌==◌, string_eq, if◌then◌else◌,
  ltb, keep,
}
use opencode_workspaces.Prelude.Strings.{◌<>◌, trim_space}
use opencode_workspaces.Model.{Bytes, Workspace, WorkspaceConfiguration}
use opencode_workspaces.Env.{Env}
use opencode_workspaces.Rows.{find, modify, upsert}
use opencode_workspaces.Tables.{Tables, WorkspaceRow, ConfigurationRow}
use opencode_workspaces.World.{
  Result, ok, err, not_found, failed, M, pure, ◌>>=◌, ◌>>◌, attempt, lift, require, now, exec,
  query, statement, transaction,
}
use opencode_workspaces.Database.Sql.{
  workspace_key, configuration_key, with_uuid, references_user, is_state, order_by,
}
use opencode_workspaces.Database.Users.{audit}
use opencode_workspaces.Database.Vault.{encrypt, decrypt}

abbrev pub revision_of : Option ConfigurationRow → ℕ
revision_of none = 0
revision_of (some c) = c.revision

-- The columns of workspaces LEFT JOIN workspace_configurations.
unfoldable pub workspace_of : List ConfigurationRow → WorkspaceRow → Workspace
unfolding find
workspace_of configurations w = record {
  user_id = w.user_id;
  resource_name = w.resource_name;
  desired_state = w.desired_state;
  restart_nonce = w.restart_nonce;
  last_activity_at = w.last_activity_at;
  created_at = w.created_at;
  updated_at = w.updated_at;
  config_revision = revision_of (find configuration_key w.user_id configurations);
}

abbrev pub found_workspace : Tables → Option WorkspaceRow → Result Workspace
found_workspace t none = err not_found
found_workspace t (some w) = ok (workspace_of t.configurations w)

-- A row after SET desired_state=$2, …
abbrev pub set_state : ℕ → String → WorkspaceRow → WorkspaceRow
set_state time state w = record w {
  desired_state = state;
  last_activity_at = if state == "running" then time else w.last_activity_at;
  updated_at = time;
}

-- A row after SET desired_state='running', restart_nonce=restart_nonce+1, …
abbrev pub set_restarted : ℕ → WorkspaceRow → WorkspaceRow
set_restarted time w = record w {
  desired_state = "running";
  restart_nonce = w.restart_nonce + 1;
  last_activity_at = time;
  updated_at = time;
}

abbrev pub set_touched : ℕ → WorkspaceRow → WorkspaceRow
set_touched time w = record w {
  desired_state = "running";
  last_activity_at = time;
  updated_at = time;
}

abbrev pub set_purged : ℕ → WorkspaceRow → WorkspaceRow
set_purged time w = record w {
  desired_state = "stopped";
  restart_nonce = w.restart_nonce + 1;
  updated_at = time;
}

-- WHERE desired_state='running' AND last_activity_at<$1
abbrev pub is_idle : ℕ → WorkspaceRow → Bool
is_idle before w = w.desired_state == "running" && ltb w.last_activity_at before

abbrev pub set_idled : ℕ → ℕ → WorkspaceRow → WorkspaceRow
set_idled time before w =
    if is_idle before w then record w { desired_state = "stopped"; updated_at = time } else w

-- A row of workspace_configurations after INSERT … ON CONFLICT(user_id) DO UPDATE.
abbrev pub next_configuration :
    ℕ → String → String → String → Option ConfigurationRow → ConfigurationRow
next_configuration time id config key none = record {
  user_id = id;
  opencode_json_ciphertext = config;
  api_key_ciphertext = key;
  revision = 1;
  created_at = time;
  updated_at = time;
}
next_configuration time id config key (some c) = record c {
  user_id = id;
  opencode_json_ciphertext = config;
  api_key_ciphertext = key;
  revision = c.revision + 1;
  updated_at = time;
}

abbrev pub found_configuration : Option ConfigurationRow → Result ConfigurationRow
found_configuration none = err not_found
found_configuration (some c) = ok c

module _ ⦃env : Env⦄ where
  unfoldable pub workspace : String → M Workspace
  workspace id =
      query (λ t. with_uuid id (λ k. found_workspace t (find workspace_key k t.workspaces)))

  unfoldable pub list_workspaces : M (List Workspace)
  list_workspaces =
      query
        (λ t. ok (map (workspace_of t.configurations) (order_by (λ w. w.created_at) t.workspaces)))

  unfoldable pub upsert_configuration_row : ℕ → String → String → String → Tables → Result Tables
  unfolding with_uuid references_user
  upsert_configuration_row time id config key t = with_uuid id λ k. references_user k t (
      ok (record t {
        configurations =
            upsert configuration_key k (next_configuration time k config key) t.configurations;
      }))

  unfoldable pub set_configuration_body : String → String → String → String → M (Unit {0})
  set_configuration_body actor id config key = do
    time ← now
    exec (upsert_configuration_row time id config key)
    audit actor "workspace.configuration.update" "workspace" id "{}" ""

  unfoldable pub set_workspace_configuration : String → String → Bytes → String → M (Unit {0})
  set_workspace_configuration actor id opencode_json api_key = do
    require (env.is_json_object opencode_json)
        (failed "OpenCode configuration must be a JSON object")
    require (not (trim_space api_key == "")) (failed "workspace API key is required")
    config ← encrypt opencode_json
    key ← encrypt (env.bytes api_key)
    transaction (set_configuration_body actor id config key)

  unfoldable pub workspace_configuration : String → M WorkspaceConfiguration
  workspace_configuration id = do
    c ←
        query
          (λ t. with_uuid id (λ k. found_configuration (find configuration_key k t.configurations)))
    config ← lift (decrypt c.opencode_json_ciphertext)
    key ← lift (decrypt c.api_key_ciphertext)
    pure (record { opencode_json = config; api_key = env.text key; revision = c.revision })

  -- UPDATE workspaces SET … WHERE user_id=$1, with the check on desired_state; no row is ErrNotFound.
  unfoldable pub update_workspace_row :
      String → (WorkspaceRow → WorkspaceRow) → Tables → Result Tables
  unfolding with_uuid find modify is_state
  update_workspace_row id f t = with_uuid id λ k. elim (find workspace_key k t.workspaces) [
    | none ↦ err not_found
    | some w ↦
        if is_state (f w).desired_state
        then ok (record t { workspaces = modify workspace_key k f t.workspaces })
        else err (failed "check")
  ]

  unfoldable pub set_workspace_state_body : String → String → String → String → Bool → M (Unit {0})
  set_workspace_state_body actor id state remote restart = do
    time ← now
    exec (update_workspace_row id (if restart then set_restarted time else set_state time state))
    audit actor (if restart then "workspace.restart" else "workspace." <> state) "workspace" id "{}"
        remote

  unfoldable pub set_workspace_state : String → String → String → String → Bool → M (Unit {0})
  set_workspace_state actor id state remote restart =
      transaction (set_workspace_state_body actor id state remote restart)

  -- UPDATE workspaces SET … WHERE user_id=$1, where no row is no error.
  unfoldable pub touch_row : String → (WorkspaceRow → WorkspaceRow) → Tables → Result Tables
  unfolding with_uuid modify
  touch_row id f t =
      with_uuid id λ k. ok (record t { workspaces = modify workspace_key k f t.workspaces })

  unfoldable pub touch_workspace : String → M (Unit {0})
  touch_workspace id = do
    time ← now
    attempt (exec (touch_row id (set_touched time))) (λ _. pure tt)

  -- The statement of IdleWorkspaces, which also returns the users of the rows that it stops.
  unfoldable pub idle_workspaces : ℕ → M (List String)
  idle_workspaces before = do
    statement
    λ w. (
      ok (map workspace_key (keep (is_idle before) w.tables.workspaces)),
      record w {
        tables = record w.tables {
          workspaces = map (set_idled w.clock before) w.tables.workspaces;
        };
      },
    )

  unfoldable pub delete_workspace_data_record : String → String → String → M (Unit {0})
  delete_workspace_data_record actor id remote = do
    time ← now
    transaction (
        exec (touch_row id (set_purged time))
        >> audit actor "workspace.purge" "workspace" id "{}" remote)
