-- ===== src/Database/Sql.antt =====
-- The SQL statements of internal/database/database.go as functions of the tables, with the checks,
-- unique indexes and foreign keys that internal/database/migrations/*.sql declare.
use opencode_workspaces.Prelude.{
  ℕ, String, Bool, false, not, ◌&&◌, ◌||◌, Option, none, some, List, [], ◌∷◌, ◌++◌, ◌==◌, string_eq,
  bytes_eq, if◌then◌else◌, some_of, get_or, ltb,
}
use opencode_workspaces.Model.{Bytes, User, epoch}
use opencode_workspaces.Env.{Env}
use opencode_workspaces.Rows.{find, modify, has, upsert}
use opencode_workspaces.Tables.{
  Tables, UserRow, CredentialRow, IdentityRow, SessionRow, WorkspaceRow, ConfigurationRow,
  SettingRow, AuditRow,
}
use opencode_workspaces.World.{Result, ok, err, duplicate_key, not_found, failed}

-- NULLIF(s, '')
abbrev pub null_if_empty : String → Option String
null_if_empty s = if s == "" then none else some s

abbrev pub user_key : UserRow → String
user_key r = r.id

abbrev pub credential_key : CredentialRow → String
credential_key r = r.user_id

abbrev pub session_key : SessionRow → Bytes
session_key r = r.id_hash

abbrev pub workspace_key : WorkspaceRow → String
workspace_key r = r.user_id

abbrev pub configuration_key : ConfigurationRow → String
configuration_key r = r.user_id

abbrev pub setting_key : SettingRow → String
setting_key r = r.key

-- The columns that `userColumns` and `scanUser` read.
unfoldable pub user_of : UserRow → User
user_of r = record {
  id = r.id;
  username = r.username;
  display_name = r.display_name;
  email = get_or r.email "";
  role = r.role;
  disabled = r.disabled;
  created_at = r.created_at;
  last_login_at = get_or r.last_login_at epoch;
}

-- CHECK (role IN ('admin', 'user'))
unfoldable pub is_role : String → Bool
is_role role = role == "admin" || role == "user"

-- CHECK (desired_state IN ('running', 'stopped'))
unfoldable pub is_state : String → Bool
is_state state = state == "running" || state == "stopped"

-- A row of the list in insertion order by a column: ORDER BY, with ties in that order.
module _ {A : Type 0} (column : A → ℕ) where
  unfoldable pub insert_sorted : A → List A → List A
  insert_sorted a [] = a ∷ []
  insert_sorted a (b ∷ bs) =
      let rest = insert_sorted a bs in if ltb (column b) (column a) then b ∷ rest else a ∷ b ∷ bs

  unfoldable pub order_by : List A → List A
  unfolding insert_sorted
  order_by [] = []
  order_by (a ∷ as') = insert_sorted a (order_by as')

abbrev pub new_credential_row : ℕ → String → String → CredentialRow
new_credential_row time hash k = record { user_id = k; password_hash = hash; changed_at = time }

-- A row of workspaces with the defaults that the schema declares.
abbrev pub new_workspace_row : ℕ → String → String → WorkspaceRow
new_workspace_row time k resource = record {
  user_id = k;
  resource_name = resource;
  desired_state = "stopped";
  restart_nonce = 0;
  last_activity_at = time;
  created_at = time;
  updated_at = time;
}

abbrev pub new_audit_row :
    ℕ → ℕ → String → String → String → String → String → Option String → AuditRow
new_audit_row id time action target_type target_id details remote actor = record {
  id = id;
  actor_user_id = actor;
  action = action;
  target_type = target_type;
  target_id = null_if_empty target_id;
  details = details;
  remote_addr = remote;
  created_at = time;
}

abbrev pub new_identity_row : ℕ → String → String → String → Option String → IdentityRow
new_identity_row time issuer subject k email = record {
  issuer = issuer;
  subject = subject;
  user_id = k;
  email = email;
  created_at = time;
}

module _ ⦃env : Env⦄ where
  -- A text argument for a uuid column.
  unfoldable pub with_uuid : {B : Type 0} → String → (String → Result B) → Result B
  with_uuid id f = elim (env.parse_uuid id) [ none ↦ err (failed "uuid") | some k ↦ f k ]

  -- The canonical text of an id that is one.
  abbrev pub canonical : String → String
  canonical id = get_or (env.parse_uuid id) id

  -- lower(a)=lower(b)
  unfoldable pub same_lower : String → String → Bool
  same_lower a b = env.sql_lower a == env.sql_lower b

  -- lower(email)=lower($1), which NULL never meets
  unfoldable pub has_email : String → Option String → Bool
  unfolding same_lower
  has_email e none = false
  has_email e (some e') = same_lower e' e

  abbrev pub shares_email : Option String → Option String → Bool
  shares_email none e = false
  shares_email (some a) e = has_email a e

  -- Two rows that the unique indexes of users keep apart.
  unfoldable pub clashes : UserRow → UserRow → Bool
  unfolding same_lower has_email
  clashes r s = r.id == s.id || same_lower r.username s.username || shares_email r.email s.email

  abbrev pub with_id : UserRow → String → UserRow
  with_id r k = record r { id = k }

  -- INSERT INTO users
  unfoldable pub insert_user_row : UserRow → Tables → Result Tables
  unfolding with_uuid is_role
  insert_user_row r t = with_uuid r.id λ k.
      if not (is_role r.role)
      then err (failed "check")
      else if some_of (clashes (with_id r k)) t.users
      then err duplicate_key
      else ok (record t { users = t.users ++ with_id r k ∷ [] })

  -- Whether another row stands in the way of `r`.
  unfoldable pub blocked : UserRow → List UserRow → Bool
  blocked r rows = some_of (λ s. not (s.id == r.id) && clashes r s) rows

  -- UPDATE users SET … WHERE id=$1, of which the callers take no row for ErrNoRows or ErrNotFound.
  unfoldable pub update_user_row : String → (UserRow → UserRow) → Tables → Result Tables
  unfolding with_uuid is_role
  update_user_row id f t = with_uuid id λ k. elim (find user_key k t.users) [
    | none ↦ err not_found
    | some r ↦
        if not (is_role (f r).role)
        then err (failed "check")
        else if blocked (f r) t.users
        then err duplicate_key
        else ok (record t { users = modify user_key k f t.users })
  ]

  -- REFERENCES users(id)
  unfoldable pub references_user : {B : Type 0} → String → Tables → Result B → Result B
  references_user k t r = if has user_key k t.users then r else err (failed "foreign key")

  abbrev pub references_user? : {B : Type 0} → Option String → Tables → Result B → Result B
  references_user? none t r = r
  references_user? (some k) t r = references_user k t r

  -- nullUUID, and the conversion of its result for a uuid column
  unfoldable pub with_null_uuid : {B : Type 0} → String → (Option String → Result B) → Result B
  unfolding with_uuid
  with_null_uuid id f = if id == "" then f none else with_uuid id (λ k. f (some k))

  -- INSERT INTO audit_events
  unfoldable pub insert_audit_row :
      ℕ → ℕ → String → String → String → String → String → String → Tables → Result Tables
  unfolding with_null_uuid references_user
  insert_audit_row id time actor action target_type target_id details remote t =
      with_null_uuid actor λ a. references_user? a t (
        ok (record t {
          audit_events =
              t.audit_events
              ++ new_audit_row id time action target_type target_id details remote a ∷ [];
        }))

  -- INSERT INTO local_credentials
  unfoldable pub insert_credential_row : ℕ → String → String → Tables → Result Tables
  unfolding with_uuid references_user
  insert_credential_row time id hash t = with_uuid id λ k.
      if has credential_key k t.credentials
      then err duplicate_key
      else references_user k t
          (ok (record t { credentials = t.credentials ++ new_credential_row time hash k ∷ [] }))

  -- INSERT INTO local_credentials … ON CONFLICT(user_id) DO UPDATE
  unfoldable pub upsert_credential_row : ℕ → String → String → Tables → Result Tables
  unfolding with_uuid references_user
  upsert_credential_row time id hash t = with_uuid id λ k. references_user k t (
      ok (record t {
        credentials = upsert credential_key k (λ _. new_credential_row time hash k) t.credentials;
      }))

  -- INSERT INTO workspaces
  unfoldable pub insert_workspace_row : ℕ → String → String → Tables → Result Tables
  unfolding with_uuid references_user
  insert_workspace_row time id resource t = with_uuid id λ k.
      if some_of (λ w. w.user_id == k || w.resource_name == resource) t.workspaces
      then err duplicate_key
      else references_user k t
          (ok (record t { workspaces = t.workspaces ++ new_workspace_row time k resource ∷ [] }))

  -- INSERT INTO oidc_identities
  unfoldable pub insert_identity_row :
      ℕ → String → String → String → Option String → Tables → Result Tables
  unfolding with_uuid references_user
  insert_identity_row time issuer subject id email t = with_uuid id λ k.
      if some_of (λ i. i.issuer == issuer && (i.subject == subject || i.user_id == k)) t.identities
      then err duplicate_key
      else references_user k t (
          ok (record t {
            identities = t.identities ++ new_identity_row time issuer subject k email ∷ [];
          }))
