-- ===== src/Database/Users.antt =====
-- Accounts: the methods of `Store` on users and local_credentials in internal/database/database.go.
use opencode_workspaces.Prelude.{
  ℕ, String, Bool, true, false, not, ◌&&◌, Option, none, some, List, [], ◌∷◌, map, ◌==◌, string_eq,
  if◌then◌else◌, length,
}
use opencode_workspaces.Prelude.Strings.{◌<>◌, remove_char, prefix}
use opencode_workspaces.Model.{User}
use opencode_workspaces.Env.{Env}
use opencode_workspaces.Rows.{find, has, modify}
use opencode_workspaces.Tables.{UserRow, CredentialRow}
use opencode_workspaces.World.{
  Result, ok, err, not_found, conflict, already_bootstrapped, duplicate_key, M, pure, raise, ◌>>=◌,
  ◌>>◌, attempt, require, when, now, tables, lift, statement, exec, query, new_uuid, next_audit_id,
  transaction,
}
use opencode_workspaces.Database.Sql.{
  null_if_empty, user_key, credential_key, user_of, order_by, with_uuid, same_lower, has_email,
  with_id, canonical, insert_user_row, update_user_row, insert_audit_row, insert_credential_row,
  upsert_credential_row, insert_workspace_row,
}

pub record ProvisionUserInput : Type 0 where
  pub username : String
  pub display_name : String
  pub email : String
  pub role : String
  pub disabled : Bool

-- `strings.Contains(err.Error(), "duplicate key")`: a failed unique index becomes ErrConflict.
abbrev pub as_conflict : Result (Unit {0}) → M (Unit {0})
as_conflict (ok _) = pure tt
as_conflict (err duplicate_key) = raise conflict
as_conflict (err e) = raise e

-- The row that an INSERT of insertUser writes.
abbrev pub new_user_row : String → ℕ → String → String → String → String → UserRow
new_user_row id time username display_name email role = record {
  id = id;
  username = username;
  display_name = display_name;
  email = null_if_empty email;
  role = role;
  disabled = false;
  created_at = time;
  updated_at = time;
  last_login_at = none;
}

-- The user that insertUser scans from RETURNING, which leaves LastLoginAt at its zero value.
unfoldable pub new_user : UserRow → User
unfolding user_of
new_user r = record (user_of r) { last_login_at = 0 }

-- "ws-" and the first 18 characters of the id without dashes
unfoldable pub resource_name : String → String
unfolding remove_char prefix
resource_name id = "ws-" <> remove_char b'-' (prefix 18 id)

-- The first account of the list with the name, that has a password.
unfoldable pub local_login :
    (String → Bool) → List CredentialRow → List UserRow → Result (User × String)
unfolding user_of
local_login named credentials [] = err not_found
local_login named credentials (r ∷ rows) =
    let rest = local_login named credentials rows in
    if named r.username
    then elim (find credential_key r.id credentials) [
      | none ↦ rest
      | some c ↦ ok (user_of r, c.password_hash)
    ]
    else rest

-- The first account of the list whose address passes the test.
unfoldable pub first_user : (UserRow → Bool) → List UserRow → Option UserRow
first_user p [] = none
first_user p (r ∷ rows) = if p r then some r else first_user p rows

abbrev pub or_not_found : {A : Type 0} → Option A → Result A
or_not_found none = err not_found
or_not_found (some a) = ok a

abbrev pub any_user : List UserRow → Bool
any_user [] = false
any_user (r ∷ rows) = true

abbrev pub found_user : Option UserRow → Result User
found_user none = err not_found
found_user (some r) = ok (user_of r)

-- The account that runs the command stays an enabled administrator.
abbrev pub spared : String → UserRow → ProvisionUserInput → ProvisionUserInput
spared actor r input =
    if r.id == actor then record input { role = "admin"; disabled = false } else input

-- The row that the UPDATE of ProvisionUser writes.
abbrev pub provisioned_row : ProvisionUserInput → ℕ → UserRow → UserRow
provisioned_row input time r = record r {
  username = input.username;
  display_name = input.display_name;
  role = input.role;
  disabled = input.disabled;
  updated_at = time;
}

abbrev pub disabled_row : ℕ → UserRow → UserRow
disabled_row time r = record r { disabled = true; updated_at = time }

-- The row that UpdateUser writes.
abbrev pub updated_row : String → String → String → Bool → ℕ → UserRow → UserRow
updated_row display_name email role disabled time r = record r {
  display_name = display_name;
  email = null_if_empty email;
  role = role;
  disabled = disabled;
  updated_at = time;
}

module _ ⦃env : Env⦄ where
  unfoldable pub audit : String → String → String → String → String → String → M (Unit {0})
  audit actor action target_type target_id details remote = do
    time ← now
    id ← next_audit_id
    exec (insert_audit_row id time actor action target_type target_id details remote)

  -- The part of insertUser behind the draw of the id.
  unfoldable pub insert_user_with : String → ℕ → String → String → String → String → String → M User
  insert_user_with id time username display_name email role password_hash = do
    let row = new_user_row id time username display_name email role
    attempt (exec (insert_user_row row)) as_conflict
    when (not (password_hash == "")) (exec (insert_credential_row time id password_hash))
    exec (insert_workspace_row time id (resource_name id))
    pure (new_user (with_id row (canonical id)))

  unfoldable pub insert_user : String → String → String → String → String → M User
  insert_user username display_name email role password_hash = do
    id ← new_uuid
    time ← now
    insert_user_with id time username display_name email role password_hash

  unfoldable pub user_count : M ℕ
  user_count = query (λ t. ok (length t.users))

  -- The body of the transaction of BootstrapAdmin, which first locks the table.
  unfoldable pub bootstrap_body : String → String → String → String → M User
  bootstrap_body username display_name email password_hash = do
    statement
    taken ← query (λ t. ok (any_user t.users))
    require (not taken) already_bootstrapped
    user ← insert_user username display_name email "admin" password_hash
    audit user.id "bootstrap.admin" "user" user.id "{}" ""
    pure user

  unfoldable pub bootstrap_admin : String → String → String → String → M User
  bootstrap_admin username display_name email password_hash =
      transaction (bootstrap_body username display_name email password_hash)

  unfoldable pub create_local_user_body :
      String → String → String → String → String → String → String → M User
  create_local_user_body actor username display_name email role password_hash remote = do
    user ← insert_user username display_name email role password_hash
    audit actor "user.create" "user" user.id "{}" remote
    pure user

  unfoldable pub create_local_user :
      String → String → String → String → String → String → String → M User
  create_local_user actor username display_name email role password_hash remote =
      transaction
        (create_local_user_body actor username display_name email role password_hash remote)

  unfoldable pub authenticate_local : String → M (User × String)
  authenticate_local username =
      query (λ t. local_login (λ u. same_lower u username) t.credentials t.users)

  unfoldable pub has_local_credential : String → M Bool
  has_local_credential id = query (λ t. with_uuid id (λ k. ok (has credential_key k t.credentials)))

  -- UPDATE users SET last_login_at=now(); the result is not looked at.
  unfoldable pub record_login : String → M (Unit {0})
  record_login id = do
    time ← now
    attempt
        (exec λ t. with_uuid id λ k. ok (record t {
          users = modify user_key k (λ r. record r { last_login_at = some time }) t.users;
        }))
        (λ _. pure tt)

  unfoldable pub user_by_id : String → M User
  user_by_id id = do
    row ← query (λ t. with_uuid id (λ k. or_not_found (find user_key k t.users)))
    pure (user_of row)

  unfoldable pub list_users : M (List User)
  list_users = query (λ t. ok (map user_of (order_by (λ r. r.created_at) t.users)))

  -- UPDATE users SET … WHERE id=$1 RETURNING …
  unfoldable pub update_returning : String → (UserRow → UserRow) → M User
  update_returning id f = do
    exec (update_user_row id f)
    t ← tables
    lift (with_uuid id (λ k. found_user (find user_key k t.users)))

  -- The end of the transaction of ProvisionUser.
  unfoldable pub finish_provision : String → ProvisionUserInput → User → M User
  finish_provision actor input user =
      if input.disabled && not user.disabled
      then (do
        time ← now
        user' ← update_returning user.id (disabled_row time)
        audit actor "user.provision" "user" user'.id "{}" ""
        pure user')
      else (do audit actor "user.provision" "user" user.id "{}" ""; pure user)

  unfoldable pub provision_found : String → ProvisionUserInput → Option UserRow → M User
  provision_found actor input none = do
    user ← insert_user input.username input.display_name input.email input.role ""
    finish_provision actor input user
  provision_found actor input (some r) = do
    time ← now
    user ← update_returning r.id (provisioned_row (spared actor r input) time)
    finish_provision actor (spared actor r input) user

  unfoldable pub provision_body : String → ProvisionUserInput → M User
  provision_body actor input = do
    found ← query (λ t. ok (first_user (λ r. has_email input.email r.email) t.users))
    provision_found actor input found

  unfoldable pub provision_user : String → ProvisionUserInput → M User
  provision_user actor input = transaction (provision_body actor input)

  unfoldable pub update_user_body :
      String → String → String → String → String → Bool → String → String → M (Unit {0})
  update_user_body actor id display_name email role disabled password_hash remote = do
    time ← now
    exec (update_user_row id (updated_row display_name email role disabled time))
    when (not (password_hash == "")) (exec (upsert_credential_row time id password_hash))
    audit actor "user.update" "user" id "{}" remote

  unfoldable pub update_user :
      String → String → String → String → String → Bool → String → String → M (Unit {0})
  update_user actor id display_name email role disabled password_hash remote =
      transaction (update_user_body actor id display_name email role disabled password_hash remote)
