-- ===== src/Database/Grows.antt =====
-- Properties of accounts and audit log that no insertion breaks.
pub mod Methods
pub mod Laws
use opencode_workspaces.Prelude.{
  ℕ, ◌+◌, ◌≡◌, refl, sym, ap, subst, String, Bool, true, false, not, ◌||◌, Option, none, some, List,
  [], ◌∷◌, ◌++◌, arith, if◌then◌else◌, ◌==◌, string_eq, bytes_eq,
}
use mathlib.Core.List.{append_assoc, append-nil}
use opencode_workspaces.Model.{Bytes, User}
use opencode_workspaces.Env.{Env}
use opencode_workspaces.Rows.{find, has, modify, remove, upsert}
use opencode_workspaces.Rows.Laws.{has-concat, has-modify}
use opencode_workspaces.Tables.{Tables, UserRow, SessionRow, WorkspaceRow, AuditRow}
use opencode_workspaces.World.{
  Error, conflict, Result, ok, err, duplicate_key, World, M, pure, ◌>>=◌, attempt, when, now, exec,
  statement, transaction,
}
use opencode_workspaces.World.Keeps.{
  Keeps, Keeps-exec, Keeps-bind, Keeps-attempt, Keeps-pure, Keeps-raise, Keeps-now, Keeps-statement,
  keeps_rules,
}
use opencode_workspaces.World.Keeps.Transactions.{Stable, stable_rules}
use opencode_workspaces.Database.Sql.{
  user_key, session_key, setting_key, with_uuid, with_id, references_user, references_user?,
  with_null_uuid, new_credential_row, new_workspace_row, new_identity_row, new_audit_row,
  insert_user_row, update_user_row, insert_credential_row, upsert_credential_row,
  insert_workspace_row, insert_identity_row, insert_audit_row,
}
use opencode_workspaces.Database.Users
use opencode_workspaces.Database.Users.{ProvisionUserInput, as_conflict}
use opencode_workspaces.Database.Vault.{encrypt}
use opencode_workspaces.Database.Sessions
use opencode_workspaces.Database.Workspaces
use opencode_workspaces.Database.Settings
use opencode_workspaces.Database.Identities
use opencode_workspaces.Database.Calls
use opencode_workspaces.Database.Calls.{Call, perform, run}
use opencode_workspaces.Database.Sound.Rules.{
  with_uuid-eq-ok, references_user-eq-ok, references_user?-eq-ok, with_null_uuid-eq-ok,
}
use opencode_workspaces.World.Keeps.{ok_injective}
use opencode_workspaces.Database.Sound.Accounts.{Updated, update_user_row-Updated}

-- A property of the accounts and of the audit log that no insertion breaks.
pub record Grows (Q : List UserRow → List AuditRow → Type 0) : Type 0 where
  pub add_user :
      (users : List UserRow) (events : List AuditRow) (r : UserRow)
      → Q users events
      → Q (users ++ r ∷ []) events
  pub change_user :
      (users : List UserRow) (events : List AuditRow) (k : String) (f : UserRow → UserRow)
      → ((a : UserRow) → (f a).id ≡ a.id)
      → Q users events
      → Q (modify user_key k f users) events
  pub add_event :
      (users : List UserRow) (events : List AuditRow) (e : AuditRow)
      → Q users events
      → Q users (events ++ e ∷ [])

-- The tables agree on accounts and audit log.
abbrev pub SameLog : Tables → Tables → Type 0
SameLog t t' = (t.users ≡ t'.users) × (t.audit_events ≡ t'.audit_events)

module _ ⦃env : Env⦄ where
  pub insert_credential_row-SameLog :
      (time : ℕ) (id h : String) (t t' : Tables)
      → insert_credential_row time id h t ≡ ok t'
      → SameLog t t'
  unfolding insert_credential_row
  insert_credential_row-SameLog time id h t t' e = ground arith

  pub upsert_credential_row-SameLog :
      (time : ℕ) (id h : String) (t t' : Tables)
      → upsert_credential_row time id h t ≡ ok t'
      → SameLog t t'
  unfolding upsert_credential_row
  upsert_credential_row-SameLog time id h t t' e = ground arith

  pub insert_workspace_row-SameLog :
      (time : ℕ) (id h : String) (t t' : Tables)
      → insert_workspace_row time id h t ≡ ok t'
      → SameLog t t'
  unfolding insert_workspace_row
  insert_workspace_row-SameLog time id h t t' e = ground arith

  pub insert_identity_row-SameLog :
      (time : ℕ) (i s id : String) (m : Option String) (t t' : Tables)
      → insert_identity_row time i s id m t ≡ ok t'
      → SameLog t t'
  unfolding insert_identity_row
  insert_identity_row-SameLog time i s id m t t' e = ground arith

  pub insert_session_row-SameLog :
      (s : SessionRow) (t t' : Tables) → Sessions.insert_session_row s t ≡ ok t' → SameLog t t'
  unfolding Sessions.insert_session_row
  insert_session_row-SameLog s t t' e = ground arith

  pub upsert_configuration_row-SameLog :
      (time : ℕ) (id c k : String) (t t' : Tables)
      → Workspaces.upsert_configuration_row time id c k t ≡ ok t'
      → SameLog t t'
  unfolding Workspaces.upsert_configuration_row
  upsert_configuration_row-SameLog time id c k t t' e = ground arith

  pub update_workspace_row-SameLog :
      (id : String) (f : WorkspaceRow → WorkspaceRow) (t t' : Tables)
      → Workspaces.update_workspace_row id f t ≡ ok t'
      → SameLog t t'
  unfolding Workspaces.update_workspace_row
  update_workspace_row-SameLog id f t t' e = ground arith

  pub touch_row-SameLog :
      (id : String) (f : WorkspaceRow → WorkspaceRow) (t t' : Tables)
      → Workspaces.touch_row id f t ≡ ok t'
      → SameLog t t'
  unfolding Workspaces.touch_row
  touch_row-SameLog id f t t' e = ground arith

  pub upsert_setting_row-SameLog :
      (time : ℕ) (a k : String) (v : Bytes) (b : Bool) (t t' : Tables)
      → Settings.upsert_setting_row time a k v b t ≡ ok t'
      → SameLog t t'
  unfolding Settings.upsert_setting_row
  upsert_setting_row-SameLog time a k v b t t' e =
      let f : Option String → Result Tables = λ o. references_user? o t (
        ok (record t {
          settings = upsert setting_key k (Settings.next_setting time k v b o) t.settings;
        })) in
      let (o, h) = with_null_uuid-eq-ok a f t' e in
      let written = ok_injective (references_user?-eq-ok o t _ t' h) in
      (ap (λ (x : Tables). x.users) written, ap (λ (x : Tables). x.audit_events) written)
