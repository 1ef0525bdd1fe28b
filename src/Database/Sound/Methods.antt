-- ===== src/Database/Sound/Methods.antt =====
-- The methods of `Store` on accounts, on a sound database.
use opencode_workspaces.Prelude.{
  ℕ, ◌≡◌, refl, subst, String, Bool, not, Option, none, some, bytes_eq, ◌==◌, string_eq,
}
use opencode_workspaces.Model.{User}
use opencode_workspaces.Env.{Env}
use opencode_workspaces.Rows.{modify}
use opencode_workspaces.Tables.{Tables, UserRow}
use opencode_workspaces.World.{
  conflict, Result, ok, err, duplicate_key, World, M, attempt, when, exec,
}
use opencode_workspaces.World.Keeps.{
  Post, Ensures, Keeps, Ensures-bind, Ensures-exec, Keeps-exec, Keeps-pure, keeps_rules,
  Keeps-raise,
}
use opencode_workspaces.World.Keeps.Transactions.{
  Ensures-of_Keeps, Stable, Stable-bind, Stable-of_Keeps, Keeps-Stable-transaction, stable_rules,
}
use opencode_workspaces.Database.Sql.{user_key, with_uuid, insert_credential_row}
use opencode_workspaces.Database.Users
use opencode_workspaces.Database.Users.{ProvisionUserInput, as_conflict, new_user_row}
use opencode_workspaces.Database.Sound.{IsSound}
use opencode_workspaces.Database.Sound.Rules.{with_uuid-eq-ok}
use opencode_workspaces.World.Keeps.{ok_injective}
use opencode_workspaces.Database.Sound.Accounts.{
  insert_user_row-IsSound, insert_workspace_row-IsSound, update_user_row-IsSound,
}
use opencode_workspaces.Database.Sound.Accounts.Keys.{SameKeys-IsSound}
use opencode_workspaces.Database.Sound.Owned.Statements.{
  insert_credential_row-IsSound, upsert_credential_row-IsSound, insert_audit_row-IsSound,
}

Post-as_conflict :
    (Q : Tables → Type 0) (r : Result (Unit {0}) × World)
    → Post (λ _. Q) r
    → Post (λ _. Q) (as_conflict r.0 r.1)
Post-as_conflict Q (ok _, w) p = p
Post-as_conflict Q (err duplicate_key, w) p = tt
Post-as_conflict Q (err _, w) p = tt

pub Ensures-as_conflict :
    {P : Tables → Type 0} (Q : Tables → Type 0) (m : M (Unit {0}))
    → Ensures P m (λ _. Q)
    → Ensures P (attempt m as_conflict) (λ _. Q)
unfolding attempt
Ensures-as_conflict Q m h = record { at = λ w p. Post-as_conflict Q (m w) (h.at w p) }

module _ ⦃env : Env⦄ where
  pub as_conflict-Keeps : {P : Tables → Type 0} (r : Result (Unit {0})) → Keeps P (as_conflict r)
  as_conflict-Keeps (ok _) = Keeps-pure tt
  as_conflict-Keeps (err duplicate_key) = Keeps-raise conflict
  as_conflict-Keeps (err e) = Keeps-raise e

  pub audit-Keeps :
      {pending : Option String} (actor action target_type target_id details remote : String)
      → Keeps (IsSound pending) (Users.audit actor action target_type target_id details remote)
  unfolding Users.audit
  audit-Keeps actor action target_type target_id details remote =
      search (keeps_rules, Keeps-exec, insert_audit_row-IsSound)

  credential-Keeps :
      {pending : Option String} (time : ℕ) (id h : String)
      → Keeps (IsSound pending) (when (not (h == "")) (exec (insert_credential_row time id h)))
  credential-Keeps time id h = search (keeps_rules, Keeps-exec, insert_credential_row-IsSound)

  -- An account comes with its workspace, or the transaction around it fails.
  insert_user_with-Stable :
      (id : String) (time : ℕ) (u d e r h : String)
      → Stable (IsSound none) (Users.insert_user_with id time u d e r h)
  unfolding Users.insert_user_with
  insert_user_with-Stable id time u d e r h = record {
    ensures =
        Ensures-bind (λ _. IsSound (env.parse_uuid id)) _ _ _
          (Ensures-as_conflict _ _ (
            Ensures-exec _ _
              (λ t t' p x. insert_user_row-IsSound (new_user_row id time u d e r) t t' p x)))
          λ _.
            Ensures-bind (λ _. IsSound (env.parse_uuid id)) _ _ _
              (Ensures-of_Keeps _ (credential-Keeps time id h))
              λ _.
                Ensures-bind (λ _. IsSound none) _ _ _
                  (Ensures-exec _ _ (insert_workspace_row-IsSound time id (Users.resource_name id)))
                  λ _. Ensures-of_Keeps _ (Keeps-pure _);
  }

  pub insert_user-Stable :
      (u d e r h : String) → Stable (IsSound none) (Users.insert_user u d e r h)
  unfolding Users.insert_user
  insert_user-Stable u d e r h = search (stable_rules, insert_user_with-Stable)

  pub ruleset sound_rules = (stable_rules, audit-Keeps, insert_user-Stable)

  login_row-IsSound :
      (time : ℕ) (id : String) (t t' : Tables)
      → IsSound none t
      → with_uuid id (λ k. ok (record t {
        users = modify user_key k (λ r. record r { last_login_at = some time }) t.users;
      }))
        ≡ ok t'
      → IsSound none t'
  login_row-IsSound time id t t' v e =
      let (k, _, e₁) = with_uuid-eq-ok id _ t' e in
      subst (IsSound none) (ok_injective e₁) (
        SameKeys-IsSound k (λ r. record r { last_login_at = some time }) t
          (λ a. (refl, refl, refl, refl)) v)

  pub bootstrap_admin-Sound :
      (u d e h : String) → Keeps (IsSound none) (Users.bootstrap_admin u d e h)
  unfolding Users.bootstrap_admin Users.bootstrap_body
  bootstrap_admin-Sound u d e h = search sound_rules depth 9

  pub create_local_user-Sound :
      (a u d e r h x : String) → Keeps (IsSound none) (Users.create_local_user a u d e r h x)
  unfolding Users.create_local_user Users.create_local_user_body
  create_local_user-Sound a u d e r h x = search sound_rules depth 9

  pub record_login-Sound : (id : String) → Keeps (IsSound none) (Users.record_login id)
  unfolding Users.record_login
  record_login-Sound id = search (keeps_rules, Keeps-exec, login_row-IsSound)

  update_returning-Stable :
      (id : String) (f : UserRow → UserRow)
      → ((a : UserRow) → (f a).id ≡ a.id)
      → Stable (IsSound none) (Users.update_returning id f)
  unfolding Users.update_returning
  update_returning-Stable id f same =
      search (stable_rules, λ (t t' : Tables). update_user_row-IsSound id f t t' same)

  finish_provision-Stable :
      (a : String) (input : ProvisionUserInput) (u : User)
      → Stable (IsSound none) (Users.finish_provision a input u)
  unfolding Users.finish_provision
  finish_provision-Stable a input u = search (sound_rules, update_returning-Stable) depth 9

  provision_found-Stable :
      (a : String) (input : ProvisionUserInput) (o : Option UserRow)
      → Stable (IsSound none) (Users.provision_found a input o)
  unfolding Users.provision_found
  provision_found-Stable a input none = search (sound_rules, finish_provision-Stable) depth 9
  provision_found-Stable a input (some r) =
      search (sound_rules, update_returning-Stable, finish_provision-Stable) depth 9

  pub provision_user-Sound :
      (a : String) (input : ProvisionUserInput)
      → Keeps (IsSound none) (Users.provision_user a input)
  unfolding Users.provision_user Users.provision_body
  provision_user-Sound a input = search (sound_rules, provision_found-Stable) depth 9

  pub update_user-Sound :
      (a id d e r : String) (b : Bool) (h x : String)
      → Keeps (IsSound none) (Users.update_user a id d e r b h x)
  unfolding Users.update_user Users.update_user_body
  update_user-Sound a id d e r b h x =
      search (sound_rules, update_user_row-IsSound, upsert_credential_row-IsSound) depth 9
