-- ===== src/Provision/Actor.antt =====
-- The administrator for whom a provisioning acts.
use opencode_workspaces.Prelude.{
  ℕ, suc, ◌≡◌, String, Bool, not, Option, none, some, List, [], ◌∷◌, ◌==◌, string_eq, Bool-cases,
  inl, inr, is_some,
}
use opencode_workspaces.Model.{Bytes, User}
use opencode_workspaces.Env.{Env, UuidLaws}
use opencode_workspaces.World.{ok, World, ◌>>=◌, ◌>>◌, require, pure, exec, failed}
use opencode_workspaces.World.Keeps.{Keeps, Keeps-bind, Keeps-pure, Keeps-require}
use opencode_workspaces.World.Keeps.Transactions.{stable_rules}
use opencode_workspaces.Database.Vault.{encrypt}
use opencode_workspaces.Database.Users.{list_users}
use opencode_workspaces.Database.Workspaces.{
  set_workspace_configuration, set_configuration_body, upsert_configuration_row,
}
use opencode_workspaces.Database.Settings.{
  set_setting, set_setting_body, stored_value, upsert_setting_row,
}
use opencode_workspaces.Database.Grows.{
  upsert_configuration_row-SameLog, upsert_setting_row-SameLog,
}
use opencode_workspaces.Database.Preserved.{list_users-Keeps}
use opencode_workspaces.Database.Spared.{IsActor}
use opencode_workspaces.Database.Spared.Provisioned.{
  exec-IsActor, audit-IsActor, provision_user-IsActor,
}
use opencode_workspaces.Oidc.Flows.{Provider}
use opencode_workspaces.Oidc.Settings.{save}
use opencode_workspaces.Provision.{
  UserSeed, OidcSeed, Manifest, Provisioned, is_one, first_admin, provision_seed, provision_seeds,
  provision_oidc, provision,
}

module _ ⦃env : Env⦄ where
  configuration_row-IsActor :
      (a : String) (time : ℕ) (id c k : String)
      → Keeps (IsActor a) (exec (upsert_configuration_row time id c k))
  configuration_row-IsActor a time id c k =
      exec-IsActor a _ (λ t t' e. (upsert_configuration_row-SameLog time id c k t t' e).0)

  setting_row-IsActor :
      (a : String) (time : ℕ) (b k : String) (v : Bytes) (c : Bool)
      → Keeps (IsActor a) (exec (upsert_setting_row time b k v c))
  setting_row-IsActor a time b k v c =
      exec-IsActor a _ (λ t t' e. (upsert_setting_row-SameLog time b k v c t t' e).0)

  ruleset actor_rules =
      (stable_rules, configuration_row-IsActor, setting_row-IsActor, audit-IsActor)

  set_workspace_configuration-IsActor :
      (a b u : String) (j : Bytes) (k : String)
      → Keeps (IsActor a) (set_workspace_configuration b u j k)
  unfolding set_workspace_configuration set_configuration_body encrypt
  set_workspace_configuration-IsActor a b u j k = search actor_rules depth 14

  set_setting-IsActor :
      (a b k : String) (d : Bytes) (c : Bool) (x : String)
      → Keeps (IsActor a) (set_setting b k d c x)
  unfolding set_setting set_setting_body stored_value encrypt
  set_setting-IsActor a b k d c x = search actor_rules depth 14

module _ ⦃env : Env⦄ ⦃provider : Provider⦄ where
  provision_oidc-IsActor :
      (a b : String) (o : Option OidcSeed) → Keeps (IsActor a) (provision_oidc b o)
  unfolding save
  provision_oidc-IsActor a b none = Keeps-pure tt
  provision_oidc-IsActor a b (some s) = search (actor_rules, set_setting-IsActor)

  provision_seeds-IsActor :
      (a : String) (n : ℕ) (seeds : List UserSeed)
      → UuidLaws env
      → Keeps (IsActor a) (provision_seeds a n seeds)
  unfolding provision_seeds provision_seed
  provision_seeds-IsActor a n [] laws = Keeps-pure n
  provision_seeds-IsActor a n (s ∷ seeds) laws =
      Keeps-bind _ _
        (Keeps-bind _ _ (Keeps-require _ _) λ _. Keeps-bind _ _ (Keeps-require _ _) λ _.
          Keeps-bind _ _ (provision_user-IsActor a _ laws)
            λ u. set_workspace_configuration-IsActor a a u.id s.opencode_config s.api_key)
        (λ _. provision_seeds-IsActor a (suc n) seeds laws)

  -- The part of a provisioning behind the list of accounts.
  listed-IsActor :
      (m : Manifest) (users : List User)
      → UuidLaws env
      → Keeps {A = Provisioned} (IsActor (first_admin users)) (do
        require
            (not (first_admin users == ""))
            (failed "create the initial enabled administrator before provisioning accounts")
        provisioned ← provision_seeds (first_admin users) 0 m.users
        provision_oidc (first_admin users) m.oidc
        pure (record { provisioned_users = provisioned; oidc_configured = is_some m.oidc }))
  listed-IsActor m users laws = Keeps-bind _ _ (Keeps-require _ _) λ _.
      Keeps-bind _ _ (provision_seeds-IsActor (first_admin users) 0 m.users laws) λ n.
        Keeps-bind _ _ (provision_oidc-IsActor (first_admin users) (first_admin users) m.oidc)
          (λ _. Keeps-pure _)

  -- Where the text of a UUID is read as itself, and the account that a provisioning acts for is an
  -- enabled administrator before it, the account is one after it, whatever the manifest says of it
  -- and wherever the provisioning fails.
  pub provision-IsActor :
      (m : Manifest) (w : World) (users : List User)
      → UuidLaws env
      → (list_users w).0 ≡ ok users
      → IsActor (first_admin users) w.tables
      → IsActor (first_admin users) (provision m w).1.tables
  unfolding provision ◌>>=◌ require
  provision-IsActor m w users laws listed v =
      let later = (list_users-Keeps {P = IsActor (first_admin users)}).at w v in
      elim (Bool-cases (is_one m.version)) [
        | inl one ↦ rw (one, listed) ((listed-IsActor m users laws).at (list_users w).1 later)
        | inr other ↦ rw other v
      ]
