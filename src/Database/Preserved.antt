-- ===== src/Database/Preserved.antt =====
-- Invariants of the tables that every call of `Store` keeps: what the components that call it need.
use opencode_workspaces.Prelude.{ℕ, String, Bool}
use opencode_workspaces.Model.{Bytes}
use opencode_workspaces.Env.{Env}
use opencode_workspaces.Tables.{Tables}
use opencode_workspaces.World.{Result, ok, err, World, M, pure, continue, ◌>>=◌}
use opencode_workspaces.World.Keeps.{Keeps, Keeps-query, Keeps-pure, Keeps-bind, keeps_rules}
use opencode_workspaces.Database.Users
use opencode_workspaces.Database.Users.{ProvisionUserInput}
use opencode_workspaces.Database.Sessions
use opencode_workspaces.Database.Workspaces
use opencode_workspaces.Database.Settings
use opencode_workspaces.Tables.{SettingRow}
use opencode_workspaces.Prelude.{Option, none, some, List}
use opencode_workspaces.Database.Identities
use opencode_workspaces.Database.Calls
use opencode_workspaces.Database.Calls.{Call, void, perform}

-- Every call keeps the property, whatever fails in it, and so does a migration.
pub record Preserved ⦃env : Env⦄ (P : Tables → Type 0) : Type 0 where
  pub call : (c : Call) → Keeps P (perform c)
  pub migration :
      (t : Tables) (versions executed : List String)
      → P t
      → P (record t { versions = versions; executed = executed })

continue_void :
    {A : Type 0} (P : Tables → Type 0) (r : Result A) (w : World)
    → P (continue r (λ _. pure tt) w).1.tables
    → P w.tables
continue_void P (ok a) w p = p
continue_void P (err e) w p = p

Keeps-of_void : {A : Type 0} (P : Tables → Type 0) (m : M A) → Keeps P (void m) → Keeps P m
unfolding ◌>>=◌
Keeps-of_void P m h = record { at = λ w p. continue_void P (m w).0 (m w).1 (h.at w p) }

module _ ⦃env : Env⦄ {P : Tables → Type 0} (p : Preserved P) where
  pub bootstrap_admin-Keeps : (u d e h : String) → Keeps P (Users.bootstrap_admin u d e h)
  unfolding perform
  bootstrap_admin-Keeps u d e h = Keeps-of_void P _ (p.call (Calls.bootstrap_admin u d e h))

  pub create_local_user-Keeps :
      (a u d e r h x : String) → Keeps P (Users.create_local_user a u d e r h x)
  unfolding perform
  create_local_user-Keeps a u d e r h x =
      Keeps-of_void P _ (p.call (Calls.create_local_user a u d e r h x))

  pub record_login-Keeps : (id : String) → Keeps P (Users.record_login id)
  unfolding perform
  record_login-Keeps id = p.call (Calls.record_login id)

  pub provision_user-Keeps :
      (a : String) (i : ProvisionUserInput) → Keeps P (Users.provision_user a i)
  unfolding perform
  provision_user-Keeps a i = Keeps-of_void P _ (p.call (Calls.provision_user a i))

  pub update_user-Keeps :
      (a id d e r : String) (b : Bool) (h x : String) → Keeps P (Users.update_user a id d e r b h x)
  unfolding perform
  update_user-Keeps a id d e r b h x = p.call (Calls.update_user a id d e r b h x)

  pub create_session-Keeps :
      (t c : Bytes) (u a x : String) (n : ℕ) → Keeps P (Sessions.create_session t c u a x n)
  unfolding perform
  create_session-Keeps t c u a x n = p.call (Calls.create_session t c u a x n)

  pub session-Keeps : (t : Bytes) → Keeps P (Sessions.session t)
  unfolding perform
  session-Keeps t = Keeps-of_void P _ (p.call (Calls.session t))

  pub delete_session-Keeps : (t : Bytes) → Keeps P (Sessions.delete_session t)
  unfolding perform
  delete_session-Keeps t = p.call (Calls.delete_session t)

  pub set_workspace_configuration-Keeps :
      (a u : String) (j : Bytes) (k : String)
      → Keeps P (Workspaces.set_workspace_configuration a u j k)
  unfolding perform
  set_workspace_configuration-Keeps a u j k = p.call (Calls.set_workspace_configuration a u j k)

  pub set_workspace_state-Keeps :
      (a u s x : String) (b : Bool) → Keeps P (Workspaces.set_workspace_state a u s x b)
  unfolding perform
  set_workspace_state-Keeps a u s x b = p.call (Calls.set_workspace_state a u s x b)

  pub touch_workspace-Keeps : (u : String) → Keeps P (Workspaces.touch_workspace u)
  unfolding perform
  touch_workspace-Keeps u = p.call (Calls.touch_workspace u)

  pub idle_workspaces-Keeps : (n : ℕ) → Keeps P (Workspaces.idle_workspaces n)
  unfolding perform
  idle_workspaces-Keeps n = Keeps-of_void P _ (p.call (Calls.idle_workspaces n))

  pub delete_workspace_data_record-Keeps :
      (a u x : String) → Keeps P (Workspaces.delete_workspace_data_record a u x)
  unfolding perform
  delete_workspace_data_record-Keeps a u x = p.call (Calls.delete_workspace_data_record a u x)

  pub set_setting-Keeps :
      (a k : String) (d : Bytes) (b : Bool) (x : String) → Keeps P (Settings.set_setting a k d b x)
  unfolding perform
  set_setting-Keeps a k d b x = p.call (Calls.set_setting a k d b x)

  pub link_oidc_user_by_email-Keeps :
      (i s e x : String) → Keeps P (Identities.link_oidc_user_by_email i s e x)
  unfolding perform
  link_oidc_user_by_email-Keeps i s e x =
      Keeps-of_void P _ (p.call (Calls.link_oidc_user_by_email i s e x))

  pub provision_oidc_user-Keeps :
      (i s u d e r x : String) → Keeps P (Identities.provision_oidc_user i s u d e r x)
  unfolding perform
  provision_oidc_user-Keeps i s u d e r x =
      Keeps-of_void P _ (p.call (Calls.provision_oidc_user i s u d e r x))

-- The methods that only read keep everything.
module _ ⦃env : Env⦄ {P : Tables → Type 0} where
  pub user_count-Keeps : Keeps P Users.user_count
  unfolding Users.user_count
  user_count-Keeps = Keeps-query _

  pub authenticate_local-Keeps : (u : String) → Keeps P (Users.authenticate_local u)
  unfolding Users.authenticate_local
  authenticate_local-Keeps u = Keeps-query _

  pub has_local_credential-Keeps : (u : String) → Keeps P (Users.has_local_credential u)
  unfolding Users.has_local_credential
  has_local_credential-Keeps u = Keeps-query _

  pub list_users-Keeps : Keeps P Users.list_users
  unfolding Users.list_users
  list_users-Keeps = Keeps-query _

  pub workspace-Keeps : (u : String) → Keeps P (Workspaces.workspace u)
  unfolding Workspaces.workspace
  workspace-Keeps u = Keeps-query _

  pub list_workspaces-Keeps : Keeps P Workspaces.list_workspaces
  unfolding Workspaces.list_workspaces
  list_workspaces-Keeps = Keeps-query _

  pub workspace_configuration-Keeps : (u : String) → Keeps P (Workspaces.workspace_configuration u)
  unfolding Workspaces.workspace_configuration
  workspace_configuration-Keeps u = search keeps_rules

  pub audit_events-Keeps : (n : ℕ) → Keeps P (Settings.audit_events n)
  unfolding Settings.audit_events
  audit_events-Keeps n = Keeps-query _

  pub oidc_user-Keeps : (i s : String) → Keeps P (Identities.oidc_user i s)
  unfolding Identities.oidc_user
  oidc_user-Keeps i s = Keeps-query _

  document_of-Keeps : (r : SettingRow) → Keeps P (Settings.document_of r)
  unfolding Settings.document_of
  document_of-Keeps r = search keeps_rules

  read_setting-Keeps : (o : Option SettingRow) → Keeps P (Settings.read_setting o)
  unfolding Settings.read_setting
  read_setting-Keeps none = Keeps-pure none
  read_setting-Keeps (some r) = Keeps-bind _ _ (document_of-Keeps r) (λ d. Keeps-pure (some d))

  pub setting-Keeps : (k : String) → Keeps P (Settings.setting k)
  unfolding Settings.setting
  setting-Keeps k = Keeps-bind _ _ (Keeps-query _) read_setting-Keeps
