-- ===== src/Database/Atomic.antt =====
-- The tables before and after a call of a method of `Store` that fails.
use opencode_workspaces.Prelude.{ℕ, String, Bool, true, false, ◌≡◌, arith}
use opencode_workspaces.Model.{Bytes}
use opencode_workspaces.Env.{Env}
use opencode_workspaces.World.{Error, err, World}
use opencode_workspaces.World.Keeps.{Keeps-bind, Keeps-pure, keeps_rules}
use opencode_workspaces.World.Atomic.{Atomic, Reads, Atomic-bind, Atomic-then_pure, atomic_rules}
use opencode_workspaces.Database.Vault.{encrypt}
use opencode_workspaces.Database.Users
use opencode_workspaces.Database.Users.{ProvisionUserInput}
use opencode_workspaces.Database.Sessions
use opencode_workspaces.Database.Sessions.{SessionView}
use opencode_workspaces.Database.Workspaces
use opencode_workspaces.Database.Settings
use opencode_workspaces.Database.Identities
use opencode_workspaces.Database.Calls
use opencode_workspaces.Database.Calls.{Call, perform}

module _ ⦃env : Env⦄ where
  encrypt-Reads : (b : Bytes) → Reads (encrypt b)
  unfolding encrypt
  encrypt-Reads b t = search keeps_rules

  stored_value-Reads : (b : Bool) (d : Bytes) → Reads (Settings.stored_value b d)
  unfolding Settings.stored_value
  stored_value-Reads true d t = Keeps-bind _ _ (encrypt-Reads d t) (λ e. Keeps-pure (env.quote e))
  stored_value-Reads false d t = Keeps-pure d

  bootstrap_admin-Atomic : (u d e h : String) → Atomic (Users.bootstrap_admin u d e h)
  unfolding Users.bootstrap_admin
  bootstrap_admin-Atomic u d e h = search atomic_rules

  create_local_user-Atomic :
      (a u d e r h x : String) → Atomic (Users.create_local_user a u d e r h x)
  unfolding Users.create_local_user
  create_local_user-Atomic a u d e r h x = search atomic_rules

  record_login-Atomic : (id : String) → Atomic (Users.record_login id)
  unfolding Users.record_login
  record_login-Atomic id = search (atomic_rules, Atomic-bind, keeps_rules)

  provision_user-Atomic : (a : String) (i : ProvisionUserInput) → Atomic (Users.provision_user a i)
  unfolding Users.provision_user
  provision_user-Atomic a i = search atomic_rules

  update_user-Atomic :
      (a id d e r : String) (b : Bool) (h x : String) → Atomic (Users.update_user a id d e r b h x)
  unfolding Users.update_user
  update_user-Atomic a id d e r b h x = search atomic_rules

  create_session-Atomic :
      (t c : Bytes) (u a x : String) (n : ℕ) → Atomic (Sessions.create_session t c u a x n)
  unfolding Sessions.create_session
  create_session-Atomic t c u a x n = search (atomic_rules, Atomic-bind, keeps_rules)

  session-Atomic : (t : Bytes) → Atomic (Sessions.session t)
  unfolding Sessions.session Sessions.live_view
  session-Atomic t = search (atomic_rules, Atomic-bind, keeps_rules)

  delete_session-Atomic : (t : Bytes) → Atomic (Sessions.delete_session t)
  unfolding Sessions.delete_session
  delete_session-Atomic t = search atomic_rules

  set_workspace_configuration-Atomic :
      (a u : String) (j : Bytes) (k : String)
      → Atomic (Workspaces.set_workspace_configuration a u j k)
  unfolding Workspaces.set_workspace_configuration
  set_workspace_configuration-Atomic a u j k =
      search (atomic_rules, Atomic-bind, keeps_rules, encrypt-Reads) depth 12

  set_workspace_state-Atomic :
      (a u s x : String) (b : Bool) → Atomic (Workspaces.set_workspace_state a u s x b)
  unfolding Workspaces.set_workspace_state
  set_workspace_state-Atomic a u s x b = search atomic_rules

  touch_workspace-Atomic : (u : String) → Atomic (Workspaces.touch_workspace u)
  unfolding Workspaces.touch_workspace
  touch_workspace-Atomic u = search (atomic_rules, Atomic-bind, keeps_rules)

  idle_workspaces-Atomic : (n : ℕ) → Atomic (Workspaces.idle_workspaces n)
  unfolding Workspaces.idle_workspaces
  idle_workspaces-Atomic n =
      Atomic-bind _ _ (λ t. search keeps_rules) (λ _. record { at = λ w w' e h. ground arith })

  delete_workspace_data_record-Atomic :
      (a u x : String) → Atomic (Workspaces.delete_workspace_data_record a u x)
  unfolding Workspaces.delete_workspace_data_record
  delete_workspace_data_record-Atomic a u x = search (atomic_rules, Atomic-bind, keeps_rules)

  set_setting-Atomic :
      (a k : String) (d : Bytes) (b : Bool) (x : String) → Atomic (Settings.set_setting a k d b x)
  unfolding Settings.set_setting
  set_setting-Atomic a k d b x = search (atomic_rules, Atomic-bind, stored_value-Reads)

  link_oidc_user_by_email-Atomic :
      (i s e x : String) → Atomic (Identities.link_oidc_user_by_email i s e x)
  unfolding Identities.link_oidc_user_by_email
  link_oidc_user_by_email-Atomic i s e x = search atomic_rules

  provision_oidc_user-Atomic :
      (i s u d e r x : String) → Atomic (Identities.provision_oidc_user i s u d e r x)
  unfolding Identities.provision_oidc_user
  provision_oidc_user-Atomic i s u d e r x = search atomic_rules

  perform-Atomic : (c : Call) → Atomic (perform c)
  unfolding perform
  perform-Atomic (Calls.bootstrap_admin u d e h) =
      Atomic-then_pure _ _ (bootstrap_admin-Atomic u d e h)
  perform-Atomic (Calls.create_local_user a u d e r h x) =
      Atomic-then_pure _ _ (create_local_user-Atomic a u d e r h x)
  perform-Atomic (Calls.record_login id) = record_login-Atomic id
  perform-Atomic (Calls.provision_user a input) =
      Atomic-then_pure _ _ (provision_user-Atomic a input)
  perform-Atomic (Calls.update_user a id d e r b h x) = update_user-Atomic a id d e r b h x
  perform-Atomic (Calls.create_session t c u a x n) = create_session-Atomic t c u a x n
  perform-Atomic (Calls.session t) = Atomic-then_pure _ _ (session-Atomic t)
  perform-Atomic (Calls.delete_session t) = delete_session-Atomic t
  perform-Atomic (Calls.set_workspace_configuration a u j k) =
      set_workspace_configuration-Atomic a u j k
  perform-Atomic (Calls.set_workspace_state a u s x b) = set_workspace_state-Atomic a u s x b
  perform-Atomic (Calls.touch_workspace u) = touch_workspace-Atomic u
  perform-Atomic (Calls.idle_workspaces n) = Atomic-then_pure _ _ (idle_workspaces-Atomic n)
  perform-Atomic (Calls.delete_workspace_data_record a u x) =
      delete_workspace_data_record-Atomic a u x
  perform-Atomic (Calls.set_setting a k d b x) = set_setting-Atomic a k d b x
  perform-Atomic (Calls.link_oidc_user_by_email i s e x) =
      Atomic-then_pure _ _ (link_oidc_user_by_email-Atomic i s e x)
  perform-Atomic (Calls.provision_oidc_user i s u d e r x) =
      Atomic-then_pure _ _ (provision_oidc_user-Atomic i s u d e r x)

  -- A call that fails, wherever it fails, leaves every table as it was.
  pub failed_call_changes_nothing :
      (c : Call) (w w' : World) (e : Error) → perform c w ≡ (err e, w') → w'.tables ≡ w.tables
  failed_call_changes_nothing c w w' e h = (perform-Atomic c).at w w' e h
