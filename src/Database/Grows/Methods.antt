-- ===== src/Database/Grows/Methods.antt =====
-- The methods of `Store`, under a property of accounts and audit log that no insertion breaks.
use opencode_workspaces.Prelude.{
  ℕ, ◌+◌, ◌≡◌, refl, subst, String, Bool, not, Option, none, some, List, [], ◌∷◌, ◌++◌, arith, ◌==◌,
  string_eq, bytes_eq,
}
use opencode_workspaces.Model.{Bytes, User}
use opencode_workspaces.Env.{Env}
use opencode_workspaces.Rows.{modify, remove}
use opencode_workspaces.Tables.{Tables, UserRow, AuditRow}
use opencode_workspaces.World.{
  conflict, Result, ok, err, duplicate_key, World, M, pure, ◌>>◌, when, exec, statement,
}
use opencode_workspaces.World.Keeps.{
  Keeps, Keeps-exec, Keeps-bind, Keeps-pure, Keeps-raise, Keeps-statement, keeps_rules,
}
use opencode_workspaces.World.Keeps.Transactions.{stable_rules}
use opencode_workspaces.Database.Sql.{
  user_key, session_key, with_uuid, with_id, references_user?, new_audit_row, insert_user_row,
  update_user_row, insert_credential_row, insert_workspace_row, insert_audit_row,
}
use opencode_workspaces.Database.Users
use opencode_workspaces.Database.Users.{ProvisionUserInput, as_conflict}
use opencode_workspaces.Database.Vault.{encrypt}
use opencode_workspaces.Database.Sessions
use opencode_workspaces.Database.Workspaces
use opencode_workspaces.Database.Settings
use opencode_workspaces.Database.Identities
use opencode_workspaces.Database.Calls
use opencode_workspaces.Database.Calls.{Call, perform, run}
use opencode_workspaces.Database.Sound.Rules.{
  with_uuid-eq-ok, references_user?-eq-ok, with_null_uuid-eq-ok,
}
use opencode_workspaces.World.Keeps.{ok_injective}
use opencode_workspaces.Database.Sound.Accounts.{update_user_row-Updated}
use opencode_workspaces.Database.Grows.{
  Grows, SameLog, insert_credential_row-SameLog, upsert_credential_row-SameLog,
  insert_workspace_row-SameLog, insert_identity_row-SameLog, insert_session_row-SameLog,
  upsert_configuration_row-SameLog, update_workspace_row-SameLog, touch_row-SameLog,
  upsert_setting_row-SameLog,
}

module _ ⦃env : Env⦄ (Q : List UserRow → List AuditRow → Type 0) (g : Grows Q) where
  abbrev pub At : Tables → Type 0
  At t = Q t.users t.audit_events

  SameLog-At : (t t' : Tables) → At t → SameLog t t' → At t'
  SameLog-At t t' q (e, e') = subst (λ us. Q us t'.audit_events) e (subst (Q t.users) e' q)

  -- A statement that touches neither accounts nor audit log.
  quiet-Keeps :
      (f : Tables → Result Tables)
      → ((t t' : Tables) → f t ≡ ok t' → SameLog t t')
      → Keeps At (exec f)
  quiet-Keeps f h = Keeps-exec f (λ t t' q e. SameLog-At t t' q (h t t' e))

  insert_user_row-At : (r : UserRow) → Keeps At (exec (insert_user_row r))
  unfolding insert_user_row
  insert_user_row-At r = Keeps-exec (insert_user_row r) λ t t' q e.
      let (k, _, e₁) = with_uuid-eq-ok r.id _ t' e in
      let row : UserRow = with_id r k in
      let written : record t { users = t.users ++ row ∷ [] } ≡ t' = ground arith in
      subst At written (g.add_user t.users t.audit_events row q)

  update_user_row-At :
      (id : String) (f : UserRow → UserRow)
      → ((a : UserRow) → (f a).id ≡ a.id)
      → Keeps At (exec (update_user_row id f))
  update_user_row-At id f same = Keeps-exec (update_user_row id f) λ t t' q e.
      let u = update_user_row-Updated id f t t' e in
      subst At u.written (g.change_user t.users t.audit_events u.key f same q)

  login_row-At :
      (time : ℕ) (id : String)
      → Keeps At (
          exec λ t. with_uuid id λ k. ok (record t {
            users = modify user_key k (λ r. record r { last_login_at = some time }) t.users;
          }))
  login_row-At time id = Keeps-exec _ λ t t' q e.
      let (k, _, e₁) = with_uuid-eq-ok id _ t' e in
      subst At (ok_injective e₁) (
        g.change_user t.users t.audit_events k (λ r. record r { last_login_at = some time })
          (λ a. refl) q)

  insert_audit_row-At :
      (id time : ℕ) (a b c d e x : String) → Keeps At (exec (insert_audit_row id time a b c d e x))
  unfolding insert_audit_row
  insert_audit_row-At id time a b c d e x =
      Keeps-exec (insert_audit_row id time a b c d e x) λ t t' q h.
        let rows : Option String → List AuditRow =
          λ o. t.audit_events ++ new_audit_row id time b c d e x o ∷ [] in
        let f : Option String → Result Tables =
          λ o. references_user? o t (ok (record t { audit_events = rows o })) in
        let (o, h₁) = with_null_uuid-eq-ok a f t' h in
        subst At (ok_injective (references_user?-eq-ok o t _ t' h₁))
          (g.add_event t.users t.audit_events (new_audit_row id time b c d e x o) q)

  as_conflict-At : (r : Result (Unit {0})) → Keeps At (as_conflict r)
  as_conflict-At (ok _) = Keeps-pure tt
  as_conflict-At (err duplicate_key) = Keeps-raise conflict
  as_conflict-At (err e) = Keeps-raise e

  pub audit-At : (a b c d e x : String) → Keeps At (Users.audit a b c d e x)
  unfolding Users.audit
  audit-At a b c d e x = search (keeps_rules, insert_audit_row-At)

  ruleset grow_rules = (
    stable_rules, quiet-Keeps, as_conflict-At, audit-At, insert_user_row-At, update_user_row-At,
    login_row-At, insert_credential_row-SameLog, upsert_credential_row-SameLog,
    insert_workspace_row-SameLog, insert_identity_row-SameLog, insert_session_row-SameLog,
    upsert_configuration_row-SameLog, update_workspace_row-SameLog, touch_row-SameLog,
    upsert_setting_row-SameLog,
  )

  pub insert_user-At : (u d e r h : String) → Keeps At (Users.insert_user u d e r h)
  unfolding Users.insert_user Users.insert_user_with
  insert_user-At u d e r h = search grow_rules depth 14

  pub insert_rest-At :
      (id : String) (time : ℕ) (h : String) (row : UserRow)
      → Keeps At (do
        when (not (h == "")) (exec (insert_credential_row time id h))
        exec (insert_workspace_row time id (Users.resource_name id))
        pure (Users.new_user row))
  insert_rest-At id time h row = search grow_rules depth 14

  bootstrap_admin-At : (u d e h : String) → Keeps At (Users.bootstrap_admin u d e h)
  unfolding Users.bootstrap_admin Users.bootstrap_body
  bootstrap_admin-At u d e h = search (grow_rules, insert_user-At) depth 14

  create_local_user-At : (a u d e r h x : String) → Keeps At (Users.create_local_user a u d e r h x)
  unfolding Users.create_local_user Users.create_local_user_body
  create_local_user-At a u d e r h x = search (grow_rules, insert_user-At) depth 14

  record_login-At : (id : String) → Keeps At (Users.record_login id)
  unfolding Users.record_login
  record_login-At id = search grow_rules

  update_returning-At :
      (id : String) (f : UserRow → UserRow)
      → ((a : UserRow) → (f a).id ≡ a.id)
      → Keeps At (Users.update_returning id f)
  unfolding Users.update_returning
  update_returning-At id f same = search (grow_rules, same)

  finish_provision-At :
      (a : String) (input : ProvisionUserInput) (u : User)
      → Keeps At (Users.finish_provision a input u)
  unfolding Users.finish_provision
  finish_provision-At a input u = search (grow_rules, update_returning-At) depth 14

  provision_found-At :
      (a : String) (input : ProvisionUserInput) (o : Option UserRow)
      → Keeps At (Users.provision_found a input o)
  unfolding Users.provision_found
  provision_found-At a input none =
      search (grow_rules, insert_user-At, finish_provision-At) depth 14
  provision_found-At a input (some r) =
      search (grow_rules, update_returning-At, finish_provision-At) depth 14

  provision_user-At :
      (a : String) (input : ProvisionUserInput) → Keeps At (Users.provision_user a input)
  unfolding Users.provision_user Users.provision_body
  provision_user-At a input = search (grow_rules, provision_found-At) depth 14

  update_user-At :
      (a id d e r : String) (b : Bool) (h x : String)
      → Keeps At (Users.update_user a id d e r b h x)
  unfolding Users.update_user Users.update_user_body
  update_user-At a id d e r b h x = search grow_rules depth 14

  create_session-At :
      (t c : Bytes) (u a x : String) (n : ℕ) → Keeps At (Sessions.create_session t c u a x n)
  unfolding Sessions.create_session
  create_session-At t c u a x n = search grow_rules

  seen_write-At :
      (time : ℕ) (token : Bytes)
      → Keeps At (
          exec λ t.
            ok (record t { sessions = modify session_key token (Sessions.seen time) t.sessions }))
  seen_write-At time token = Keeps-exec _ (λ t t' q e. subst At (ok_injective e) q)

  live_view-At :
      (view : Sessions.SessionView) (touch : M (Unit {0}))
      → Keeps At touch
      → Keeps At (Sessions.live_view view touch)
  unfolding Sessions.live_view
  live_view-At view touch k = search keeps_rules

  session-At : (token : Bytes) → Keeps At (Sessions.session token)
  unfolding Sessions.session
  session-At token = search (keeps_rules, live_view-At, seen_write-At)

  delete_session-At : (token : Bytes) → Keeps At (Sessions.delete_session token)
  unfolding Sessions.delete_session
  delete_session-At token =
      quiet-Keeps (λ t. ok (record t { sessions = remove session_key token t.sessions }))
        (λ t t' e. ground arith)

  encrypt-At : (b : Bytes) → Keeps At (encrypt b)
  unfolding encrypt
  encrypt-At b = search keeps_rules

  set_workspace_configuration-At :
      (a u : String) (j : Bytes) (k : String)
      → Keeps At (Workspaces.set_workspace_configuration a u j k)
  unfolding Workspaces.set_workspace_configuration Workspaces.set_configuration_body
  set_workspace_configuration-At a u j k = search (grow_rules, encrypt-At) depth 14

  set_workspace_state-At :
      (a u s x : String) (b : Bool) → Keeps At (Workspaces.set_workspace_state a u s x b)
  unfolding Workspaces.set_workspace_state Workspaces.set_workspace_state_body
  set_workspace_state-At a u s x b = search grow_rules depth 14

  touch_workspace-At : (u : String) → Keeps At (Workspaces.touch_workspace u)
  unfolding Workspaces.touch_workspace
  touch_workspace-At u = search grow_rules

  idle_workspaces-At : (n : ℕ) → Keeps At (Workspaces.idle_workspaces n)
  unfolding Workspaces.idle_workspaces
  idle_workspaces-At n = Keeps-bind statement _ Keeps-statement λ _. record { at = λ w q. q }

  delete_workspace_data_record-At :
      (a u x : String) → Keeps At (Workspaces.delete_workspace_data_record a u x)
  unfolding Workspaces.delete_workspace_data_record
  delete_workspace_data_record-At a u x = search grow_rules depth 14

  set_setting-At :
      (a k : String) (d : Bytes) (b : Bool) (x : String) → Keeps At (Settings.set_setting a k d b x)
  unfolding Settings.set_setting Settings.set_setting_body Settings.stored_value
  set_setting-At a k d b x = search (grow_rules, encrypt-At) depth 14

  link_oidc_user_by_email-At :
      (i s e x : String) → Keeps At (Identities.link_oidc_user_by_email i s e x)
  unfolding Identities.link_oidc_user_by_email Identities.link_body
  link_oidc_user_by_email-At i s e x = search grow_rules depth 14

  provision_oidc_user-At :
      (i s u d e r x : String) → Keeps At (Identities.provision_oidc_user i s u d e r x)
  unfolding Identities.provision_oidc_user Identities.provision_oidc_body
  provision_oidc_user-At i s u d e r x = search (grow_rules, insert_user-At) depth 14

  pub perform-At : (c : Call) → Keeps At (perform c)
  unfolding perform
  perform-At (Calls.bootstrap_admin u d e h) = search (grow_rules, bootstrap_admin-At)
  perform-At (Calls.session t) = search (grow_rules, session-At)
  perform-At (Calls.idle_workspaces n) = search (grow_rules, idle_workspaces-At)
  perform-At (Calls.create_local_user a u d e r h x) = search (grow_rules, create_local_user-At)
  perform-At (Calls.record_login id) = record_login-At id
  perform-At (Calls.provision_user a input) = search (grow_rules, provision_user-At)
  perform-At (Calls.update_user a id d e r b h x) = update_user-At a id d e r b h x
  perform-At (Calls.create_session t c u a x n) = create_session-At t c u a x n
  perform-At (Calls.delete_session t) = delete_session-At t
  perform-At (Calls.set_workspace_configuration a u j k) = set_workspace_configuration-At a u j k
  perform-At (Calls.set_workspace_state a u s x b) = set_workspace_state-At a u s x b
  perform-At (Calls.touch_workspace u) = touch_workspace-At u
  perform-At (Calls.delete_workspace_data_record a u x) = delete_workspace_data_record-At a u x
  perform-At (Calls.set_setting a k d b x) = set_setting-At a k d b x
  perform-At (Calls.link_oidc_user_by_email i s e x) =
      search (grow_rules, link_oidc_user_by_email-At)
  perform-At (Calls.provision_oidc_user i s u d e r x) = search (grow_rules, provision_oidc_user-At)

  pub run-At : (w : World) (history : List (ℕ × Call)) → At w.tables → At (run w history).tables
  unfolding run
  run-At w [] q = q
  run-At w ((d, c) ∷ cs) q =
      run-At (perform c (record w { clock = w.clock + d })).1 cs
        ((perform-At c).at (record w { clock = w.clock + d }) q)
