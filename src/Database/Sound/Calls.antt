-- ===== src/Database/Sound/Calls.antt =====
-- The methods of `Store` and histories of them, on a sound database.
use opencode_workspaces.Prelude.{
  ℕ, ◌+◌, ◌≡◌, refl, subst, String, Bool, true, false, none, bytes_eq, List, [], ◌∷◌, arith,
  if◌then◌else◌, string_eq,
}
use opencode_workspaces.Model.{Bytes}
use opencode_workspaces.Env.{Env}
use opencode_workspaces.Rows.{find, has, modify}
use opencode_workspaces.Rows.Laws.{has-map, All-map_lem}
use opencode_workspaces.Tables.{empty_tables, WorkspaceRow}
use opencode_workspaces.World.{ok, World, M, now, exec, statement}
use opencode_workspaces.World.Keeps.{
  Keeps, Keeps-exec, Keeps-bind, Keeps-attempt, Keeps-pure, Keeps-now, Keeps-statement, keeps_rules,
}
use opencode_workspaces.World.Keeps.Transactions.{
  Stable-bind, Stable-of_Keeps, Keeps-Stable-transaction,
}
use opencode_workspaces.Database.Sql.{session_key, workspace_key, is_state}
use opencode_workspaces.Database.Vault.{encrypt}
use opencode_workspaces.Database.Sessions
use opencode_workspaces.Database.Workspaces
use opencode_workspaces.Database.Settings
use opencode_workspaces.Database.Identities
use opencode_workspaces.Database.Calls
use opencode_workspaces.Database.Calls.{Call, perform, run}
use opencode_workspaces.Database.Sound.{IsSound}
use opencode_workspaces.Database.Sound.Overlaps.{KeepsPlace, Apart-map}
use opencode_workspaces.Database.Sound.Methods.{
  as_conflict-Keeps, audit-Keeps, bootstrap_admin-Sound, create_local_user-Sound,
  record_login-Sound, provision_user-Sound, update_user-Sound, sound_rules,
}
use opencode_workspaces.World.Keeps.{ok_injective}
use opencode_workspaces.Database.Sound.Workspaces.{
  workspaces-IsSound, update_workspace_row-IsSound, touch_row-IsSound,
}
use opencode_workspaces.Database.Sound.Owned.Statements.{
  insert_session_row-IsSound, seen-IsSound, remove_session-IsSound, insert_identity_row-IsSound,
  upsert_configuration_row-IsSound, upsert_setting_row-IsSound,
}

module _ ⦃env : Env⦄ where
  create_session-Sound :
      (t c : Bytes) (u a x : String) (n : ℕ)
      → Keeps (IsSound none) (Sessions.create_session t c u a x n)
  unfolding Sessions.create_session
  create_session-Sound t c u a x n = search (keeps_rules, Keeps-exec, insert_session_row-IsSound)

  seen_write-Sound :
      (time : ℕ) (token : Bytes)
      → Keeps (IsSound none) (
          exec λ t.
            ok (record t { sessions = modify session_key token (Sessions.seen time) t.sessions }))
  seen_write-Sound time token =
      Keeps-exec _ (λ t t' v e. subst (IsSound none) (ok_injective e) (seen-IsSound time token t v))

  live_view-Sound :
      (view : Sessions.SessionView) (touch : M (Unit {0}))
      → Keeps (IsSound none) touch
      → Keeps (IsSound none) (Sessions.live_view view touch)
  unfolding Sessions.live_view
  live_view-Sound view touch k = search keeps_rules

  session-Sound : (token : Bytes) → Keeps (IsSound none) (Sessions.session token)
  unfolding Sessions.session
  session-Sound token = search (keeps_rules, live_view-Sound, seen_write-Sound)

  delete_session-Sound : (token : Bytes) → Keeps (IsSound none) (Sessions.delete_session token)
  unfolding Sessions.delete_session
  delete_session-Sound token =
      Keeps-exec _
        (λ t t' v e. subst (IsSound none) (ok_injective e) (remove_session-IsSound token t v))

  encrypt-Sound : (b : Bytes) → Keeps (IsSound none) (encrypt b)
  unfolding encrypt
  encrypt-Sound b = search keeps_rules

  set_workspace_configuration-Sound :
      (a u : String) (j : Bytes) (k : String)
      → Keeps (IsSound none) (Workspaces.set_workspace_configuration a u j k)
  unfolding Workspaces.set_workspace_configuration Workspaces.set_configuration_body
  set_workspace_configuration-Sound a u j k =
      search (sound_rules, encrypt-Sound, upsert_configuration_row-IsSound) depth 12

  state_write-Sound :
      (time : ℕ) (u s : String) (b : Bool)
      → Keeps (IsSound none) (
          exec (
            Workspaces.update_workspace_row u
              (if b then Workspaces.set_restarted time else Workspaces.set_state time s)))
  state_write-Sound time u s true = Keeps-exec _ (λ t t' v e.
      update_workspace_row-IsSound u (Workspaces.set_restarted time) t t' (λ a. (refl, refl))
        (λ a c. refl) v e)
  state_write-Sound time u s false = Keeps-exec _ (λ t t' v e.
      update_workspace_row-IsSound u (Workspaces.set_state time s) t t' (λ a. (refl, refl))
        (λ a c. refl) v e)

  set_workspace_state-Sound :
      (a u s x : String) (b : Bool)
      → Keeps (IsSound none) (Workspaces.set_workspace_state a u s x b)
  unfolding Workspaces.set_workspace_state Workspaces.set_workspace_state_body
  set_workspace_state-Sound a u s x b = search (sound_rules, state_write-Sound) depth 9

  running_is_state : is_state "running" ≡ true
  unfolding is_state
  running_is_state = refl

  stopped_is_state : is_state "stopped" ≡ true
  unfolding is_state
  stopped_is_state = refl

  touch_write-Sound :
      (u : String) (f : WorkspaceRow → WorkspaceRow)
      → KeepsPlace f
      → ((a : WorkspaceRow) → is_state (f a).desired_state ≡ true)
      → Keeps (IsSound none) (exec (Workspaces.touch_row u f))
  touch_write-Sound u f same valid =
      Keeps-exec _ (λ t t' v e. touch_row-IsSound u f t t' same valid v e)

  touch_workspace-Sound : (u : String) → Keeps (IsSound none) (Workspaces.touch_workspace u)
  unfolding Workspaces.touch_workspace
  touch_workspace-Sound u = Keeps-bind now _ Keeps-now λ time.
      Keeps-attempt _ _
        (touch_write-Sound u (Workspaces.set_touched time) (λ a. (refl, refl))
          (λ a. running_is_state))
        (λ r. Keeps-pure tt)

  set_idled-KeepsPlace : (time before : ℕ) → KeepsPlace (Workspaces.set_idled time before)
  set_idled-KeepsPlace time before w = ground arith

  set_idled-state :
      (time before : ℕ) (w : WorkspaceRow)
      → is_state w.desired_state ≡ true
      → is_state (Workspaces.set_idled time before w).desired_state ≡ true
  set_idled-state time before w h = ground (arith, stopped_is_state)

  idle_workspaces-Sound : (n : ℕ) → Keeps (IsSound none) (Workspaces.idle_workspaces n)
  unfolding Workspaces.idle_workspaces
  idle_workspaces-Sound n = Keeps-bind statement _ Keeps-statement λ _. record {
    at = λ w v.
        workspaces-IsSound w.tables _ v
          (λ j.
            has-map workspace_key (Workspaces.set_idled w.clock n) (λ a. ground arith) j
              w.tables.workspaces)
          (Apart-map (Workspaces.set_idled w.clock n) (set_idled-KeepsPlace w.clock n)
            w.tables.workspaces v.apart)
          (All-map_lem _ (Workspaces.set_idled w.clock n) w.tables.workspaces v.states
            (set_idled-state w.clock n));
  }

  delete_workspace_data_record-Sound :
      (a u x : String) → Keeps (IsSound none) (Workspaces.delete_workspace_data_record a u x)
  unfolding Workspaces.delete_workspace_data_record
  delete_workspace_data_record-Sound a u x = Keeps-bind now _ Keeps-now λ time.
      Keeps-Stable-transaction _ (
        Stable-bind _ _
          (Stable-of_Keeps _ (
            touch_write-Sound u (Workspaces.set_purged time) (λ b. (refl, refl))
              (λ b. stopped_is_state)))
          (λ _. Stable-of_Keeps _ (audit-Keeps a "workspace.purge" "workspace" u "{}" x)))

  set_setting-Sound :
      (a k : String) (d : Bytes) (b : Bool) (x : String)
      → Keeps (IsSound none) (Settings.set_setting a k d b x)
  unfolding Settings.set_setting Settings.set_setting_body Settings.stored_value
  set_setting-Sound a k d b x =
      search (sound_rules, encrypt-Sound, upsert_setting_row-IsSound) depth 12

  link_oidc_user_by_email-Sound :
      (i s e x : String) → Keeps (IsSound none) (Identities.link_oidc_user_by_email i s e x)
  unfolding Identities.link_oidc_user_by_email Identities.link_body
  link_oidc_user_by_email-Sound i s e x =
      search (sound_rules, as_conflict-Keeps, insert_identity_row-IsSound) depth 12

  provision_oidc_user-Sound :
      (i s u d e r x : String) → Keeps (IsSound none) (Identities.provision_oidc_user i s u d e r x)
  unfolding Identities.provision_oidc_user Identities.provision_oidc_body
  provision_oidc_user-Sound i s u d e r x =
      search (sound_rules, insert_identity_row-IsSound) depth 12

  ruleset call_rules = (
    keeps_rules, bootstrap_admin-Sound, create_local_user-Sound, record_login-Sound,
    provision_user-Sound, update_user-Sound, create_session-Sound, session-Sound,
    delete_session-Sound, set_workspace_configuration-Sound, set_workspace_state-Sound,
    touch_workspace-Sound, idle_workspaces-Sound, delete_workspace_data_record-Sound,
    set_setting-Sound, link_oidc_user_by_email-Sound, provision_oidc_user-Sound,
  )

  pub perform-Sound : (c : Call) → Keeps (IsSound none) (perform c)
  unfolding perform
  perform-Sound (Calls.bootstrap_admin u d e h) = search call_rules
  perform-Sound _ = search call_rules

  -- From a sound database, whatever the history of calls and whichever of them fail, the database
  -- is sound: accounts differ in id, username and address up to lower case, each has exactly one
  -- workspace under its id, no two workspaces share a resource name, roles and states are the declared ones, sessions, credentials, identities
  -- and configurations belong to accounts, and revisions count from 1.
  pub run-IsSound :
      (w : World) (history : List (ℕ × Call))
      → IsSound none w.tables
      → IsSound none (run w history).tables
  unfolding run
  run-IsSound w [] v = v
  run-IsSound w ((d, c) ∷ cs) v =
      run-IsSound (perform c (record w { clock = w.clock + d })).1 cs
        ((perform-Sound c).at (record w { clock = w.clock + d }) v)

  pub empty-IsSound : IsSound none empty_tables
  unfolding has find
  empty-IsSound = record {
    paired = λ j. refl;
    distinct = tt;
    apart = tt;
    roles = tt;
    states = tt;
    sessions_owned = tt;
    credentials_owned = tt;
    identities_owned = tt;
    configurations_owned = tt;
  }
