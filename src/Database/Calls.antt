-- ===== src/Database/Calls.antt =====
-- The methods of `Store` that write, as calls, and histories of calls under a clock that moves on.
use opencode_workspaces.Prelude.{ℕ, ◌+◌, String, Bool, List, [], ◌∷◌}
use opencode_workspaces.Model.{Bytes}
use opencode_workspaces.Env.{Env}
use opencode_workspaces.World.{World, M, pure, ◌>>=◌}
use opencode_workspaces.Database.Users
use opencode_workspaces.Database.Users.{ProvisionUserInput}
use opencode_workspaces.Database.Sessions
use opencode_workspaces.Database.Workspaces
use opencode_workspaces.Database.Settings
use opencode_workspaces.Database.Identities

pub data Call : Type 0 where
  bootstrap_admin : String → String → String → String → Call
  create_local_user : String → String → String → String → String → String → String → Call
  record_login : String → Call
  provision_user : String → ProvisionUserInput → Call
  update_user : String → String → String → String → String → Bool → String → String → Call
  create_session : Bytes → Bytes → String → String → String → ℕ → Call
  session delete_session : Bytes → Call
  set_workspace_configuration : String → String → Bytes → String → Call
  set_workspace_state : String → String → String → String → Bool → Call
  touch_workspace : String → Call
  idle_workspaces : ℕ → Call
  delete_workspace_data_record : String → String → String → Call
  set_setting : String → String → Bytes → Bool → String → Call
  link_oidc_user_by_email : String → String → String → String → Call
  provision_oidc_user : String → String → String → String → String → String → String → Call

-- The call without its value.
abbrev pub void : {A : Type 0} → M A → M (Unit {0})
void m = m >>= λ _. pure tt

module _ ⦃env : Env⦄ where
  unfoldable pub perform : Call → M (Unit {0})
  perform (bootstrap_admin u d e h) = void (Users.bootstrap_admin u d e h)
  perform (create_local_user a u d e r h x) = void (Users.create_local_user a u d e r h x)
  perform (record_login id) = Users.record_login id
  perform (provision_user a input) = void (Users.provision_user a input)
  perform (update_user a id d e r b h x) = Users.update_user a id d e r b h x
  perform (create_session t c u a x n) = Sessions.create_session t c u a x n
  perform (session t) = void (Sessions.session t)
  perform (delete_session t) = Sessions.delete_session t
  perform (set_workspace_configuration a u j k) = Workspaces.set_workspace_configuration a u j k
  perform (set_workspace_state a u s x b) = Workspaces.set_workspace_state a u s x b
  perform (touch_workspace u) = Workspaces.touch_workspace u
  perform (idle_workspaces n) = void (Workspaces.idle_workspaces n)
  perform (delete_workspace_data_record a u x) = Workspaces.delete_workspace_data_record a u x
  perform (set_setting a k d b x) = Settings.set_setting a k d b x
  perform (link_oidc_user_by_email i s e x) = void (Identities.link_oidc_user_by_email i s e x)
  perform (provision_oidc_user i s u d e r x) = void (Identities.provision_oidc_user i s u d e r x)

  -- A history: before each call the clock moves on by some time.
  unfoldable pub run : World → List (ℕ × Call) → World
  run w [] = w
  run w ((d, c) ∷ cs) = run (perform c (record w { clock = w.clock + d })).1 cs
