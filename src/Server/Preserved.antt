-- ===== src/Server/Preserved.antt =====
-- Invariants of the tables under each handler.
use opencode_workspaces.Prelude.{String, Option, none, some, nat_eq, string_eq}
use opencode_workspaces.Model.{User}
use opencode_workspaces.Env.{Env}
use opencode_workspaces.Http.{Request}
use opencode_workspaces.Tables.{Tables}
use opencode_workspaces.Database.Preserved.{
  Preserved, user_count-Keeps, bootstrap_admin-Keeps, authenticate_local-Keeps, record_login-Keeps,
  has_local_credential-Keeps, workspace-Keeps, update_user-Keeps, list_users-Keeps,
  list_workspaces-Keeps, audit_events-Keeps, create_local_user-Keeps, set_setting-Keeps,
  setting-Keeps,
}
use opencode_workspaces.Auth.Sessions.Preserved.{
  hash_password-Keeps, new_session-Keeps, csrf_valid-Keeps, clear_session-Keeps,
}
use opencode_workspaces.Oidc.Flows.{Provider}
use opencode_workspaces.Oidc.Preserved.{
  settings-Keeps, start_login-Keeps, save-Keeps, callback-Keeps,
}
use opencode_workspaces.Kube.Preserved.{status-Keeps, statuses-Keeps, stop-Keeps}
use opencode_workspaces.Server.{Server, Web}
use opencode_workspaces.Server.Holds.{Holds, Holds-pure, Holds-answer, Holds-bind, holds_rules}
use opencode_workspaces.Server.Pages.{
  branding, view_data, render_error, require_user, require_admin, check_csrf,
}
use opencode_workspaces.Server.SignIn.{
  login_allowed, forget_attempts, require_accepted, setup_get, setup_post, login_form, login_get,
  login_post, logout, oidc_login, oidc_callback,
}
use opencode_workspaces.Server.Account.{home, stop_workspace, change_password, bootstrap_api}
use opencode_workspaces.Server.Admin.{
  optional_hash, admin, create_user, update_account, save_branding, save_oidc,
}

module _ ⦃env : Env⦄ ⦃provider : Provider⦄ ⦃web : Web⦄ {P : Tables → Type 0} where
  branding-Holds : Holds P branding
  unfolding branding
  branding-Holds = search (holds_rules, setting-Keeps)

  view_data-Holds : (r : Request) (u : Option User) → Holds P (view_data r u)
  unfolding view_data
  view_data-Holds r u = search (holds_rules, settings-Keeps, branding-Holds)

  render_error-Holds :
      {A : Type 0} (r : Request) (u : Option User) (n m : String)
      → Holds P (render_error {A = A} r u n m)
  unfolding render_error
  render_error-Holds r u n m = search (holds_rules, view_data-Holds)

  require_user-Holds : (u : Option User) → Holds P (require_user u)
  require_user-Holds none = Holds-answer _
  require_user-Holds (some u) = Holds-pure u

  pub require_admin-Holds : (u : Option User) → Holds P (require_admin u)
  unfolding require_admin
  require_admin-Holds u = search (holds_rules, require_user-Holds)

  login_allowed-Holds : (k : String) → Holds P (login_allowed k)
  unfolding login_allowed
  login_allowed-Holds k = record { at = λ s p. p }

  forget_attempts-Holds : (k : String) → Holds P (forget_attempts k)
  unfolding forget_attempts
  forget_attempts-Holds k = record { at = λ s p. p }

  require_accepted-Holds : (r : Request) (u o : Option User) → Holds P (require_accepted r u o)
  require_accepted-Holds r u none = render_error-Holds r u _ _
  require_accepted-Holds r u (some user) = Holds-pure user

  pub optional_hash-Holds : (s : String) → Holds P (optional_hash s)
  unfolding optional_hash
  optional_hash-Holds s = search (holds_rules, hash_password-Keeps)

  pub setup_get-Holds : (r : Request) (u : Option User) → Holds P (setup_get r u)
  unfolding setup_get
  setup_get-Holds r u = search (holds_rules, user_count-Keeps, view_data-Holds)

  login_form-Holds : (r : Request) (u : Option User) → Holds P (login_form r u)
  login_form-Holds r none = Holds-bind _ _ (view_data-Holds r none) (λ v. Holds-pure _)
  login_form-Holds r (some u) = Holds-pure _

  pub login_get-Holds : (r : Request) (u : Option User) → Holds P (login_get r u)
  unfolding login_get
  login_get-Holds r u = search (holds_rules, user_count-Keeps, login_form-Holds)

  pub oidc_login-Holds : (s : Server) → Holds P (oidc_login s)
  unfolding oidc_login
  oidc_login-Holds s = search (holds_rules, start_login-Keeps)

  pub home-Holds : (r : Request) (u : Option User) → Holds P (home r u)
  unfolding home
  home-Holds r u =
      search
        (
          holds_rules, require_user-Holds, view_data-Holds, has_local_credential-Keeps,
          workspace-Keeps, status-Keeps,
        )
        depth 12

  pub bootstrap_api-Holds : (u : Option User) → Holds P (bootstrap_api u)
  unfolding bootstrap_api
  bootstrap_api-Holds u = search (holds_rules, require_user-Holds, branding-Holds)

  pub admin-Holds : (s : Server) (r : Request) (u : Option User) → Holds P (admin s r u)
  unfolding admin
  admin-Holds s r u =
      search
        (
          holds_rules, require_admin-Holds, view_data-Holds, list_users-Keeps,
          list_workspaces-Keeps, statuses-Keeps, audit_events-Keeps,
        )
        depth 14

module _ ⦃env : Env⦄ ⦃provider : Provider⦄ ⦃web : Web⦄ {P : Tables → Type 0} (p : Preserved P) where
  pub check_csrf-Holds : (s : Server) (r : Request) → Holds P (check_csrf s r)
  unfolding check_csrf
  check_csrf-Holds s r = search (holds_rules, csrf_valid-Keeps p)

  pub setup_post-Holds : (s : Server) (r : Request) (u : Option User) → Holds P (setup_post s r u)
  unfolding setup_post
  setup_post-Holds s r u =
      search
        (
          holds_rules,
          render_error-Holds,
          hash_password-Keeps,
          bootstrap_admin-Keeps p,
          new_session-Keeps p,
        )
        depth 14

  pub login_post-Holds : (s : Server) (r : Request) (u : Option User) → Holds P (login_post s r u)
  unfolding login_post
  login_post-Holds s r u =
      search
        (
          holds_rules,
          login_allowed-Holds,
          authenticate_local-Keeps,
          require_accepted-Holds,
          forget_attempts-Holds,
          record_login-Keeps p,
          new_session-Keeps p,
        )
        depth 14

  pub logout-Holds : (s : Server) (r : Request) → Holds P (logout s r)
  unfolding logout
  logout-Holds s r = search (holds_rules, csrf_valid-Keeps p, clear_session-Keeps p)

  pub oidc_callback-Holds : (s : Server) (r : Request) → Holds P (oidc_callback s r)
  unfolding oidc_callback
  oidc_callback-Holds s r =
      search (holds_rules, callback-Keeps p, new_session-Keeps p, record_login-Keeps p) depth 12

  pub stop_workspace-Holds :
      (s : Server) (r : Request) (u : Option User) → Holds P (stop_workspace s r u)
  unfolding stop_workspace
  stop_workspace-Holds s r u =
      search (holds_rules, require_user-Holds, check_csrf-Holds, stop-Keeps p) depth 12

  pub change_password-Holds :
      (s : Server) (r : Request) (u : Option User) → Holds P (change_password s r u)
  unfolding change_password
  change_password-Holds s r u =
      search
        (
          holds_rules,
          require_user-Holds,
          check_csrf-Holds,
          authenticate_local-Keeps,
          hash_password-Keeps,
          update_user-Keeps p,
        )
        depth 14

  pub create_user-Holds : (s : Server) (r : Request) (u : Option User) → Holds P (create_user s r u)
  unfolding create_user
  create_user-Holds s r u =
      search
        (
          holds_rules,
          require_admin-Holds,
          check_csrf-Holds,
          hash_password-Keeps,
          create_local_user-Keeps p,
        )
        depth 14

  pub update_account-Holds :
      (s : Server) (r : Request) (u : Option User) (id : String) → Holds P (update_account s r u id)
  unfolding update_account
  update_account-Holds s r u id =
      search
        (
          holds_rules,
          require_admin-Holds,
          check_csrf-Holds,
          optional_hash-Holds,
          update_user-Keeps p,
        )
        depth 14

  pub save_branding-Holds :
      (s : Server) (r : Request) (u : Option User) → Holds P (save_branding s r u)
  unfolding save_branding
  save_branding-Holds s r u =
      search (holds_rules, require_admin-Holds, check_csrf-Holds, set_setting-Keeps p) depth 12

  pub save_oidc-Holds : (s : Server) (r : Request) (u : Option User) → Holds P (save_oidc s r u)
  unfolding save_oidc
  save_oidc-Holds s r u =
      search (holds_rules, require_admin-Holds, check_csrf-Holds, settings-Keeps, save-Keeps p)
        depth 12
