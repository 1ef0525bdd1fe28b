-- ===== src/Server/Discreet.antt =====
-- The field of the client secret in the settings of the OIDC login, in the data of the pages that the
-- server answers with.
use opencode_workspaces.Prelude.{
  String, Bool, true, false, Option, none, some, if◌then◌else◌, Bool-cases, inl, inr, ◌==◌,
  string_eq,
}
use opencode_workspaces.Model.{User}
use opencode_workspaces.Env.{Env}
use opencode_workspaces.Http.{Request}
use opencode_workspaces.World.{Result, ok, err, World, M}
use opencode_workspaces.Oidc.Flows.{Provider}
use opencode_workspaces.Proxy
use opencode_workspaces.Proxy.{Net, Headers, Gateway}
use opencode_workspaces.Server.{
  Server, text, Response, bare, redirect_to, Web, Site, Outcome, answered, next, pure,
}
use opencode_workspaces.Server.Hides.{
  Any, After, IsDiscreet, Hides, Hides-pure, Hides-Any, Hides-answer, Hides-call, Hides-bind,
  Hides-then, Hides-call_or, Hides-call_ignoring, Hides-ensure, HidesView, branding-Hides,
  view_data-Hides, render_error-Hides,
}
use opencode_workspaces.Server.Pages.{require_user, require_admin, check_csrf}
use opencode_workspaces.Server.SignIn.{
  login_allowed, forget_attempts, require_accepted, setup_get, setup_post, login_form, login_get,
  login_post, logout, oidc_login, oidc_callback,
}
use opencode_workspaces.Server.Account.{
  served, home, stop_workspace, change_password, bootstrap_api, serve_gateway, gateway,
}
use opencode_workspaces.Server.Admin.{
  optional_hash, admin, create_user, update_account, save_branding, save_oidc, act,
  workspace_action,
}
use opencode_workspaces.Server.Patterns.{Route, route}
use opencode_workspaces.Server.Routes.{dispatch, handle, serve, response_of}

ruleset any_rules = (
  Hides-Any, Hides-answer, Hides-then, Hides-call, Hides-call_or, Hides-call_ignoring, Hides-ensure,
)

require_user-Hides : (u : Option User) → Hides Any (require_user u)
require_user-Hides none = Hides-answer _ tt
require_user-Hides (some u) = Hides-Any u

require_admin-Hides : (u : Option User) → Hides Any (require_admin u)
unfolding require_admin
require_admin-Hides u = search (any_rules, require_user-Hides)

module _ ⦃env : Env⦄ ⦃provider : Provider⦄ ⦃web : Web⦄ where
  check_csrf-Hides : (s : Server) (r : Request) → Hides Any (check_csrf s r)
  unfolding check_csrf
  check_csrf-Hides s r = search any_rules

  setup_get-Hides : (r : Request) (u : Option User) → Hides IsDiscreet (setup_get r u)
  unfolding setup_get
  setup_get-Hides r u = Hides-then _ _ (search any_rules) λ n.
      Hides-then _ _ (search any_rules)
        λ _. Hides-bind HidesView _ _ (view_data-Hides r u) (λ v h. Hides-pure _ h)

  setup_post-Hides :
      (s : Server) (r : Request) (u : Option User) → Hides IsDiscreet (setup_post s r u)
  unfolding setup_post
  setup_post-Hides s r u =
      search (Hides-then, Hides-ensure, Hides-call_or, Hides-answer, render_error-Hides, Hides-pure)
        depth 14

  login_form-Hides : (r : Request) (u : Option User) → Hides IsDiscreet (login_form r u)
  login_form-Hides r none =
      Hides-bind HidesView _ _ (view_data-Hides r none) (λ v h. Hides-pure _ h)
  login_form-Hides r (some u) = Hides-pure _ tt

  login_get-Hides : (r : Request) (u : Option User) → Hides IsDiscreet (login_get r u)
  unfolding login_get
  login_get-Hides r u = search (any_rules, login_form-Hides)

  login_allowed-Hides : (k : String) → Hides Any (login_allowed k)
  unfolding login_allowed
  login_allowed-Hides k = record { at = λ s. tt }

  forget_attempts-Hides : (k : String) → Hides Any (forget_attempts k)
  unfolding forget_attempts
  forget_attempts-Hides k = record { at = λ s. tt }

  require_accepted-Hides : (r : Request) (u o : Option User) → Hides Any (require_accepted r u o)
  require_accepted-Hides r u none = render_error-Hides r u _ _
  require_accepted-Hides r u (some user) = Hides-Any user

  login_post-Hides :
      (s : Server) (r : Request) (u : Option User) → Hides IsDiscreet (login_post s r u)
  unfolding login_post
  login_post-Hides s r u =
      search
        (
          Hides-then, Hides-ensure, Hides-call, Hides-call_or, Hides-answer, Hides-pure,
          login_allowed-Hides, forget_attempts-Hides, require_accepted-Hides,
        )
        depth 14

  ruleset plain_rules = (
    Hides-then, Hides-ensure, Hides-call, Hides-call_or, Hides-call_ignoring, Hides-answer,
    Hides-pure, require_user-Hides, require_admin-Hides, check_csrf-Hides,
  )

  logout-Hides : (s : Server) (r : Request) → Hides IsDiscreet (logout s r)
  unfolding logout
  logout-Hides s r = search plain_rules

  oidc_login-Hides : (s : Server) → Hides IsDiscreet (oidc_login s)
  unfolding oidc_login
  oidc_login-Hides s = search plain_rules

  oidc_callback-Hides : (s : Server) (r : Request) → Hides IsDiscreet (oidc_callback s r)
  unfolding oidc_callback
  oidc_callback-Hides s r = search plain_rules

  bootstrap_api-Hides : (u : Option User) → Hides IsDiscreet (bootstrap_api u)
  unfolding bootstrap_api
  bootstrap_api-Hides u = search (plain_rules, branding-Hides)

  home-Hides : (r : Request) (u : Option User) → Hides IsDiscreet (home r u)
  unfolding home
  home-Hides r u = Hides-then _ _ (require_user-Hides u) λ user.
      Hides-bind HidesView _ _ (view_data-Hides r u) λ v h.
        Hides-then _ _ (search any_rules) λ local.
          Hides-then _ _ (search any_rules)
            λ w. Hides-then _ _ (search any_rules) (λ state. Hides-pure _ h)

  admin-Hides : (s : Server) (r : Request) (u : Option User) → Hides IsDiscreet (admin s r u)
  unfolding admin
  admin-Hides s r u = Hides-then _ _ (require_admin-Hides u) λ user.
      Hides-bind HidesView _ _ (view_data-Hides r u) λ v h.
        Hides-then _ _ (search any_rules) λ users. Hides-then _ _ (search any_rules) λ ws.
          Hides-then _ _ (search any_rules)
            λ states. Hides-then _ _ (search any_rules) (λ events. Hides-pure _ h)

  stop_workspace-Hides :
      (s : Server) (r : Request) (u : Option User) → Hides IsDiscreet (stop_workspace s r u)
  unfolding stop_workspace
  stop_workspace-Hides s r u = search plain_rules

  change_password-Hides :
      (s : Server) (r : Request) (u : Option User) → Hides IsDiscreet (change_password s r u)
  unfolding change_password
  change_password-Hides s r u = search plain_rules depth 14

  create_user-Hides :
      (s : Server) (r : Request) (u : Option User) → Hides IsDiscreet (create_user s r u)
  unfolding create_user
  create_user-Hides s r u = search plain_rules depth 14

  optional_hash-Hides : (p : String) → Hides Any (optional_hash p)
  unfolding optional_hash
  optional_hash-Hides p = elim (Bool-cases (p == "")) [
    | inl empty ↦ rw empty (Hides-Any "")
    | inr filled ↦ rw filled (search any_rules)
  ]

  update_account-Hides :
      (s : Server) (r : Request) (u : Option User) (id : String)
      → Hides IsDiscreet (update_account s r u id)
  unfolding update_account
  update_account-Hides s r u id = search (plain_rules, optional_hash-Hides) depth 14

  save_branding-Hides :
      (s : Server) (r : Request) (u : Option User) → Hides IsDiscreet (save_branding s r u)
  unfolding save_branding
  save_branding-Hides s r u = search plain_rules depth 14

  save_oidc-Hides :
      (s : Server) (r : Request) (u : Option User) → Hides IsDiscreet (save_oidc s r u)
  unfolding save_oidc
  save_oidc-Hides s r u = search plain_rules depth 14

  act-Hides : (o : Option (M (Unit {0}))) → Hides IsDiscreet (act o)
  act-Hides none = Hides-pure _ tt
  act-Hides (some m) = search plain_rules

  workspace_action-Hides :
      (s : Server) (r : Request) (u : Option User) (id action : String)
      → Hides IsDiscreet (workspace_action s r u id action)
  unfolding workspace_action
  workspace_action-Hides s r u id action = search (plain_rules, act-Hides)

-- The gateway's answer to nobody, which is no page.
to_login-After :
    (b : Bool) (location message : String) (site : Site)
    → After IsDiscreet
        ((if b then pure (redirect_to 302 location) else pure (bare (text 401 message))) site).0
to_login-After true location message site = tt
to_login-After false location message site = tt

module _ ⦃env : Env⦄ ⦃provider : Provider⦄ ⦃web : Web⦄ ⦃net : Net⦄ where
  served-After :
      (site : Site) (r : Result (Proxy.Reply × Gateway) × World)
      → After IsDiscreet (served site r).0
  served-After site (ok (reply, g), w) = tt
  served-After site (err e, w) = tt

  gateway-Hides :
      (s : Server) (r : Request) (h : Headers) (u : Option User)
      → Hides IsDiscreet (gateway s r h u)
  unfolding gateway serve_gateway
  gateway-Hides s r h none = record { at = λ site. to_login-After _ _ _ site }
  gateway-Hides s r h (some user) = record { at = λ site. served-After site _ }

  ruleset handler_rules = (
    Hides-pure, setup_get-Hides, setup_post-Hides, login_get-Hides, login_post-Hides, logout-Hides,
    oidc_login-Hides, oidc_callback-Hides, bootstrap_api-Hides, home-Hides, stop_workspace-Hides,
    admin-Hides, create_user-Hides, update_account-Hides, change_password-Hides,
    save_branding-Hides, save_oidc-Hides, workspace_action-Hides, gateway-Hides,
  )

  dispatch-Hides :
      (s : Server) (r : Request) (h : Headers) (u : Option User) (to : Route)
      → Hides IsDiscreet (dispatch s r h u to)
  unfolding dispatch
  dispatch-Hides s r h u Route.readyz = search plain_rules
  dispatch-Hides s r h u _ = search handler_rules

  handle-Hides : (s : Server) (r : Request) (h : Headers) → Hides IsDiscreet (handle s r h)
  unfolding handle
  handle-Hides s r h =
      Hides-then _ _ (Hides-call_ignoring none _) (λ u. dispatch-Hides s r h u (route r))

  After-response : (o : Outcome Response) → After IsDiscreet o → IsDiscreet (response_of o)
  After-response (answered r) h = h
  After-response (next r) h = h

  -- Whatever the request, by whomever and with whatever failures: if the answer is a page, its data
  -- has no client secret of the OIDC login.
  pub serve-IsDiscreet :
      (s : Server) (r : Request) (h : Headers) (site : Site)
      → IsDiscreet (serve s r h site).0.response
  unfolding serve
  serve-IsDiscreet s r h site = After-response (handle s r h site).0 ((handle-Hides s r h).at site)
