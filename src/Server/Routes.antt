-- ===== src/Server/Routes.antt =====
-- The whole server: Handler and securityHeaders of internal/httpserver/server.go, and Middleware of
-- internal/auth/auth.go, which finds the account of a request.
use opencode_workspaces.Prelude.{String, Option, none, [], ◌∷◌, string_eq, if◌then◌else◌}
use opencode_workspaces.Prelude.Strings.{◌<>◌, has_prefix}
use opencode_workspaces.Model.{User}
use opencode_workspaces.Env.{Env}
use opencode_workspaces.Http.{Request}
use opencode_workspaces.World.{statement}
use opencode_workspaces.Auth.Sessions
use opencode_workspaces.Oidc.Flows.{Provider}
use opencode_workspaces.Proxy.{Net, Headers}
use opencode_workspaces.Server.{
  Server, text, static_file, Response, bare, redirect_to, Web, Handler, Site, Outcome, next,
  answered, pure, answer, ◌>>=◌, ◌>>◌, call_or, call_ignoring,
}
use opencode_workspaces.Server.Patterns.{Route, route}
use opencode_workspaces.Server.SignIn.{
  setup_get, setup_post, login_get, login_post, logout, oidc_login, oidc_callback,
}
use opencode_workspaces.Server.Account.{
  home, stop_workspace, change_password, bootstrap_api, gateway,
}
use opencode_workspaces.Server.Admin.{
  admin, create_user, update_account, save_branding, save_oidc, workspace_action,
}

unfoldable pub security_headers : String → Headers
security_headers path =
    let shared : Headers =
      ("X-Content-Type-Options", "nosniff")
      ∷ ("X-Frame-Options", "DENY")
      ∷ ("Referrer-Policy", "same-origin")
      ∷ ("Permissions-Policy", "camera=(), microphone=(), geolocation=()")
      ∷ [] in
    if has_prefix path "/platform/"
    then (
      "Content-Security-Policy",
      "default-src 'self'; img-src 'self' https: data:; style-src 'self' 'unsafe-inline'; form-action 'self'; frame-ancestors 'none'",
    )
      ∷ shared
    else shared

-- What a client gets.
pub record Reply : Type 0 where
  pub headers : Headers
  pub response : Response

abbrev pub response_of : Outcome Response → Response
response_of (answered r) = r
response_of (next r) = r

module _ ⦃env : Env⦄ ⦃provider : Provider⦄ ⦃web : Web⦄ ⦃net : Net⦄ where
  -- The handler of a pattern, for a request with its headers and the account of its session.
  unfoldable pub dispatch : Server → Request → Headers → Option User → Route → Handler Response
  dispatch s r h u (Route.static path) = pure (bare (static_file path))
  dispatch s r h u (Route.subtree path) = pure (redirect_to 301 (path <> "/"))
  dispatch s r h u Route.healthz = pure (bare (text 200 "ok"))
  dispatch s r h u Route.readyz = do
    call_or statement (λ e. answer (bare (text 503 "database unavailable")))
    pure (bare (text 200 "ready"))
  dispatch s r h u Route.setup_form = setup_get r u
  dispatch s r h u Route.setup = setup_post s r u
  dispatch s r h u Route.login_form = login_get r u
  dispatch s r h u Route.login = login_post s r u
  dispatch s r h u Route.logout = logout s r
  dispatch s r h u Route.oidc_login = oidc_login s
  dispatch s r h u Route.oidc_callback = oidc_callback s r
  dispatch s r h u Route.bootstrap_document = bootstrap_api u
  dispatch s r h u Route.home = home r u
  dispatch s r h u Route.stop_workspace = stop_workspace s r u
  dispatch s r h u Route.admin_page = admin s r u
  dispatch s r h u Route.create_user = create_user s r u
  dispatch s r h u (Route.update_user id) = update_account s r u id
  dispatch s r h u Route.change_password = change_password s r u
  dispatch s r h u Route.save_branding = save_branding s r u
  dispatch s r h u Route.save_oidc = save_oidc s r u
  dispatch s r h u (Route.workspace_action id action) = workspace_action s r u id action
  dispatch s r h u Route.gateway = gateway s r h u

  -- Middleware and the mux behind it.
  unfoldable pub handle : Server → Request → Headers → Handler Response
  handle s r h = do u ← call_ignoring none (Sessions.user s.auth r); dispatch s r h u (route r)

  -- A request, from the outside: the answer with its headers, and the state after it.
  unfoldable pub serve : Server → Request → Headers → Site → Reply × Site
  serve s r h site =
      let (o, site') = handle s r h site in
      (record { headers = security_headers r.path; response = response_of o }, site')
