-- ===== src/Server/Account.antt =====
-- The handlers of a signed-in account: home, stopWorkspace, changePassword, bootstrapAPI and gateway
-- of internal/httpserver/server.go.
use opencode_workspaces.Prelude.{
  String, Bool, false, ◌&&◌, Option, none, some, ◌==◌, string_eq, if◌then◌else◌,
}
use opencode_workspaces.Prelude.Strings.{◌<>◌}
use opencode_workspaces.Model.{User}
use opencode_workspaces.Env.{Env}
use opencode_workspaces.Http.{Request}
use opencode_workspaces.World.{World, Result, ok, err}
use opencode_workspaces.Auth.Passwords.{hash_password, verify_password}
use opencode_workspaces.Database.Users.{has_local_credential, authenticate_local, update_user}
use opencode_workspaces.Database.Workspaces.{workspace}
use opencode_workspaces.Kube.Status.{status, bare_status}
use opencode_workspaces.Kube.Lifecycle.{stop}
use opencode_workspaces.Oidc.Flows.{Provider}
use opencode_workspaces.Proxy
use opencode_workspaces.Proxy.{Net, Headers, Gateway, Reply}
use opencode_workspaces.Server.{
  Server, page, text, bootstrap, from_gateway, Response, bare, error_page, redirect_to, Web,
  Handler, Site, Outcome, next, answered, pure, answer, ◌>>=◌, ◌>>◌, call, call_or, call_ignoring,
  ensure,
}
use opencode_workspaces.Server.Pages.{no_workspace, branding, view_data, require_user, check_csrf}

-- Whether the current password is the account's, from what AuthenticateLocal found.
abbrev pub is_current : ⦃env : Env⦄ → User → String → Result (User × String) → Bool
is_current user password (err e) = false
is_current user password (ok (current, hash)) =
    current.id == user.id && verify_password hash password

-- What the gateway answers, with the state that it leaves; it answers always.
abbrev pub served : Site → Result (Reply × Gateway) × World → Outcome Response × Site
served s (ok (reply, g), w) =
    (next (bare (from_gateway reply)), record s { world = w; gateway = g })
served s (err e, w) = (answered (error_page 500), record s { world = w })

module _ ⦃env : Env⦄ ⦃provider : Provider⦄ ⦃web : Web⦄ where
  unfoldable pub home : Request → Option User → Handler Response
  home r u = do
    user ← require_user u
    view ← view_data r u
    local ← call_or (has_local_credential user.id) (λ e. answer (error_page 500))
    w ← call_ignoring no_workspace (workspace user.id)
    state ← call_ignoring (bare_status "") (status w)
    pure (
        bare (
          page "home"
            (record view { user = user; has_local_auth = local; workspace = w; status = state })))

  unfoldable pub stop_workspace : Server → Request → Option User → Handler Response
  stop_workspace s r u = do
    user ← require_user u
    check_csrf s r
    call_or (stop s.controller user.id user.id r.remote_addr) (λ e. answer (error_page 500))
    pure (redirect_to 303 "/platform/")

  unfoldable pub change_password : Server → Request → Option User → Handler Response
  change_password s r u = do
    user ← require_user u
    check_csrf s r
    found ← call (authenticate_local user.username)
    ensure (is_current user (r.form "current_password") found) (answer (error_page 403))
    hash ← call_or (hash_password (r.form "new_password")) (λ e. answer (error_page 400))
    call_or
        (update_user user.id user.id user.display_name user.email user.role user.disabled hash
          r.remote_addr)
        (λ e. answer (error_page 500))
    pure (redirect_to 303 "/platform/")

  unfoldable pub bootstrap_api : Option User → Handler Response
  bootstrap_api u = do user ← require_user u; brand ← branding; pure (bare (bootstrap user brand))

  unfoldable pub serve_gateway : ⦃net : Net⦄ → Server → Request → Headers → User → Handler Response
  serve_gateway s r h user site =
      served site (Proxy.serve s.controller site.gateway r h user site.world)

  -- The handler of every other path: a browser is sent to the login.
  unfoldable pub gateway : ⦃net : Net⦄ → Server → Request → Headers → Option User → Handler Response
  gateway s r h (some user) = serve_gateway s r h user
  gateway ⦃net⦄ s r h none =
      if r.method == "GET" && net.contains (r.header "Accept") "text/html"
      then pure (redirect_to 302 ("/platform/login?next=" <> web.query_escape (web.request_uri r)))
      else pure (bare (text 401 "authentication required"))
