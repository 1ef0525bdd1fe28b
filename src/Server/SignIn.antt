-- ===== src/Server/SignIn.antt =====
-- The handlers that sign accounts in and out: setup, login, logout and the OIDC login of
-- internal/httpserver/server.go.
pub mod Accepted
use opencode_workspaces.Prelude.{
  ℕ, String, Bool, true, false, not, ◌&&◌, ◌||◌, Option, none, some, List, [], ◌∷◌, ltb, ◌==◌,
  nat_eq, if◌then◌else◌,
}
use opencode_workspaces.Prelude.Strings.{◌<>◌, trim_space}
use opencode_workspaces.Model.{User}
use opencode_workspaces.Env.{Env}
use opencode_workspaces.Http.{Request, Cookie}
use opencode_workspaces.World.{Error, Result, ok, err}
use opencode_workspaces.Auth.Limiter.{allow, login_succeeded}
use opencode_workspaces.Auth.Passwords.{hash_password, verify_password}
use opencode_workspaces.Auth.Sessions
use opencode_workspaces.Database.Users.{
  user_count, bootstrap_admin, authenticate_local, record_login,
}
use opencode_workspaces.Oidc.Flows.{Provider}
use opencode_workspaces.Oidc.Login.{start_login, callback}
use opencode_workspaces.Server.{
  Server, page, text, redirect, Response, bare, error_page, redirect_to, Web, Handler, Site, next,
  pure, answer, ◌>>=◌, ◌>>◌, call, call_or, call_ignoring, ensure,
}
use opencode_workspaces.Server.Pages.{is_username, error_text, view_data, render_error, check_csrf}

-- A redirect with the cookies of a session.
abbrev pub signed_in : String → Sessions.NewSession → Response
signed_in location session = record { body = redirect 303 location; cookies = session.cookies }

-- The key of the limiter for a login.
abbrev pub login_key : ⦃env : Env⦄ → Request → String
login_key ⦃env⦄ r = r.remote_addr <> (":" <> env.to_lower (r.form "username"))

-- Manager.LoginAllowed
unfoldable pub login_allowed : String → Handler Bool
login_allowed key s =
    let (allowed, attempts) = allow s.world.clock key s.attempts in
    (next allowed, record s { attempts = attempts })

unfoldable pub forget_attempts : String → Handler (Unit {0})
forget_attempts key s = (next tt, record s { attempts = login_succeeded key s.attempts })

-- Whether a login is accepted, from what AuthenticateLocal found.
abbrev pub accepted : ⦃env : Env⦄ → String → Result (User × String) → Option User
accepted password (err e) = none
accepted password (ok (u, hash)) =
    if not (verify_password hash password) || u.disabled then none else some u

module _ ⦃env : Env⦄ ⦃provider : Provider⦄ ⦃web : Web⦄ where
  unfoldable pub setup_get : Request → Option User → Handler Response
  setup_get r u = do
    count ← call_or user_count (λ e. answer (error_page 500))
    ensure (not (ltb 0 count)) (answer (redirect_to 303 "/platform/login"))
    view ← view_data r u
    pure (bare (page "setup" view))

  unfoldable pub setup_post : Server → Request → Option User → Handler Response
  setup_post s r u = do
    ensure (web.parses_form r) (answer (error_page 400))
    let username = trim_space (r.form "username")
    ensure (is_username username) (render_error r u "setup" "invalid username")
    hash ←
        call_or (hash_password (r.form "password")) (λ e. render_error r u "setup" (error_text e))
    user ←
        call_or
          (bootstrap_admin username (trim_space (r.form "display_name"))
            (trim_space (r.form "email")) hash)
          (λ e. render_error r u "setup" (error_text e))
    session ← call_or (Sessions.new_session s.auth r user.id) (λ e. answer (error_page 500))
    pure (signed_in "/platform/admin" session)

  abbrev pub login_form : Request → Option User → Handler Response
  login_form r (some user) = pure (redirect_to 303 "/platform/")
  login_form r none = do view ← view_data r none; pure (bare (page "login" view))

  unfoldable pub login_get : Request → Option User → Handler Response
  login_get r u = do
    count ← call_ignoring 0 user_count
    ensure (not (count == 0)) (answer (redirect_to 303 "/platform/setup"))
    login_form r u

  abbrev pub require_accepted : Request → Option User → Option User → Handler User
  require_accepted r u none = render_error r u "login" "invalid username or password"
  require_accepted r u (some user) = pure user

  unfoldable pub login_post : Server → Request → Option User → Handler Response
  login_post s r u = do
    let key = login_key r
    allowed ← login_allowed key
    ensure allowed (answer (bare (text 429 "too many login attempts")))
    found ← call (authenticate_local (r.form "username"))
    user ← require_accepted r u (accepted (r.form "password") found)
    forget_attempts key
    call (record_login user.id)
    session ← call_or (Sessions.new_session s.auth r user.id) (λ e. answer (error_page 500))
    pure (signed_in "/platform/" session)

  unfoldable pub logout : Server → Request → Handler Response
  logout s r = do
    valid ← call_ignoring false (Sessions.csrf_valid s.auth r)
    ensure valid (answer (bare (text 403 "invalid CSRF token")))
    cookies ← call_ignoring [] (Sessions.clear_session s.auth r)
    pure (record { body = redirect 303 "/platform/login"; cookies = cookies })

  -- The login of the provider: a redirect to it, with the cookie of the flow.
  unfoldable pub oidc_login : Server → Handler Response
  oidc_login s = do
    started ← call_or (start_login s.oidc) (λ e. answer (error_page 400))
    pure (record { body = redirect 302 started.location; cookies = started.cookie ∷ [] })

  unfoldable pub oidc_callback : Server → Request → Handler Response
  oidc_callback s r = do
    user ← call_or (callback s.oidc r) (λ e. answer (error_page 401))
    session ← call_or (Sessions.new_session s.auth r user.id) (λ e. answer (error_page 500))
    call (record_login user.id)
    pure (signed_in "/platform/" session)
