-- ===== src/Server/Guards.antt =====
-- Who gets past the guards of the handlers: administrators, and requests with a CSRF token.
use opencode_workspaces.Prelude.{◌≡◌, refl, Bool, true, false, Option, none, some, arith}
use opencode_workspaces.Model.{User, is_admin}
use opencode_workspaces.Env.{Env}
use opencode_workspaces.Http.{Request}
use opencode_workspaces.Oidc.Flows.{Provider}
use opencode_workspaces.Proxy.{Net, Headers}
use opencode_workspaces.Server.{
  Server, text, Response, bare, redirect_to, Web, Site, answered, Handler, ◌>>=◌, ensure,
}
use opencode_workspaces.Server.Pages.{require_admin}
use opencode_workspaces.Server.Admin.{
  admin, create_user, update_account, save_branding, save_oidc, workspace_action,
}
use opencode_workspaces.Server.Patterns.{Route}
use opencode_workspaces.Server.Routes.{dispatch}

-- The patterns of administrators.
abbrev pub is_admin_route : Route → Bool
is_admin_route Route.admin_page = true
is_admin_route Route.create_user = true
is_admin_route (Route.update_user id) = true
is_admin_route Route.save_branding = true
is_admin_route Route.save_oidc = true
is_admin_route (Route.workspace_action id action) = true
is_admin_route _ = false

-- The forms of the pages for signed-in accounts: logout, the stop of the workspace, the change of the
-- password, and those of administrators. The gateway, which writes as well, has no form; setup and the
-- logins are for those who are not signed in.
abbrev pub is_form_route : Route → Bool
is_form_route Route.logout = true
is_form_route Route.stop_workspace = true
is_form_route Route.create_user = true
is_form_route (Route.update_user id) = true
is_form_route Route.change_password = true
is_form_route Route.save_branding = true
is_form_route Route.save_oidc = true
is_form_route (Route.workspace_action id action) = true
is_form_route _ = false

abbrev pub is_administrator : Option User → Bool
is_administrator none = false
is_administrator (some u) = is_admin u

-- What a request without the rights of an administrator gets.
abbrev pub refusal : Option User → Response
refusal none = redirect_to 302 "/platform/login"
refusal (some u) = bare (text 403 "forbidden")

-- A handler whose first step has answered.
pub bind_answered :
    {A B : Type 0} (h : Handler A) (f : A → Handler B) (s s' : Site) (r : Response)
    → h s ≡ (answered r, s')
    → (h >>= f) s ≡ (answered r, s')
unfolding ◌>>=◌
bind_answered h f s s' r e = rw e refl

pub require_admin-refuses :
    (u : Option User) (s : Site)
    → is_administrator u ≡ false
    → require_admin u s ≡ (answered (refusal u), s)
unfolding require_admin ◌>>=◌ ensure
require_admin-refuses none s h = refl
require_admin-refuses (some u) s h = rw h refl

module _ ⦃env : Env⦄ ⦃provider : Provider⦄ ⦃web : Web⦄ ⦃net : Net⦄ where
  -- A request for a page or an action of administrators, by nobody or by another account, is
  -- redirected to the login or refused, and changes nothing at all.
  pub admin_routes_refuse :
      (s : Server) (r : Request) (h : Headers) (u : Option User) (to : Route) (site : Site)
      → is_admin_route to ≡ true
      → is_administrator u ≡ false
      → dispatch s r h u to site ≡ (answered (refusal u), site)
  unfolding dispatch admin create_user update_account save_branding save_oidc workspace_action
  admin_routes_refuse s r h u Route.admin_page site g n =
      bind_answered _ _ site site (refusal u) (require_admin-refuses u site n)
  admin_routes_refuse s r h u Route.create_user site g n =
      bind_answered _ _ site site (refusal u) (require_admin-refuses u site n)
  admin_routes_refuse s r h u (Route.update_user id) site g n =
      bind_answered _ _ site site (refusal u) (require_admin-refuses u site n)
  admin_routes_refuse s r h u Route.save_branding site g n =
      bind_answered _ _ site site (refusal u) (require_admin-refuses u site n)
  admin_routes_refuse s r h u Route.save_oidc site g n =
      bind_answered _ _ site site (refusal u) (require_admin-refuses u site n)
  admin_routes_refuse s r h u (Route.workspace_action id action) site g n =
      bind_answered _ _ site site (refusal u) (require_admin-refuses u site n)
  admin_routes_refuse s r h u _ site g n = absurd (ground arith)
