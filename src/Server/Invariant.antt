-- ===== src/Server/Invariant.antt =====
-- Invariants of the tables under the whole server.
use opencode_workspaces.Prelude.{String, Bool, true, false, Option, none, some, if◌then◌else◌}
use opencode_workspaces.Model.{User}
use opencode_workspaces.Env.{Env}
use opencode_workspaces.Http.{Request}
use opencode_workspaces.Tables.{Tables}
use opencode_workspaces.World.{Result, ok, err, World, M}
use opencode_workspaces.World.Keeps.{Keeps, Keeps-statement}
use opencode_workspaces.Database.Preserved.{Preserved}
use opencode_workspaces.Auth.Sessions.Preserved.{user-Keeps}
use opencode_workspaces.Kube.Objects.{Controller}
use opencode_workspaces.Kube.Preserved.{start-Keeps, stop-Keeps, restart-Keeps, purge-Keeps}
use opencode_workspaces.Oidc.Flows.{Provider}
use opencode_workspaces.Proxy
use opencode_workspaces.Proxy.{Net, Headers, Gateway}
use opencode_workspaces.Proxy.Preserved.{serve-Keeps}
use opencode_workspaces.Server.{Server, Web, Site}
use opencode_workspaces.Server.Holds.{
  Holds, Holds-pure, Holds-answer, Holds-if, Holds-bind, Holds-call_or, Holds-call_ignoring,
}
use opencode_workspaces.Server.Account.{served, serve_gateway, gateway}
use opencode_workspaces.Server.Admin.{action_of, act, workspace_action}
use opencode_workspaces.Server.Patterns.{Route, route}
use opencode_workspaces.Server.Routes.{dispatch, handle, serve}
use opencode_workspaces.Server.Preserved.{
  require_admin-Holds, check_csrf-Holds, setup_get-Holds, setup_post-Holds, login_get-Holds,
  login_post-Holds, logout-Holds, oidc_login-Holds, oidc_callback-Holds, bootstrap_api-Holds,
  home-Holds, stop_workspace-Holds, admin-Holds, create_user-Holds, update_account-Holds,
  change_password-Holds, save_branding-Holds, save_oidc-Holds,
}

-- Every action that there is keeps the property.
pub data AllKeep (P : Tables → Type 0) : Option (M (Unit {0})) → Type 0 where
  no_action : AllKeep P none
  one_action : {m : M (Unit {0})} → Keeps P m → AllKeep P (some m)

module _ ⦃env : Env⦄ ⦃provider : Provider⦄ ⦃web : Web⦄ ⦃net : Net⦄ {P : Tables → Type 0}
    (p : Preserved P) where
  AllKeep-if :
      (b : Bool) (m : M (Unit {0})) (o : Option (M (Unit {0})))
      → Keeps P m
      → AllKeep P o
      → AllKeep P (if b then some m else o)
  AllKeep-if true m o k h = one_action k
  AllKeep-if false m o k h = h

  action_of-AllKeep :
      (c : Controller) (a u action x : String) → AllKeep P (action_of c a u action x)
  unfolding action_of
  action_of-AllKeep c a u action x = AllKeep-if _ _ _ (start-Keeps p c u) (
      AllKeep-if _ _ _ (stop-Keeps p c a u x) (
        AllKeep-if _ _ _ (restart-Keeps p c a u x)
          (AllKeep-if _ _ _ (purge-Keeps p c a u x) no_action)))

  act-Holds : (o : Option (M (Unit {0}))) → AllKeep P o → Holds P (act o)
  act-Holds none h = Holds-pure _
  act-Holds (some m) (one_action k) =
      Holds-bind _ _ (Holds-call_or m _ k (λ e. Holds-answer _)) (λ _. Holds-pure _)

  workspace_action-Holds :
      (s : Server) (r : Request) (u : Option User) (id action : String)
      → Holds P (workspace_action s r u id action)
  unfolding workspace_action
  workspace_action-Holds s r u id action = Holds-bind _ _ (require_admin-Holds u) λ a.
      Holds-bind _ _ (check_csrf-Holds p s r)
        λ _. act-Holds _ (action_of-AllKeep s.controller a.id id action r.remote_addr)

  served-tables :
      (s : Site) (r : Result (Proxy.Reply × Gateway) × World)
      → P r.1.tables
      → P (served s r).1.world.tables
  served-tables s (ok (reply, g), w) q = q
  served-tables s (err e, w) q = q

  serve_gateway-Holds :
      (s : Server) (r : Request) (h : Headers) (user : User) → Holds P (serve_gateway s r h user)
  unfolding serve_gateway
  serve_gateway-Holds s r h user = record {
    at = λ site q.
        served-tables site _ ((serve-Keeps p s.controller site.gateway r h user).at site.world q);
  }

  gateway-Holds :
      (s : Server) (r : Request) (h : Headers) (u : Option User) → Holds P (gateway s r h u)
  unfolding gateway
  gateway-Holds s r h none = Holds-if _ _ _ (Holds-pure _) (Holds-pure _)
  gateway-Holds s r h (some user) = serve_gateway-Holds s r h user

  ruleset handler_rules = (
    Holds-pure, setup_get-Holds, setup_post-Holds, login_get-Holds, login_post-Holds, logout-Holds,
    oidc_login-Holds, oidc_callback-Holds, bootstrap_api-Holds, home-Holds, stop_workspace-Holds,
    admin-Holds, create_user-Holds, update_account-Holds, change_password-Holds,
    save_branding-Holds, save_oidc-Holds, workspace_action-Holds, gateway-Holds,
  )

  dispatch-Holds :
      (s : Server) (r : Request) (h : Headers) (u : Option User) (to : Route)
      → Holds P (dispatch s r h u to)
  unfolding dispatch
  dispatch-Holds s r h u Route.readyz =
      Holds-bind _ _ (Holds-call_or _ _ Keeps-statement (λ e. Holds-answer _)) (λ _. Holds-pure _)
  dispatch-Holds s r h u _ = search handler_rules

  handle-Holds : (s : Server) (r : Request) (h : Headers) → Holds P (handle s r h)
  unfolding handle
  handle-Holds s r h =
      Holds-bind _ _ (Holds-call_ignoring none _ (user-Keeps p s.auth r))
        (λ u. dispatch-Holds s r h u (route r))

  pub serve_preserves :
      (s : Server) (r : Request) (h : Headers) (site : Site)
      → P site.world.tables
      → P (serve s r h site).1.world.tables
  unfolding serve
  serve_preserves s r h site q = (handle-Holds s r h).at site q
