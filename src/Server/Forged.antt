-- ===== src/Server/Forged.antt =====
-- Requests of the forms for signed-in accounts that have no valid CSRF token, as those have which a page
-- of another site sends.
use opencode_workspaces.Prelude.{◌≡◌, ◌≢◌, refl, Bool, true, false, Option, none, some, arith}
use opencode_workspaces.Model.{User, is_admin}
use opencode_workspaces.Env.{Env}
use opencode_workspaces.Http.{Request}
use opencode_workspaces.World.{Result, ok, err}
use opencode_workspaces.Auth.Sessions
use opencode_workspaces.Auth.Sessions.Untouched.{Rest, csrf_valid-Rest, csrf_valid-cluster}
use opencode_workspaces.Oidc.Flows.{Provider}
use opencode_workspaces.Proxy.{Net, Headers}
use opencode_workspaces.Server.{
  Server, text, Response, bare, Web, Site, Outcome, answered, next, Handler, answer, go_on, ◌>>=◌,
  call, call_ignoring, ensure, value_or,
}
use opencode_workspaces.Server.Pages.{require_user, require_admin, check_csrf}
use opencode_workspaces.Server.SignIn.{logout}
use opencode_workspaces.Server.Account.{stop_workspace, change_password}
use opencode_workspaces.Server.Admin.{
  create_user, update_account, save_branding, save_oidc, workspace_action,
}
use opencode_workspaces.Server.Patterns.{Route}
use opencode_workspaces.Server.Routes.{dispatch}
use opencode_workspaces.Server.Guards.{is_form_route}

-- The request has been answered, and nothing has changed but when sessions were last seen.
pub record IsStopped (site : Site) (r : Outcome Response × Site) : Type 0 where
  pub response : Response
  pub outcome : r.0 ≡ answered response
  pub tables : Rest site.world.tables r.1.world.tables
  pub cluster : r.1.world.cluster ≡ site.world.cluster
  pub attempts : r.1.attempts ≡ site.attempts
  pub gateway : r.1.gateway ≡ site.gateway

-- A step that stops the request, or goes on with the state as it was.
data Passes {A : Type 0} (site : Site) : Outcome A × Site → Type 0 where
  stops : (r : Response) → Passes site (answered r, site)
  passes : (a : A) → Passes site (next a, site)

require_user-Passes : (u : Option User) (site : Site) → Passes site (require_user u site)
require_user-Passes none site = stops _
require_user-Passes (some u) site = passes u

module _ {A B : Type 0} where
  Passes-go_on :
      (site : Site) (r : Outcome A × Site) (f : A → Handler B)
      → Passes site r
      → ((a : A) → Passes site (f a site))
      → Passes site (go_on r.0 f r.1)
  Passes-go_on site _ f (stops r) k = stops r
  Passes-go_on site _ f (passes a) k = k a

ensure-Passes : (b : Bool) (r : Response) (site : Site) → Passes site (ensure b (answer r) site)
unfolding ensure
ensure-Passes true r site = passes tt
ensure-Passes false r site = stops r

require_admin-Passes : (u : Option User) (site : Site) → Passes site (require_admin u site)
unfolding require_admin ◌>>=◌
require_admin-Passes u site =
    Passes-go_on site _ _ (require_user-Passes u site)
      λ user. Passes-go_on site _ _ (ensure-Passes (is_admin user) _ site) (λ _. passes user)

IsStopped-go_on :
    {A : Type 0} (site : Site) (r : Outcome A × Site) (f : A → Handler Response)
    → Passes site r
    → ((a : A) → IsStopped site (f a site))
    → IsStopped site (go_on r.0 f r.1)
IsStopped-go_on site _ f (stops r) k = record {
  response = r;
  outcome = refl;
  tables = (refl, refl);
  cluster = refl;
  attempts = refl;
  gateway = refl;
}
IsStopped-go_on site _ f (passes a) k = k a

value_or-false : (r : Result Bool) → r ≢ ok true → value_or false r ≡ false
value_or-false (ok true) h = absurd (h refl)
value_or-false (ok false) h = refl
value_or-false (err e) h = refl

module _ ⦃env : Env⦄ ⦃provider : Provider⦄ ⦃web : Web⦄ ⦃net : Net⦄ where
  check_csrf-IsStopped :
      (s : Server) (r : Request) (site : Site) (f : Unit {0} → Handler Response)
      → (Sessions.csrf_valid s.auth r site.world).0 ≢ ok true
      → IsStopped site ((check_csrf s r >>= f) site)
  unfolding check_csrf call_ignoring call ensure ◌>>=◌
  check_csrf-IsStopped s r site f h =
      rw (value_or-false (Sessions.csrf_valid s.auth r site.world).0 h) (record {
        response = bare (text 403 "invalid CSRF token");
        outcome = refl;
        tables = csrf_valid-Rest s.auth r site.world;
        cluster = csrf_valid-cluster s.auth r site.world;
        attempts = refl;
        gateway = refl;
      })

  logout-IsStopped :
      (s : Server) (r : Request) (site : Site)
      → (Sessions.csrf_valid s.auth r site.world).0 ≢ ok true
      → IsStopped site (logout s r site)
  unfolding logout call_ignoring call ensure ◌>>=◌
  logout-IsStopped s r site h =
      rw (value_or-false (Sessions.csrf_valid s.auth r site.world).0 h) (record {
        response = bare (text 403 "invalid CSRF token");
        outcome = refl;
        tables = csrf_valid-Rest s.auth r site.world;
        cluster = csrf_valid-cluster s.auth r site.world;
        attempts = refl;
        gateway = refl;
      })

  -- A handler whose second step is the check of the token.
  guarded-IsStopped :
      {A : Type 0} (s : Server) (r : Request) (site : Site) (first : Handler A)
      (rest : A → Unit {0} → Handler Response)
      → Passes site (first site)
      → (Sessions.csrf_valid s.auth r site.world).0 ≢ ok true
      → IsStopped site ((first >>= λ a. check_csrf s r >>= rest a) site)
  guarded-IsStopped s r site first rest p h =
      unfold ◌>>=◌ in
      IsStopped-go_on site (first site) _ p (λ a. check_csrf-IsStopped s r site (rest a) h)

  -- A request of one of these forms, with no valid CSRF token, is answered before it has done
  -- anything: logout, the stop of the own workspace, the change of the own password, and the forms of
  -- administrators for new and existing accounts, branding, OIDC and workspaces. Of all the state,
  -- only the times at which sessions were last seen may change.
  pub forged_request_stops :
      (s : Server) (r : Request) (h : Headers) (u : Option User) (to : Route) (site : Site)
      → is_form_route to ≡ true
      → (Sessions.csrf_valid s.auth r site.world).0 ≢ ok true
      → IsStopped site (dispatch s r h u to site)
  unfolding dispatch stop_workspace change_password create_user update_account save_branding
      save_oidc workspace_action
  forged_request_stops s r h u Route.logout site g n = logout-IsStopped s r site n
  forged_request_stops s r h u Route.stop_workspace site g n =
      guarded-IsStopped s r site _ _ (require_user-Passes u site) n
  forged_request_stops s r h u Route.change_password site g n =
      guarded-IsStopped s r site _ _ (require_user-Passes u site) n
  forged_request_stops s r h u Route.create_user site g n =
      guarded-IsStopped s r site _ _ (require_admin-Passes u site) n
  forged_request_stops s r h u (Route.update_user id) site g n =
      guarded-IsStopped s r site _ _ (require_admin-Passes u site) n
  forged_request_stops s r h u Route.save_branding site g n =
      guarded-IsStopped s r site _ _ (require_admin-Passes u site) n
  forged_request_stops s r h u Route.save_oidc site g n =
      guarded-IsStopped s r site _ _ (require_admin-Passes u site) n
  forged_request_stops s r h u (Route.workspace_action id action) site g n =
      guarded-IsStopped s r site _ _ (require_admin-Passes u site) n
  forged_request_stops s r h u _ site g n = absurd (ground arith)
