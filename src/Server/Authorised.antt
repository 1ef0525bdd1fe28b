-- ===== src/Server/Authorised.antt =====
-- The pages and the actions of administrators, from the cookies of a request on to the answer.
use opencode_workspaces.Prelude.{
  ◌≡◌, refl, ap, true, Option, none, some, ◌⊎◌, inl, inr, Bool-cases, arith,
}
use opencode_workspaces.Model.{User, is_admin}
use opencode_workspaces.Env.{Env, BytesLaws}
use opencode_workspaces.Http.{Request}
use opencode_workspaces.World.{Result, ok, err, World}
use opencode_workspaces.Auth.Sessions
use opencode_workspaces.Auth.Sessions.Login.{IsSignedIn, user-IsSignedIn}
use opencode_workspaces.Auth.Sessions.Untouched.{user-Rest, user-cluster}
use opencode_workspaces.Oidc.Flows.{Provider}
use opencode_workspaces.Proxy.{Net, Headers}
use opencode_workspaces.Server.{Server, Web, Site, ◌>>=◌, call, call_ignoring, value_or}
use opencode_workspaces.Server.Patterns.{route}
use opencode_workspaces.Server.Routes.{handle}
use opencode_workspaces.Server.Guards.{
  is_admin_route, is_administrator, refusal, admin_routes_refuse,
}
use opencode_workspaces.Server.Forged.{IsStopped}

module _ ⦃env : Env⦄ where
  -- The request is signed in to an enabled administrator.
  pub record IsByAdmin (m : Sessions.Manager) (r : Request) (w : World) : Type 0 where
    pub account : User
    pub signed_in : IsSignedIn m r w account
    pub enabled : is_admin account ≡ true

  by_administrator :
      (m : Sessions.Manager) (r : Request) (w : World) (o : Result (Option User))
      → BytesLaws env
      → (Sessions.user m r w).0 ≡ o
      → is_administrator (value_or none o) ≡ true
      → IsByAdmin m r w
  by_administrator m r w (ok (some u)) laws h a = record {
    account = u;
    signed_in =
        user-IsSignedIn m r w (Sessions.user m r w).1 u laws
          (ap (λ o. (o, (Sessions.user m r w).1)) h);
    enabled = a;
  }
  by_administrator m r w (ok none) laws h a = absurd (ground arith)
  by_administrator m r w (err e) laws h a = absurd (ground arith)

module _ ⦃env : Env⦄ ⦃provider : Provider⦄ ⦃web : Web⦄ ⦃net : Net⦄ where
  -- A request for a page or an action of administrators comes with the cookie of a live session of an
  -- enabled administrator, or it is answered at once: of all the state, only the times at which
  -- sessions were last seen may change.
  pub admin_routes_ask_for_session :
      (s : Server) (r : Request) (h : Headers) (site : Site)
      → BytesLaws env
      → is_admin_route (route r) ≡ true
      → IsByAdmin s.auth r site.world ⊎ IsStopped site (handle s r h site)
  unfolding handle call_ignoring call ◌>>=◌
  admin_routes_ask_for_session s r h site laws g =
      let w = site.world in
      let u = value_or none (Sessions.user s.auth r w).0 in
      elim (Bool-cases (is_administrator u)) [
        | inl allowed ↦ inl (by_administrator s.auth r w _ laws refl allowed)
        | inr refused ↦ inr (
            rw
              (admin_routes_refuse s r h u (route r)
                (record site { world = (Sessions.user s.auth r w).1 }) g refused)
              (record {
                response = refusal u;
                outcome = refl;
                tables = user-Rest s.auth r w;
                cluster = user-cluster s.auth r w;
                attempts = refl;
                gateway = refl;
              }))
      ]
