-- ===== src/Proxy/Preserved.antt =====
-- Invariants of the tables under the gateway.
use opencode_workspaces.Prelude.{ℕ, String, Option, none, some, not, ◌||◌, Bool-cases, inl, inr}
use opencode_workspaces.Model.{User, Workspace}
use opencode_workspaces.Env.{Env}
use opencode_workspaces.Http.{Request}
use opencode_workspaces.Tables.{Tables}
use opencode_workspaces.World.{Result, ok, err}
use opencode_workspaces.World.Keeps.{
  Keeps, Keeps-bind, Keeps-attempt, Keeps-pure, Keeps-if, Keeps-now, Keeps-require,
}
use opencode_workspaces.Database.Preserved.{Preserved, workspace-Keeps, touch_workspace-Keeps}
use opencode_workspaces.Kube.Objects.{Controller}
use opencode_workspaces.Kube.Status.{lookup}
use opencode_workspaces.Kube.Preserved.{backend-Keeps, start-Keeps}
use opencode_workspaces.Proxy.{
  Net, Headers, Backend, Gateway, cached_backend, gateway_backend, touch_at, touch, to_backend,
  serve_running, serve_started, serve_workspace, serve, forget_backend, exchange, directed,
  outgoing,
}

module _ ⦃env : Env⦄ ⦃net : Net⦄ {P : Tables → Type 0} (p : Preserved P) where
  cached_backend-Keeps :
      (c : Controller) (g : Gateway) (u : String) (b : Option Backend)
      → Keeps P (cached_backend c g u b)
  cached_backend-Keeps c g u (some b) = Keeps-pure _
  cached_backend-Keeps c g u none =
      Keeps-bind _ _ (backend-Keeps c u)
        (λ r. Keeps-bind _ _ (Keeps-require _ _) (λ _. Keeps-pure _))

  touch_at-Keeps : (t : ℕ) (g : Gateway) (u : String) → Keeps P (touch_at t g u)
  unfolding touch_at
  touch_at-Keeps t g u =
      Keeps-if _ _ _ (Keeps-pure g) (Keeps-bind _ _ (touch_workspace-Keeps p u) (λ _. Keeps-pure _))

  exchange-Keeps :
      (b : Backend) (r : Request) (h : Headers) (u : String) (g : Gateway)
      → Keeps P (exchange b r h u g)
  unfolding exchange
  exchange-Keeps b r h u g = record {
    at = λ w q.
        elim (Bool-cases (
          not (net.is_print (net.upgrade_type (directed b u h)))
          || net.exchange_fails b (outgoing b r.remote_addr u h) w)) [
            | inl broken ↦ rw broken q
            | inr fine ↦ rw fine q
          ];
  }

  to_backend-Keeps :
      (g : Gateway) (r : Request) (h : Headers) (user : User) (b : Result (Backend × Gateway))
      → Keeps P (to_backend g r h user b)
  unfolding touch
  to_backend-Keeps g r h user (err e) = Keeps-pure _
  to_backend-Keeps g r h user (ok (b, g')) =
      Keeps-bind _ _ (Keeps-bind _ _ Keeps-now (λ t. touch_at-Keeps t g' user.id))
        (λ g''. exchange-Keeps b r h user.id g'')

  serve_running-Keeps :
      (c : Controller) (g : Gateway) (r : Request) (h : Headers) (user : User)
      → Keeps P (serve_running c g r h user)
  unfolding serve_running gateway_backend
  serve_running-Keeps c g r h user =
      Keeps-attempt _ _ (cached_backend-Keeps c g user.id (lookup user.id g.backends))
        (to_backend-Keeps g r h user)

  serve_started-Keeps :
      (c : Controller) (g : Gateway) (r : Request) (h : Headers) (user : User)
      (s : Result (Unit {0}))
      → Keeps P (serve_started c g r h user s)
  serve_started-Keeps c g r h user (err e) = Keeps-pure _
  serve_started-Keeps c g r h user (ok u) = serve_running-Keeps c g r h user

  serve_workspace-Keeps :
      (c : Controller) (g : Gateway) (r : Request) (h : Headers) (user : User)
      (s : Result Workspace)
      → Keeps P (serve_workspace c g r h user s)
  serve_workspace-Keeps c g r h user (err e) = Keeps-pure _
  serve_workspace-Keeps c g r h user (ok s) = Keeps-if _ _ _ (serve_running-Keeps c g r h user) (
      Keeps-attempt _ _ (start-Keeps p c user.id)
        (serve_started-Keeps c (forget_backend user.id g) r h user))

  pub serve-Keeps :
      (c : Controller) (g : Gateway) (r : Request) (h : Headers) (user : User)
      → Keeps P (serve c g r h user)
  unfolding serve
  serve-Keeps c g r h user =
      Keeps-attempt _ _ (workspace-Keeps user.id) (serve_workspace-Keeps c g r h user)
