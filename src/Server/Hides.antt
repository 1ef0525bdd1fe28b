-- ===== src/Server/Hides.antt =====
-- Handlers whose pages leave the field of the client secret empty, one rule for each way to build one.
use opencode_workspaces.Prelude.{◌≡◌, refl, String, Bool, true, false, Option, none}
use opencode_workspaces.Model.{User}
use opencode_workspaces.Env.{Env}
use opencode_workspaces.Http.{Request}
use opencode_workspaces.World.{Error, Result, ok, err, M}
use opencode_workspaces.Oidc.Flows.{Provider}
use opencode_workspaces.Server.{
  ViewData, Body, page, text, redirect, bootstrap, static_file, from_gateway, Response, Web, Site,
  Outcome, answered, next, Handler, pure, answer, go_on, ◌>>=◌, call, on_error, call_or,
  call_ignoring, ensure, value_or,
}
use opencode_workspaces.Server.Pages.{branding, view_data, render_error}

abbrev pub HidesBody : Body → Type 0
HidesBody (page name v) = v.oidc.client_secret ≡ ""
HidesBody (text status message) = Unit
HidesBody (redirect status location) = Unit
HidesBody (bootstrap u b) = Unit
HidesBody (static_file path) = Unit
HidesBody (from_gateway r) = Unit

-- If the answer is a page, its data has no client secret.
abbrev pub IsDiscreet : Response → Type 0
IsDiscreet r = HidesBody r.body

abbrev pub After : {A : Type 0} → (A → Type 0) → Outcome A → Type 0
After R (answered r) = IsDiscreet r
After R (next a) = R a

abbrev pub Any : {A : Type 0} → A → Type 0
Any a = Unit

-- The handler answers without the secret, or goes on with a value that has the property.
pub record Hides {A : Type 0} (R : A → Type 0) (h : Handler A) : Type 0 where
  pub at : (s : Site) → After R (h s).0

module _ {A : Type 0} where
  pub Hides-pure : {R : A → Type 0} (a : A) → R a → Hides R (pure a)
  Hides-pure a r = record { at = λ s. r }

  pub Hides-Any : (a : A) → Hides Any (pure a)
  Hides-Any a = record { at = λ s. tt }

  pub Hides-answer : {R : A → Type 0} (r : Response) → IsDiscreet r → Hides R (answer r)
  Hides-answer r h = record { at = λ s. h }

  pub Hides-call : (m : M A) → Hides Any (call m)
  unfolding call
  Hides-call m = record { at = λ s. tt }

module _ {A B : Type 0} {R : B → Type 0} where
  go_on-Hides :
      (Q : A → Type 0) (o : Outcome A) (s : Site) (f : A → Handler B)
      → After Q o
      → ((a : A) → Q a → Hides R (f a))
      → After R (go_on o f s).0
  go_on-Hides Q (answered r) s f h k = h
  go_on-Hides Q (next a) s f h k = (k a h).at s

  pub Hides-bind :
      (Q : A → Type 0) (h : Handler A) (f : A → Handler B)
      → Hides Q h
      → ((a : A) → Q a → Hides R (f a))
      → Hides R (h >>= f)
  unfolding ◌>>=◌
  Hides-bind Q h f x k = record { at = λ s. go_on-Hides Q (h s).0 (h s).1 f (x.at s) k }

  pub Hides-then :
      (h : Handler A) (f : A → Handler B)
      → Hides Any h
      → ((a : A) → Hides R (f a))
      → Hides R (h >>= f)
  Hides-then h f x k = Hides-bind Any h f x (λ a _. k a)

module _ {A : Type 0} where
  on_error-Hides :
      (bad : Error → Handler A) (r : Result A)
      → ((e : Error) → Hides Any (bad e))
      → Hides Any (on_error bad r)
  on_error-Hides bad (ok a) k = Hides-Any a
  on_error-Hides bad (err e) k = k e

  pub Hides-call_or :
      (m : M A) (bad : Error → Handler A)
      → ((e : Error) → Hides Any (bad e))
      → Hides Any (call_or m bad)
  unfolding call_or
  Hides-call_or m bad k = Hides-then _ _ (Hides-call m) (λ r. on_error-Hides bad r k)

  pub Hides-call_ignoring : (a : A) (m : M A) → Hides Any (call_ignoring a m)
  unfolding call_ignoring
  Hides-call_ignoring a m = Hides-then _ _ (Hides-call m) (λ r. Hides-Any (value_or a r))

pub Hides-ensure : (b : Bool) (bad : Handler (Unit {0})) → Hides Any bad → Hides Any (ensure b bad)
unfolding ensure
Hides-ensure true bad h = record { at = λ s. tt }
Hides-ensure false bad h = record { at = h.at }

abbrev pub HidesView : ViewData → Type 0
HidesView v = v.oidc.client_secret ≡ ""

module _ ⦃env : Env⦄ ⦃provider : Provider⦄ ⦃web : Web⦄ where
  pub branding-Hides : Hides Any branding
  unfolding branding
  branding-Hides = Hides-then _ _ (Hides-call_ignoring none _) (λ d. Hides-Any _)

  pub view_data-Hides : (r : Request) (u : Option User) → Hides HidesView (view_data r u)
  unfolding view_data
  view_data-Hides r u =
      Hides-then _ _ (Hides-call_ignoring _ _)
        (λ s. Hides-then _ _ branding-Hides (λ b. Hides-pure _ refl))

  pub render_error-Hides :
      {A : Type 0} {R : A → Type 0} (r : Request) (u : Option User) (n m : String)
      → Hides R (render_error {A = A} r u n m)
  unfolding render_error
  render_error-Hides r u n m =
      Hides-bind HidesView _ _ (view_data-Hides r u) (λ v h. Hides-answer _ h)
