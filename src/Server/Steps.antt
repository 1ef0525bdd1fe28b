-- ===== src/Server/Steps.antt =====
-- What a handler that went on has done, step by step.
use opencode_workspaces.Prelude.{◌≡◌, refl, ap, Bool, true, false, arith}
use opencode_workspaces.World.{Result, M}
use opencode_workspaces.Server.{
  Response, Site, Outcome, answered, next, Handler, answer, go_on, ◌>>=◌, call, ensure,
}

pub next_injective : {A : Type 0} {a b : A} → next a ≡ next b → a ≡ b
next_injective e = cc

go_on_next :
    {A B : Type 0} (r : Outcome A × Site) (f : A → Handler B) (b : B) (s' : Site)
    → go_on r.0 f r.1 ≡ (next b, s')
    → (a : A) × (s₁ : Site) × (r ≡ (next a, s₁)) × (f a s₁ ≡ (next b, s'))
go_on_next (next a, s) f b s' h = (a, s, refl, h)
go_on_next (answered r, s) f b s' h = absurd (ground arith)

pub bind_next :
    {A B : Type 0} (h : Handler A) (f : A → Handler B) (s s' : Site) (b : B)
    → (h >>= f) s ≡ (next b, s')
    → (a : A) × (s₁ : Site) × (h s ≡ (next a, s₁)) × (f a s₁ ≡ (next b, s'))
unfolding ◌>>=◌
bind_next h f s s' b e = go_on_next (h s) f b s' e

pub ensure_next :
    (b : Bool) (bad : Response) (s s' : Site) (u : Unit {0})
    → ensure b (answer bad) s ≡ (next u, s')
    → (b ≡ true) × (s ≡ s')
unfolding ensure
ensure_next true bad s s' u e = (refl, ap (λ (x : Outcome (Unit {0}) × Site). x.1) e)
ensure_next false bad s s' u e = absurd (ground arith)

pub call_next :
    {A : Type 0} (m : M A) (s s' : Site) (r : Result A)
    → call m s ≡ (next r, s')
    → ((m s.world).0 ≡ r) × (record s { world = (m s.world).1 } ≡ s')
unfolding call
call_next {A} m s s' r e = (
  next_injective (ap (λ (x : Outcome (Result A) × Site). x.0) e),
  ap (λ (x : Outcome (Result A) × Site). x.1) e,
)

pub bind_of_next :
    {A B : Type 0} (h : Handler A) (f : A → Handler B) (s s' : Site) (a : A)
    → h s ≡ (next a, s')
    → (h >>= f) s ≡ f a s'
unfolding ◌>>=◌
bind_of_next h f s s' a e = rw e refl
