-- ===== src/World/Steps.antt =====
-- What a returning action did, step by step, and what a step does where nothing fails.
use opencode_workspaces.Prelude.{
  ℕ, suc, ◌≡◌, refl, sym, ap, ◌∙◌, Bool, true, false, Option, none, some, arith,
}
use opencode_workspaces.Model.{Bytes}
use opencode_workspaces.Env.{Env}
use opencode_workspaces.Tables.{Tables}
use opencode_workspaces.World.Keeps.{ok_injective}
use opencode_workspaces.World.{
  Error, Result, ok, err, World, M, lift, require, or_fail, pure, now, continue, ◌>>=◌, attempt,
  statement, put_result, exec, query, random_bytes, drawn,
}

continue_ok :
    {A B : Type 0} (r : Result A × World) (f : A → M B) (b : B) (w' : World)
    → continue r.0 f r.1 ≡ (ok b, w')
    → (a : A) × (w₁ : World) × (r ≡ (ok a, w₁)) × (f a w₁ ≡ (ok b, w'))
continue_ok (ok a, w) f b w' h = (a, w, refl, h)
continue_ok (err e, w) f b w' h = absurd (ground arith)

pub bind_ok :
    {A B : Type 0} (m : M A) (f : A → M B) (w w' : World) (b : B)
    → (m >>= f) w ≡ (ok b, w')
    → (a : A) × (w₁ : World) × (m w ≡ (ok a, w₁)) × (f a w₁ ≡ (ok b, w'))
unfolding ◌>>=◌
bind_ok m f w w' b h = continue_ok (m w) f b w' h

pub pure_ok : {A : Type 0} (a b : A) (w w' : World) → pure a w ≡ (ok b, w') → (a ≡ b) × (w ≡ w')
pure_ok {A = A} a b w w' h =
    (ok_injective (ap (λ (x : Result A × World). x.0) h), ap (λ (x : Result A × World). x.1) h)

pub now_ok :
    {B : Type 0} (f : ℕ → M B) (w w' : World) (b : B)
    → (now >>= f) w ≡ (ok b, w')
    → f w.clock w ≡ (ok b, w')
unfolding ◌>>=◌
now_ok f w w' b h = h

pub require_ok :
    (b : Bool) (e : Error) (w w' : World) (u : Unit {0})
    → require b e w ≡ (ok u, w')
    → (b ≡ true) × (w ≡ w')
unfolding require
require_ok true e w w' u h = (refl, ap (λ (x : Result (Unit {0}) × World). x.1) h)
require_ok false e w w' u h = absurd (ground arith)

pub or_fail_ok :
    {A : Type 0} (o : Option A) (e : Error) (w w' : World) (a : A)
    → or_fail o e w ≡ (ok a, w')
    → (o ≡ some a) × (w ≡ w')
or_fail_ok none e w w' a h = absurd (ground arith)
or_fail_ok {A = A} (some b) e w w' a h = let (x, y) = pure_ok b a w w' h in (ap some x, y)

pub lift_ok :
    {A : Type 0} (r : Result A) (w w' : World) (a : A)
    → lift r w ≡ (ok a, w')
    → (r ≡ ok a) × (w ≡ w')
lift_ok {A = A} r w w' a h =
    (ap (λ (x : Result A × World). x.0) h, ap (λ (x : Result A × World). x.1) h)

-- The action behind an attempt, begun where the attempt ended.
pub attempt_ok :
    {A B : Type 0} (m : M A) (f : Result A → M B) (w w' : World) (b : B)
    → attempt m f w ≡ (ok b, w')
    → f (m w).0 (m w).1 ≡ (ok b, w')
unfolding attempt
attempt_ok m f w w' b h = h

-- The worlds agree on the tables and the clock.
abbrev pub SameTables : World → World → Type 0
SameTables w w' = (w'.tables ≡ w.tables) × (w'.clock ≡ w.clock)

module _ ⦃env : Env⦄ where
  drawn_ok :
      (o : Option Bytes) (w w' : World) (b : Bytes)
      → drawn o w ≡ (ok b, w')
      → SameTables w w' × (o ≡ some b)
  drawn_ok none w w' b h = absurd (ground arith)
  drawn_ok (some a) w w' b h = ground arith

  pub random_bytes_ok :
      (n : ℕ) (w w' : World) (b : Bytes)
      → random_bytes n w ≡ (ok b, w')
      → SameTables w w' × (env.random_at w.random_drawn n ≡ some b)
  unfolding random_bytes
  random_bytes_ok n w w' b h =
      drawn_ok (env.random_at w.random_drawn n) (record w { random_drawn = suc w.random_drawn }) w'
        b h

  statement_ok : (w w' : World) (u : Unit {0}) → statement w ≡ (ok u, w') → SameTables w w'
  unfolding statement
  statement_ok w w' u h = ground arith

  put_result_ok :
      (r : Result Tables) (w w' : World) (u : Unit {0})
      → put_result w r ≡ (ok u, w')
      → (r ≡ ok w'.tables) × (w'.clock ≡ w.clock)
  put_result_ok (ok t) w w' u h = ground arith
  put_result_ok (err e) w w' u h = absurd (ground arith)

  pub exec_ok :
      (f : Tables → Result Tables) (w w' : World) (u : Unit {0})
      → exec f w ≡ (ok u, w')
      → (f w.tables ≡ ok w'.tables) × (w'.clock ≡ w.clock)
  unfolding exec
  exec_ok f w w' u h =
      let (v, w₁, h₁, h₂) = bind_ok statement (λ _ x. put_result x (f x.tables)) w w' u h in
      let (same, clock) = statement_ok w w₁ v h₁ in
      let (written, clock') = put_result_ok (f w₁.tables) w₁ w' u h₂ in
      (ap f (sym same) ∙ written, clock' ∙ clock)

  pub query_ok :
      {A : Type 0} (f : Tables → Result A) (w w' : World) (a : A)
      → query f w ≡ (ok a, w')
      → (f w.tables ≡ ok a) × SameTables w w'
  unfolding query
  query_ok {A = A} f w w' a h =
      let (v, w₁, h₁, h₂) = bind_ok statement (λ _ x. (f x.tables, x)) w w' a h in
      let (same, clock) = statement_ok w w₁ v h₁ in
      let world : w₁ ≡ w' = ap (λ (x : Result A × World). x.1) h₂ in
      (
        ap f (sym same) ∙ ap (λ (x : Result A × World). x.0) h₂,
        (
          ap (λ (x : World). x.tables) (sym world) ∙ same,
          ap (λ (x : World). x.clock) (sym world) ∙ clock,
        ),
      )

  -- A statement that the environment does not fail.
  pub query_runs :
      {A : Type 0} (f : Tables → Result A) (w : World)
      → env.sql_fails w.sql_calls ≡ false
      → query f w ≡ (f w.tables, record w { sql_calls = suc w.sql_calls })
  unfolding query ◌>>=◌ statement
  query_runs f w h = ground arith
