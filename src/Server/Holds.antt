-- ===== src/Server/Holds.antt =====
-- Invariants of the tables that a handler keeps, one rule for each way to build one.
use opencode_workspaces.Prelude.{Bool, true, false, if◌then◌else◌}
use opencode_workspaces.Tables.{Tables}
use opencode_workspaces.World.{Error, Result, ok, err, M}
use opencode_workspaces.World.Keeps.{Keeps}
use opencode_workspaces.Server.{
  Response, Site, Outcome, answered, next, Handler, pure, answer, go_on, ◌>>=◌, call, on_error,
  call_or, call_ignoring, ensure, value_or,
}

-- The handler keeps `P`, whether it has answered or goes on.
pub record Holds {A : Type 0} (P : Tables → Type 0) (h : Handler A) : Type 0 where
  pub at : (s : Site) → P s.world.tables → P (h s).1.world.tables

module _ {A : Type 0} {P : Tables → Type 0} where
  pub Holds-pure : (a : A) → Holds P (pure a)
  Holds-pure a = record { at = λ s p. p }

  pub Holds-answer : (r : Response) → Holds P (answer {A = A} r)
  Holds-answer r = record { at = λ s p. p }

  pub Holds-if : (b : Bool) (h k : Handler A) → Holds P h → Holds P k → Holds P (if b then h else k)
  Holds-if true h k x y = x
  Holds-if false h k x y = y

  pub Holds-call : (m : M A) → Keeps P m → Holds P (call m)
  unfolding call
  Holds-call m k = record { at = λ s p. k.at s.world p }

module _ {A B : Type 0} {P : Tables → Type 0} where
  go_on-Holds :
      (o : Outcome A) (s : Site) (f : A → Handler B)
      → P s.world.tables
      → ((a : A) → Holds P (f a))
      → P (go_on o f s).1.world.tables
  go_on-Holds (answered r) s f p k = p
  go_on-Holds (next a) s f p k = (k a).at s p

  pub Holds-bind :
      (h : Handler A) (f : A → Handler B)
      → Holds P h
      → ((a : A) → Holds P (f a))
      → Holds P (h >>= f)
  unfolding ◌>>=◌
  Holds-bind h f x k = record { at = λ s p. go_on-Holds (h s).0 (h s).1 f (x.at s p) k }

module _ {A : Type 0} {P : Tables → Type 0} where
  on_error-Holds :
      (bad : Error → Handler A) (r : Result A)
      → ((e : Error) → Holds P (bad e))
      → Holds P (on_error bad r)
  on_error-Holds bad (ok a) k = Holds-pure a
  on_error-Holds bad (err e) k = k e

  pub Holds-call_or :
      (m : M A) (bad : Error → Handler A)
      → Keeps P m
      → ((e : Error) → Holds P (bad e))
      → Holds P (call_or m bad)
  unfolding call_or
  Holds-call_or m bad k b = Holds-bind _ _ (Holds-call m k) (λ r. on_error-Holds bad r b)

  pub Holds-call_ignoring : (a : A) (m : M A) → Keeps P m → Holds P (call_ignoring a m)
  unfolding call_ignoring
  Holds-call_ignoring a m k = Holds-bind _ _ (Holds-call m k) (λ r. Holds-pure (value_or a r))

pub Holds-ensure :
    {P : Tables → Type 0} (b : Bool) (bad : Handler (Unit {0}))
    → Holds P bad
    → Holds P (ensure b bad)
unfolding ensure
Holds-ensure true bad h = record { at = λ s p. p }
Holds-ensure false bad h = record { at = h.at }

pub ruleset holds_rules = (
  Holds-pure, Holds-answer, Holds-if, Holds-call, Holds-bind, Holds-call_or, Holds-call_ignoring,
  Holds-ensure,
)
