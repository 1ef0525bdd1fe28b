-- ===== src/Server/Refuses.antt =====
-- Handlers that answer early, and what they keep of the tables, one rule for each way to build one.
use opencode_workspaces.Prelude.{◌≡◌, refl, Bool, false}
use opencode_workspaces.Tables.{Tables}
use opencode_workspaces.Server.{
  Response, Site, Outcome, answered, next, Handler, answer, go_on, ◌>>=◌, ensure,
}
use opencode_workspaces.Server.Holds.{Holds}

-- The handler has answered and does not go on, and the tables still have the property.
pub record HasRefused {A : Type 0} (P : Tables → Type 0) (r : Outcome A × Site) : Type 0 where
  pub response : Response
  pub outcome : r.0 ≡ answered response
  pub tables : P r.1.world.tables

pub record Refuses {A : Type 0} (P : Tables → Type 0) (h : Handler A) : Type 0 where
  pub at : (s : Site) → P s.world.tables → HasRefused P (h s)

module _ {A B : Type 0} {P : Tables → Type 0} where
  go_on-HasRefused :
      (o : Outcome A) (s : Site) (f : A → Handler B)
      → P s.world.tables
      → ((a : A) → Refuses P (f a))
      → HasRefused P (go_on o f s)
  go_on-HasRefused (answered r) s f p k = record { response = r; outcome = refl; tables = p }
  go_on-HasRefused (next a) s f p k = (k a).at s p

  -- The first step may answer, and the rest does.
  pub Refuses-after :
      (h : Handler A) (f : A → Handler B)
      → Holds P h
      → ((a : A) → Refuses P (f a))
      → Refuses P (h >>= f)
  unfolding ◌>>=◌
  Refuses-after h f x k = record { at = λ s p. go_on-HasRefused (h s).0 (h s).1 f (x.at s p) k }

pub Refuses-ensure :
    {B : Type 0} {P : Tables → Type 0} (b : Bool) (r : Response) (f : Unit {0} → Handler B)
    → b ≡ false
    → Refuses P (ensure b (answer r) >>= f)
unfolding ensure ◌>>=◌
Refuses-ensure b r f e =
    rw e (record { at = λ s p. record { response = r; outcome = refl; tables = p } })
