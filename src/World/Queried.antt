-- ===== src/World/Queried.antt =====
-- Rules for what follows a read, and for a postcondition beside an invariant.
use opencode_workspaces.Prelude.{◌≡◌, refl}
use opencode_workspaces.Env.{Env}
use opencode_workspaces.Tables.{Tables}
use opencode_workspaces.World.{Result, ok, err, World, M, continue, ◌>>=◌, statement, query}
use opencode_workspaces.World.Keeps.{Post, Ensures, Keeps, Keeps-statement}

module _ {A B : Type 0} (P : Tables → Type 0) where
  read_then-Keeps :
      (r : Result A) (w : World) (k : A → M B)
      → P w.tables
      → ((a : A) → r ≡ ok a → P (k a w).1.tables)
      → P (continue r k w).1.tables
  read_then-Keeps (ok a) w k p h = h a refl
  read_then-Keeps (err e) w k p h = p

  queried-Keeps :
      (s : Result (Unit {0})) (w : World) (f : Tables → Result A) (k : A → M B)
      → P w.tables
      → ((v : World) (a : A) → P v.tables → f v.tables ≡ ok a → P (k a v).1.tables)
      → P
          (continue
            (continue s (λ _ v. (f v.tables, v)) w).0
            k
            (continue s (λ _ v. (f v.tables, v)) w).1).1.tables
  queried-Keeps (ok u) w f k p h = read_then-Keeps (f w.tables) w k p (λ a e. h w a p e)
  queried-Keeps (err e) w f k p h = p

-- What follows a read may use what it has read.
pub Keeps-query_bind :
    ⦃env : Env⦄ {A B : Type 0} {P : Tables → Type 0} (f : Tables → Result A) (k : A → M B)
    → ((v : World) (a : A) → P v.tables → f v.tables ≡ ok a → P (k a v).1.tables)
    → Keeps P (query f >>= k)
unfolding query ◌>>=◌
Keeps-query_bind {P = P} f k h = record {
  at = λ w p.
      queried-Keeps P (statement w).0 (statement w).1 f k ((Keeps-statement {P = P}).at w p) h;
}

module _ {A : Type 0} where
  both-Post :
      (Q : A → Tables → Type 0) (R : Tables → Type 0) (r : Result A × World)
      → Post Q r
      → R r.1.tables
      → Post (λ a t. Q a t × R t) r
  both-Post Q R (ok a, w) q p = (q, p)
  both-Post Q R (err e, w) q p = tt

  -- A postcondition and an invariant together.
  pub Ensures-and :
      {P : Tables → Type 0} (Q : A → Tables → Type 0) (R : Tables → Type 0) (m : M A)
      → Ensures P m Q
      → Keeps R m
      → Ensures (λ t. P t × R t) m (λ a t. Q a t × R t)
  Ensures-and Q R m h k = record { at = λ w p. both-Post Q R (m w) (h.at w p.0) (k.at w p.1) }

weaken-Post :
    {A : Type 0} (Q R : A → Tables → Type 0) (r : Result A × World)
    → ((a : A) (t : Tables) → Q a t → R a t)
    → Post Q r
    → Post R r
weaken-Post Q R (ok a, w) f q = f a w.tables q
weaken-Post Q R (err e, w) f q = tt

pub Ensures-weaken :
    {A : Type 0} {P : Tables → Type 0} (Q R : A → Tables → Type 0) (m : M A)
    → Ensures P m Q
    → ((a : A) (t : Tables) → Q a t → R a t)
    → Ensures P m R
Ensures-weaken Q R m h f = record { at = λ w p. weaken-Post Q R (m w) f (h.at w p) }
