-- ===== src/World/Atomic.antt =====
-- Actions that leave the tables alone where they fail, one rule for each way to build one.
use opencode_workspaces.Prelude.{
  suc, ◌≡◌, refl, sym, subst, ◌∙◌, Bool, true, false, arith, if◌then◌else◌,
}
use opencode_workspaces.Env.{Env}
use opencode_workspaces.Tables.{Tables}
use opencode_workspaces.World.{
  Error, Result, ok, err, World, M, pure, raise, continue, ◌>>=◌, attempt, statement, put_result,
  exec, committed, close, transaction,
}
use opencode_workspaces.World.Keeps.{Keeps, Ensures, Post}

-- The action leaves the tables alone where it fails.
pub record Atomic {A : Type 0} (m : M A) : Type 0 where
  pub at : (w w' : World) (e : Error) → m w ≡ (err e, w') → w'.tables ≡ w.tables

-- The action only reads the tables.
abbrev pub Reads : {A : Type 0} → M A → Type 0
Reads m = (t : Tables) → Keeps (λ t'. t' ≡ t) m

pub Atomic-pure : {A : Type 0} (a : A) → Atomic (pure a)
Atomic-pure a = record { at = λ w w' e h. ground arith }

pub Atomic-raise : {A : Type 0} (x : Error) → Atomic (raise {A = A} x)
Atomic-raise x = record { at = λ w w' e h. ground arith }

-- What is ignored does not fail.
pub Atomic-ignore : {A B : Type 0} (m : M A) (b : B) → Atomic (attempt m (λ _. pure b))
unfolding attempt
Atomic-ignore m b = record { at = λ w w' e h. ground arith }

pub Atomic-if :
    {A : Type 0} (b : Bool) (m n : M A) → Atomic m → Atomic n → Atomic (if b then m else n)
Atomic-if true m n h k = h
Atomic-if false m n h k = k

module _ {A B : Type 0} where
  continue-Atomic :
      (r : Result A) (w : World) (t : Tables) (f : A → M B)
      → w.tables ≡ t
      → ((a : A) → Atomic (f a))
      → (w' : World) (e : Error) → continue r f w ≡ (err e, w')
      → w'.tables ≡ t
  continue-Atomic (ok a) w t f same h w' e x = (h a).at w w' e x ∙ same
  continue-Atomic (err _) w t f same h w' e x = ground arith

  -- Reading first, and then an atomic action.
  pub Atomic-bind : (m : M A) (f : A → M B) → Reads m → ((a : A) → Atomic (f a)) → Atomic (m >>= f)
  unfolding ◌>>=◌
  Atomic-bind m f r h = record {
    at = λ w w' e x. continue-Atomic (m w).0 (m w).1 w.tables f ((r w.tables).at w refl) h w' e x;
  }

  then_pure-Atomic :
      (r : Result A × World) (g : A → B) (t : Tables)
      → ((w' : World) (e : Error) → r ≡ (err e, w') → w'.tables ≡ t)
      → (w' : World) (e : Error) → continue r.0 (λ a. pure (g a)) r.1 ≡ (err e, w')
      → w'.tables ≡ t
  then_pure-Atomic (ok a, w) g t h w' e x = ground arith
  then_pure-Atomic (err d, w) g t h w' e x = ground (arith, h w d refl)

  pub Atomic-then_pure : (m : M A) (g : A → B) → Atomic m → Atomic (m >>= λ a. pure (g a))
  unfolding ◌>>=◌
  Atomic-then_pure m g h = record {
    at = λ w w' e x. then_pure-Atomic (m w) g w.tables (h.at w) w' e x;
  }

module _ ⦃env : Env⦄ where
  committed-Atomic :
      {A : Type 0} (a : A) (t : Tables) (r : Result (Unit {0}) × World) (w' : World) (e : Error)
      → committed a t r ≡ (err e, w')
      → w'.tables ≡ t
  committed-Atomic a t (ok _, w) w' e h = ground arith
  committed-Atomic a t (err _, w) w' e h = ground arith

  close-Atomic :
      {A : Type 0} (t : Tables) (r : Result A × World) (w' : World) (e : Error)
      → close t r ≡ (err e, w')
      → w'.tables ≡ t
  close-Atomic t (err _, w) w' e h = ground arith
  close-Atomic t (ok a, w) w' e h = committed-Atomic a t (statement w) w' e h

  statement_then_Atomic :
      {A : Type 0} (f : M A)
      → ((w w' : World) (e : Error) → f w ≡ (err e, w') → w'.tables ≡ w.tables)
      → Atomic (statement >>= λ _. f)
  unfolding statement ◌>>=◌
  statement_then_Atomic f h = record {
    at = λ w w' e x. ground (arith, h (record w { sql_calls = suc w.sql_calls }) w' e);
  }

  -- A transaction that fails, at BEGIN, in its body or at COMMIT, leaves the tables as they were.
  pub Atomic-transaction : {A : Type 0} (body : M A) → Atomic (transaction body)
  unfolding transaction
  Atomic-transaction body =
      statement_then_Atomic _ (λ w w' e h. close-Atomic w.tables (body w) w' e h)

  put_result-Atomic :
      (r : Result Tables) (w w' : World) (e : Error)
      → put_result w r ≡ (err e, w')
      → w'.tables ≡ w.tables
  put_result-Atomic (ok t) w w' e h = ground arith
  put_result-Atomic (err _) w w' e h = ground arith

  pub Atomic-exec : (f : Tables → Result Tables) → Atomic (exec f)
  unfolding exec
  Atomic-exec f = statement_then_Atomic _ (λ w w' e h. put_result-Atomic (f w.tables) w w' e h)

pub ruleset atomic_rules = (
  Atomic-pure, Atomic-raise, Atomic-ignore, Atomic-if, Atomic-then_pure, Atomic-transaction,
  Atomic-exec,
)

outcome-Keeps :
    {A : Type 0} (P : Tables → Type 0) (r : Result A × World) (t : Tables)
    → Post (λ _. P) r
    → ((w : World) (e : Error) → r ≡ (err e, w) → w.tables ≡ t)
    → P t
    → P r.1.tables
outcome-Keeps P (ok a, w) t post same p = post
outcome-Keeps P (err e, w) t post same p = subst P (sym (same w e refl)) p

-- What an atomic action leaves when it returns, it leaves also where it fails.
pub Keeps-of_Atomic :
    {A : Type 0} {P : Tables → Type 0} (m : M A) → Ensures P m (λ _. P) → Atomic m → Keeps P m
Keeps-of_Atomic {P} m h a = record {
  at = λ w p. outcome-Keeps P (m w) w.tables (h.at w p) (a.at w) p;
}
