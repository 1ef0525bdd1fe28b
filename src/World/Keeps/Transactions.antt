-- ===== src/World/Keeps/Transactions.antt =====
-- What a transaction keeps: its body may break an invariant, and a failure restores it.
use opencode_workspaces.Prelude.{◌≡◌, subst, Bool, true, false, if◌then◌else◌}
use opencode_workspaces.Env.{Env}
use opencode_workspaces.Tables.{Tables}
use opencode_workspaces.World.{
  Result, ok, err, World, M, ◌>>=◌, statement, committed, close, transaction,
}
use opencode_workspaces.World.Keeps.{
  Ensures, Ensures-bind, Keeps, Keeps-exec, Keeps-statement, Keeps-transaction, Post, keeps_rules,
  ok_injective, statement-Keeps, close-Keeps, committed-Keeps, lift-Post, put_result-Post,
}

-- Begun on tables with `P`, the action returns only with `P`.
pub record Stable {A : Type 0} (P : Tables → Type 0) (m : M A) : Type 0 where
  pub ensures : Ensures P m (λ _. P)

Post-of_Keeps :
    {A : Type 0} (P : Tables → Type 0) (r : Result A × World) → P r.1.tables → Post (λ _. P) r
Post-of_Keeps P (ok a, w) p = p
Post-of_Keeps P (err e, w) p = tt

pub Ensures-of_Keeps :
    {A : Type 0} {P : Tables → Type 0} (m : M A) → Keeps P m → Ensures P m (λ _. P)
Ensures-of_Keeps {P} m k = record { at = λ w p. Post-of_Keeps P (m w) (k.at w p) }

pub Stable-of_Keeps : {A : Type 0} {P : Tables → Type 0} (m : M A) → Keeps P m → Stable P m
Stable-of_Keeps m k = record { ensures = Ensures-of_Keeps m k }

pub Stable-bind :
    {A B : Type 0} {P : Tables → Type 0} (m : M A) (f : A → M B)
    → Stable P m
    → ((a : A) → Stable P (f a))
    → Stable P (m >>= f)
Stable-bind {P} m f h k = record {
  ensures = Ensures-bind (λ _. P) (λ _. P) m f h.ensures (λ a. (k a).ensures);
}

pub Stable-if :
    {A : Type 0} {P : Tables → Type 0} (b : Bool) (m n : M A)
    → Stable P m
    → Stable P n
    → Stable P (if b then m else n)
Stable-if true m n h k = h
Stable-if false m n h k = k

pub Keeps-Stable-transaction :
    ⦃env : Env⦄ {A : Type 0} {P : Tables → Type 0} (body : M A)
    → Stable P body
    → Keeps P (transaction body)
Keeps-Stable-transaction body h = Keeps-transaction body h.ensures

pub ruleset stable_rules =
    (Stable-bind, Stable-if, Stable-of_Keeps, Keeps-Stable-transaction, keeps_rules, Keeps-exec)

pub Post_ok :
    {A : Type 0} (Q : A → Tables → Type 0) (r : Result A × World) (a : A)
    → Post Q r
    → r.0 ≡ ok a
    → Q a r.1.tables
Post_ok Q (ok b, w) a q e = subst (λ x. Q x w.tables) (ok_injective e) q
Post_ok Q (err b, w) a q e = cc

-- The postcondition of an action that returned.
pub Post_at :
    {A : Type 0} (Q : A → Tables → Type 0) (r : Result A × World) (a : A) (w : World)
    → Post Q r
    → r ≡ (ok a, w)
    → Q a w.tables
Post_at Q r a w q e = subst (Post Q) e q

module _ ⦃env : Env⦄ {A : Type 0} where
  committed-Post :
      (Q : A → Tables → Type 0) (a : A) (t : Tables) (r : Result (Unit {0}) × World)
      → Q a r.1.tables
      → Post Q (committed a t r)
  committed-Post Q a t (ok _, w) q = q
  committed-Post Q a t (err e, w) q = tt

  close-Post :
      (Q : A → Tables → Type 0) (t : Tables) (r : Result A × World) → Post Q r → Post Q (close t r)
  close-Post Q t (err e, w) q = tt
  close-Post Q t (ok a, w) q = committed-Post Q a t (statement w) (statement-Keeps (Q a) w q)

  -- A transaction that commits has the postcondition of its body.
  pub Ensures-transaction :
      (P : Tables → Type 0) (Q : A → Tables → Type 0) (body : M A)
      → Ensures P body Q
      → Ensures P (transaction body) Q
  unfolding transaction
  Ensures-transaction P Q body h =
      Ensures-bind (λ _. P) Q statement _ (Ensures-of_Keeps statement Keeps-statement)
        λ _. record { at = λ w p. close-Post Q w.tables (body w) (h.at w p) }
