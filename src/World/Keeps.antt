-- ===== src/World/Keeps.antt =====
-- Postconditions of actions, and invariants of the tables, one rule for each way to build an action.
pub mod Transactions
use opencode_workspaces.Prelude.{
  ℕ, ◌≡◌, refl, subst, Bool, true, false, Option, none, some, if◌then◌else◌, arith,
}
use opencode_workspaces.Model.{Bytes}
use opencode_workspaces.Env.{Env}
use opencode_workspaces.Tables.{Tables}
use opencode_workspaces.World.{
  Error, Result, ok, err, World, M, pure, raise, continue, ◌>>=◌, attempt, lift, require, when, now,
  tables, or_fail, statement, put_result, exec, query, new_uuid, drawn, random_bytes, committed,
  next_audit_id, close, transaction, api_call,
}

pub ok_injective : {A : Type 0} {a b : A} → ok a ≡ ok b → a ≡ b
ok_injective e = cc

-- The tables that an action leaves when it returns, and nothing where it fails.
abbrev pub Post : {A : Type 0} → (A → Tables → Type 0) → Result A × World → Type 0
Post Q (ok a, w) = Q a w.tables
Post Q (err e, w) = Unit

-- Begun on tables with `P`, the action returns only with `Q`.
pub record Ensures {A : Type 0} (P : Tables → Type 0) (m : M A) (Q : A → Tables → Type 0)
    : Type 0 where
  pub at : (w : World) → P w.tables → Post Q (m w)

-- The action keeps `P`, whether it returns or fails.
pub record Keeps {A : Type 0} (P : Tables → Type 0) (m : M A) : Type 0 where
  pub at : (w : World) → P w.tables → P (m w).1.tables

Post-continue :
    {A B : Type 0} (Q : A → Tables → Type 0) (R : B → Tables → Type 0) (r : Result A × World)
    (f : A → M B)
    → Post Q r
    → ((a : A) → Ensures (Q a) (f a) R)
    → Post R (continue r.0 f r.1)
Post-continue Q R (ok a, w) f h k = (k a).at w h
Post-continue Q R (err e, w) f h k = tt

module _ {A B : Type 0} {P : Tables → Type 0} where
  pub Ensures-bind :
      (Q : A → Tables → Type 0) (R : B → Tables → Type 0) (m : M A) (f : A → M B)
      → Ensures P m Q
      → ((a : A) → Ensures (Q a) (f a) R)
      → Ensures P (m >>= f) R
  unfolding ◌>>=◌
  Ensures-bind Q R m f h k = record { at = λ w p. Post-continue Q R (m w) f (h.at w p) k }

  continue-Keeps :
      (r : Result A) (w : World) (f : A → M B)
      → P w.tables
      → ((a : A) → Keeps P (f a))
      → P (continue r f w).1.tables
  continue-Keeps (ok a) w f p k = (k a).at w p
  continue-Keeps (err e) w f p k = p

  pub Keeps-bind :
      (m : M A) (f : A → M B) → Keeps P m → ((a : A) → Keeps P (f a)) → Keeps P (m >>= f)
  unfolding ◌>>=◌
  Keeps-bind m f h k = record { at = λ w p. continue-Keeps (m w).0 (m w).1 f (h.at w p) k }

  pub Keeps-attempt :
      (m : M A) (f : Result A → M B)
      → Keeps P m
      → ((r : Result A) → Keeps P (f r))
      → Keeps P (attempt m f)
  unfolding attempt
  Keeps-attempt m f h k = record { at = λ w p. (k (m w).0).at (m w).1 (h.at w p) }

module _ {A : Type 0} {P : Tables → Type 0} where
  pub Keeps-pure : (a : A) → Keeps P (pure a)
  Keeps-pure a = record { at = λ w p. p }

  pub Keeps-raise : (e : Error) → Keeps P (raise {A = A} e)
  Keeps-raise e = record { at = λ w p. p }

  pub Keeps-lift : (r : Result A) → Keeps P (lift r)
  Keeps-lift r = record { at = λ w p. p }

  pub Keeps-or_fail : (o : Option A) (e : Error) → Keeps P (or_fail o e)
  Keeps-or_fail none e = record { at = λ w p. p }
  Keeps-or_fail (some a) e = record { at = λ w p. p }

  pub Keeps-if : (b : Bool) (m n : M A) → Keeps P m → Keeps P n → Keeps P (if b then m else n)
  Keeps-if true m n h k = h
  Keeps-if false m n h k = k

module _ {P : Tables → Type 0} where
  pub Keeps-require : (b : Bool) (e : Error) → Keeps P (require b e)
  unfolding require
  Keeps-require b e = record { at = λ w p. ground arith }

  pub Keeps-when : (b : Bool) (m : M (Unit {0})) → Keeps P m → Keeps P (when b m)
  unfolding when
  Keeps-when true m h = record { at = h.at }
  Keeps-when false m h = record { at = λ w p. p }

  pub Keeps-now : Keeps P now
  Keeps-now = record { at = λ w p. p }

  pub Keeps-tables : Keeps P tables
  Keeps-tables = record { at = λ w p. p }

statement-Keeps :
    ⦃env : Env⦄ (P : Tables → Type 0) (w : World) → P w.tables → P (statement w).1.tables
unfolding statement
statement-Keeps P w p = ground arith

module _ ⦃env : Env⦄ where
  drawn-tables : (o : Option Bytes) (w : World) → (drawn o w).1.tables ≡ w.tables
  drawn-tables none w = refl
  drawn-tables (some b) w = refl

  put_result-Post :
      (Q : Tables → Type 0) (w : World) (r : Result Tables)
      → ((t : Tables) → r ≡ ok t → Q t)
      → Post (λ _. Q) (put_result w r)
  put_result-Post Q w (ok t) h = h t refl
  put_result-Post Q w (err e) h = tt

  lift-Post :
      {A : Type 0} (Q : A → Tables → Type 0) (w : World) (r : Result A)
      → ((a : A) → r ≡ ok a → Q a w.tables)
      → Post Q (r, w)
  lift-Post Q w (ok a) h = h a refl
  lift-Post Q w (err e) h = tt

module _ ⦃env : Env⦄ (P : Tables → Type 0) where
  committed-Keeps :
      {A : Type 0} (a : A) (t : Tables) (r : Result (Unit {0}) × World)
      → P t
      → P r.1.tables
      → P (committed a t r).1.tables
  committed-Keeps a t (ok _, w) p q = q
  committed-Keeps a t (err e, w) p q = p

  close-Keeps :
      {A : Type 0} (t : Tables) (r : Result A × World)
      → P t
      → Post (λ _. P) r
      → P (close t r).1.tables
  close-Keeps t (err e, w) p q = p
  close-Keeps t (ok a, w) p q = committed-Keeps a t (statement w) p (statement-Keeps P w q)

module _ ⦃env : Env⦄ {P : Tables → Type 0} where
  pub Keeps-statement : Keeps P statement
  unfolding statement
  Keeps-statement = record { at = λ w p. ground arith }

  pub Keeps-api_call : Keeps P api_call
  unfolding api_call
  Keeps-api_call = record { at = λ w p. ground arith }

  pub Keeps-new_uuid : Keeps P new_uuid
  unfolding new_uuid
  Keeps-new_uuid = record { at = λ w p. p }

  pub Keeps-next_audit_id : Keeps P next_audit_id
  unfolding next_audit_id
  Keeps-next_audit_id = record { at = λ w p. p }

  pub Keeps-random_bytes : (n : ℕ) → Keeps P (random_bytes n)
  unfolding random_bytes
  Keeps-random_bytes n = record { at = λ w p. rw drawn-tables p }

  put_result-Keeps :
      (w : World) (r : Result Tables)
      → P w.tables
      → ((t : Tables) → r ≡ ok t → P t)
      → P (put_result w r).1.tables
  put_result-Keeps w (ok t) p h = h t refl
  put_result-Keeps w (err e) p h = p

  -- A writing statement keeps what its effect on the tables keeps.
  pub Keeps-exec :
      (f : Tables → Result Tables) → ((t t' : Tables) → P t → f t ≡ ok t' → P t') → Keeps P (exec f)
  unfolding exec
  Keeps-exec f h =
      Keeps-bind statement _ Keeps-statement
        λ _. record { at = λ w p. put_result-Keeps w (f w.tables) p (λ t e. h w.tables t p e) }

  pub Keeps-query : {A : Type 0} (f : Tables → Result A) → Keeps P (query f)
  unfolding query
  Keeps-query f = Keeps-bind statement _ Keeps-statement λ _. record { at = λ w p. p }

  Ensures-statement : Ensures P statement (λ _. P)
  unfolding statement
  Ensures-statement = record { at = λ w p. ground arith }

  pub Ensures-exec :
      (Q : Tables → Type 0) (f : Tables → Result Tables)
      → ((t t' : Tables) → P t → f t ≡ ok t' → Q t')
      → Ensures P (exec f) (λ _. Q)
  unfolding exec
  Ensures-exec Q f h =
      Ensures-bind (λ _. P) (λ _. Q) statement _ Ensures-statement
        λ _. record { at = λ w p. put_result-Post Q w (f w.tables) (λ t e. h w.tables t p e) }

  pub Ensures-query :
      {A : Type 0} (Q : A → Tables → Type 0) (f : Tables → Result A)
      → ((t : Tables) (a : A) → P t → f t ≡ ok a → Q a t)
      → Ensures P (query f) Q
  unfolding query
  Ensures-query Q f h =
      Ensures-bind (λ _. P) Q statement _ Ensures-statement
        λ _. record { at = λ w p. lift-Post Q w (f w.tables) (λ a e. h w.tables a p e) }

  pub Ensures-new_uuid : Ensures P new_uuid (λ _. P)
  unfolding new_uuid
  Ensures-new_uuid = record { at = λ w p. p }

  pub Ensures-next_audit_id : Ensures P next_audit_id (λ _. P)
  unfolding next_audit_id
  Ensures-next_audit_id = record { at = λ w p. p }

  pub Ensures-now : Ensures P now (λ _. P)
  Ensures-now = record { at = λ w p. p }

  -- A transaction keeps what its body restores by the time that it returns: a failed body is undone.
  pub Keeps-transaction :
      {A : Type 0} (body : M A) → Ensures P body (λ _. P) → Keeps P (transaction body)
  unfolding transaction
  Keeps-transaction body h =
      Keeps-bind statement _ Keeps-statement
        λ _. record { at = λ w p. close-Keeps P w.tables (body w) p (h.at w p) }

pub ruleset keeps_rules = (
  Keeps-pure, Keeps-raise, Keeps-lift, Keeps-or_fail, Keeps-if, Keeps-require, Keeps-when,
  Keeps-now, Keeps-tables, Keeps-statement, Keeps-api_call, Keeps-new_uuid, Keeps-next_audit_id,
  Keeps-random_bytes, Keeps-query, Keeps-bind, Keeps-attempt,
)
