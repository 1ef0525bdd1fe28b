-- ===== src/World.antt =====
-- The state that the components share, and actions on it: a call reads and writes the world and
-- returns a result or an error. What was written before an error stays written.
pub mod Keeps
pub mod Atomic
pub mod Queried
pub mod Steps
pub mod Api
pub mod Leaves
use opencode_workspaces.Prelude.{
  ℕ, suc, String, Bool, true, false, List, [], Option, none, some, if◌then◌else◌,
}
use opencode_workspaces.Model.{Bytes}
use opencode_workspaces.Cluster.{Cluster}
use opencode_workspaces.Env.{Env}
use opencode_workspaces.Tables.{Tables}

-- The errors that callers tell apart; `duplicate_key` is PostgreSQL's, before it is renamed, and
-- `missing` is the Kubernetes API's.
pub data Error : Type 0 where
  not_found conflict already_bootstrapped duplicate_key missing : Error
  failed : String → Error

pub data Result (A : Type 0) : Type 0 where
  ok : A → Result A
  err : Error → Result A

-- `clock` is the time of the running operation; the counters number the calls of each source.
pub record World : Type 0 where
  pub tables : Tables
  pub cluster : Cluster
  pub clock : ℕ
  pub uuids_drawn : ℕ
  pub random_drawn : ℕ
  pub sql_calls : ℕ
  pub api_calls : ℕ
  pub audit_ids : ℕ

abbrev pub M : Type 0 → Type 0
M A = World → Result A × World

abbrev pub pure : {A : Type 0} → A → M A
pure a w = (ok a, w)

abbrev pub raise : {A : Type 0} → Error → M A
raise e w = (err e, w)

abbrev pub continue : {A B : Type 0} → Result A → (A → M B) → M B
continue (ok a) f w = f a w
continue (err e) f w = (err e, w)

infixl 10 ◌>>=◌ ◌>>◌
unfoldable pub ◌>>=◌ : {A B : Type 0} → M A → (A → M B) → M B
◌>>=◌ m f w = let (r, w') = m w in continue r f w'

abbrev pub ◌>>◌ : {A B : Type 0} → M A → M B → M B
m >> n = m >>= λ _. n

-- The next action gets the result or the error: `x, err := m`.
unfoldable pub attempt : {A B : Type 0} → M A → (Result A → M B) → M B
attempt m f w = let (r, w') = m w in f r w'

abbrev pub lift : {A : Type 0} → Result A → M A
lift r w = (r, w)

unfoldable pub require : Bool → Error → M (Unit {0})
require b e w = if b then (ok tt, w) else (err e, w)

unfoldable pub when : Bool → M (Unit {0}) → M (Unit {0})
when b m w = if b then m w else (ok tt, w)

abbrev pub now : M ℕ
now w = (ok w.clock, w)

abbrev pub tables : M Tables
tables w = (ok w.tables, w)

abbrev pub or_fail : {A : Type 0} → Option A → Error → M A
or_fail none e w = (err e, w)
or_fail (some a) e w = (ok a, w)

module _ ⦃env : Env⦄ where
  -- One call to the database, which the environment may fail.
  unfoldable pub statement : M (Unit {0})
  statement w =
      if env.sql_fails w.sql_calls
      then (err (failed "database"), record w { sql_calls = suc w.sql_calls })
      else (ok tt, record w { sql_calls = suc w.sql_calls })

  -- One call to the Kubernetes API.
  unfoldable pub api_call : M (Unit {0})
  api_call w =
      if env.api_fails w.api_calls
      then (err (failed "kubernetes"), record w { api_calls = suc w.api_calls })
      else (ok tt, record w { api_calls = suc w.api_calls })

  abbrev put_result : World → Result Tables → Result (Unit {0}) × World
  put_result w (ok t) = (ok tt, record w { tables = t })
  put_result w (err e) = (err e, w)

  -- tx.Exec of a statement that writes.
  unfoldable pub exec : (Tables → Result Tables) → M (Unit {0})
  exec f = do statement; (λ w. put_result w (f w.tables))

  -- QueryRow or Query of a statement that reads.
  unfoldable pub query : {A : Type 0} → (Tables → Result A) → M A
  query f = do statement; (λ w. (f w.tables, w))

  -- uuid.NewString, which panics where the source of randomness fails
  unfoldable pub new_uuid : M String
  new_uuid w = (ok (env.uuid_at w.uuids_drawn), record w { uuids_drawn = suc w.uuids_drawn })

  -- nextval of the sequence behind audit_events.id, which no ROLLBACK takes back
  unfoldable pub next_audit_id : M ℕ
  next_audit_id w = (ok w.audit_ids, record w { audit_ids = suc w.audit_ids })

  abbrev drawn : Option Bytes → World → Result Bytes × World
  drawn none w = (err (failed "random"), w)
  drawn (some b) w = (ok b, w)

  -- rand.Read into n bytes
  unfoldable pub random_bytes : ℕ → M Bytes
  random_bytes n w =
      drawn (env.random_at w.random_drawn n) (record w { random_drawn = suc w.random_drawn })

  abbrev restore : Tables → World → World
  restore t w = record w { tables = t }

  -- What COMMIT leaves of a transaction that began at the tables `t`. One that fails is taken to have
  -- written nothing: a reply that is lost behind its writes is not modelled.
  abbrev committed : {A : Type 0} → A → Tables → Result (Unit {0}) × World → Result A × World
  committed a t (ok _, w) = (ok a, w)
  committed a t (err e, w) = (err e, restore t w)

  -- The end of a transaction that began at the tables `t`: COMMIT, or ROLLBACK after an error.
  abbrev close : {A : Type 0} → Tables → Result A × World → Result A × World
  close t (err e, w) = (err e, restore t w)
  close t (ok a, w) = committed a t (statement w)

  -- pgx.BeginFunc, and Begin with a deferred Rollback and a final Commit
  unfoldable pub transaction : {A : Type 0} → M A → M A
  transaction body = do statement; (λ w. close w.tables (body w))
