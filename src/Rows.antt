-- ===== src/Rows.antt =====
-- Tables and maps as lists of rows under a key: what SELECT, INSERT, UPDATE and DELETE do by
-- primary key, and what a Go map does.
pub mod Laws
use opencode_workspaces.Prelude.{
  Bool, true, false, List, [], ◌∷◌, ◌++◌, Option, none, some, Eq, ◌==◌, if◌then◌else◌, is_some,
}

module _ {A : Type 0} {K : Type 0} ⦃e : Eq K⦄ (key : A → K) where
  -- SELECT … WHERE key=$1
  unfoldable pub find : K → List A → Option A
  find k [] = none
  find k (r ∷ rows) = if key r == k then some r else find k rows

  -- UPDATE … WHERE key=$1
  unfoldable pub modify : K → (A → A) → List A → List A
  modify k f [] = []
  modify k f (r ∷ rows) = (if key r == k then f r else r) ∷ modify k f rows

  -- DELETE … WHERE key=$1
  unfoldable pub remove : K → List A → List A
  remove k [] = []
  remove k (r ∷ rows) = let rest = remove k rows in if key r == k then rest else r ∷ rest

  -- EXISTS(SELECT 1 … WHERE key=$1)
  unfoldable pub has : K → List A → Bool
  unfolding find
  has k rows = is_some (find k rows)

  -- INSERT … ON CONFLICT(key) DO UPDATE, or m[k] = v: the row under the key, or a new row at the end.
  unfoldable pub upsert : K → (Option A → A) → List A → List A
  upsert k f [] = f none ∷ []
  upsert k f (r ∷ rows) =
      let rest = upsert k f rows in if key r == k then f (some r) ∷ rows else r ∷ rest
