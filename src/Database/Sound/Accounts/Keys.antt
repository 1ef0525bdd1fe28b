-- ===== src/Database/Sound/Accounts/Keys.antt =====
-- An update of an account that leaves its id, its name, its address and its role alone.
use opencode_workspaces.Prelude.{◌≡◌, refl, String, none, List, [], ◌∷◌, string_eq, some_of, arith}
use opencode_workspaces.Env.{Env}
use opencode_workspaces.Rows.{modify}
use opencode_workspaces.Rows.Laws.{has-modify, All-modify}
use opencode_workspaces.Tables.{Tables, UserRow}
use opencode_workspaces.Database.Sql.{user_key, clashes}
use opencode_workspaces.Database.Sound.{Distinct, IsSound}
use opencode_workspaces.Database.Sound.Accounts.{users-IsSound}

module _ ⦃env : Env⦄ where
  abbrev pub SameKeys : (UserRow → UserRow) → Type 0
  SameKeys f =
      (a : UserRow)
      → ((f a).id ≡ a.id)
        × ((f a).username ≡ a.username)
        × ((f a).email ≡ a.email)
        × ((f a).role ≡ a.role)

  clashes_same :
      (f : UserRow → UserRow) (x y : UserRow)
      → SameKeys f
      → (clashes x (f y) ≡ clashes x y) × (clashes (f x) y ≡ clashes x y)
  unfolding clashes
  clashes_same f x y same =
      (cc ((same y).0, (same y).1, (same y).2), cc ((same x).0, (same x).1, (same x).2))

  some_of_same :
      (f : UserRow → UserRow) (k : String) (x : UserRow) (rows : List UserRow)
      → SameKeys f
      → some_of (clashes x) (modify user_key k f rows) ≡ some_of (clashes x) rows
  unfolding modify
  some_of_same f k x [] same = refl
  some_of_same f k x (y ∷ rows) same =
      ground (arith, clashes_same f x y same, some_of_same f k x rows same)

  some_of-clashes_same :
      (f : UserRow → UserRow) (x : UserRow) (rows : List UserRow)
      → SameKeys f
      → some_of (clashes (f x)) rows ≡ some_of (clashes x) rows
  some_of-clashes_same f x [] same = refl
  some_of-clashes_same f x (y ∷ rows) same =
      ground (arith, clashes_same f x y same, some_of-clashes_same f x rows same)

  Distinct-same :
      (f : UserRow → UserRow) (k : String) (rows : List UserRow)
      → SameKeys f
      → Distinct rows
      → Distinct (modify user_key k f rows)
  unfolding modify
  Distinct-same f k [] same d = tt
  Distinct-same f k (x ∷ rows) same d = ground (
    arith,
    Distinct-same f k rows same d.1,
    some_of_same f k x rows same,
    some_of_same f k (f x) rows same,
    some_of-clashes_same f x rows same,
  )

  -- A change of no key and no role needs no check.
  pub SameKeys-IsSound :
      (k : String) (f : UserRow → UserRow) (t : Tables)
      → SameKeys f
      → IsSound none t
      → IsSound none (record t { users = modify user_key k f t.users })
  SameKeys-IsSound k f t same v =
      users-IsSound t (modify user_key k f t.users) v
        (λ j. has-modify user_key f (λ a. (same a).0) j k t.users)
        (Distinct-same f k t.users same v.distinct)
        (All-modify user_key _ k f t.users v.roles (λ a h. rw (same a).3 h))
