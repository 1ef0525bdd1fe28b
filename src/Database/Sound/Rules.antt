-- ===== src/Database/Sound/Rules.antt =====
-- Inversion of the statements that succeed, and the clash relation of accounts.
use opencode_workspaces.Prelude.{
  ◌≡◌, refl, String, Bool, true, false, ◌||◌, Option, none, some, List, [], ◌∷◌, ◌++◌, ◌==◌,
  string_eq, some_of, arith, str_iff, if◌then◌else◌, Option-cases, inl, inr,
}
use opencode_workspaces.Env.{Env}
use opencode_workspaces.Rows.{has}
use opencode_workspaces.Tables.{Tables, UserRow}
use opencode_workspaces.World.{Error, Result, ok, err}
use opencode_workspaces.Database.Sql.{
  user_key, with_uuid, references_user, references_user?, with_null_uuid, same_lower, has_email,
  shares_email, clashes,
}
use opencode_workspaces.Database.Sound.{Distinct}

module _ ⦃env : Env⦄ where
  pub with_uuid-eq-ok :
      {B : Type 0} (id : String) (f : String → Result B) (b : B)
      → with_uuid id f ≡ ok b
      → (k : String) × (env.parse_uuid id ≡ some k) × (f k ≡ ok b)
  unfolding with_uuid
  with_uuid-eq-ok id f b h = elim (Option-cases (env.parse_uuid id)) [
    | inl e ↦ absurd (ground arith)
    | inr (k, e) ↦ (k, e, ground arith)
  ]

  pub references_user-eq-ok :
      {B : Type 0} (k : String) (t : Tables) (r : Result B) (b : B)
      → references_user k t r ≡ ok b
      → (has user_key k t.users ≡ true) × (r ≡ ok b)
  unfolding references_user
  references_user-eq-ok k t r b h = ground arith

  pub references_user?-eq-ok :
      {B : Type 0} (o : Option String) (t : Tables) (r : Result B) (b : B)
      → references_user? o t r ≡ ok b
      → r ≡ ok b
  references_user?-eq-ok none t r b h = h
  references_user?-eq-ok (some k) t r b h = (references_user-eq-ok k t r b h).1

  pub with_null_uuid-eq-ok :
      {B : Type 0} (id : String) (f : Option String → Result B) (b : B)
      → with_null_uuid id f ≡ ok b
      → (o : Option String) × (f o ≡ ok b)
  unfolding with_null_uuid with_uuid
  with_null_uuid-eq-ok id f b h = go (id == "") h
    where
      go :
          (empty : Bool)
          → (if empty then f none else with_uuid id (λ k. f (some k))) ≡ ok b
          → (o : Option String) × (f o ≡ ok b)
      go true h' = (none, h')
      go false h' = let (k, _, e) = with_uuid-eq-ok id (λ k. f (some k)) b h' in (some k, e)

  same_lower_comm : (a b : String) → same_lower a b ≡ same_lower b a
  unfolding same_lower
  same_lower_comm a b = ground (
    arith,
    str_iff (env.sql_lower a) (env.sql_lower b),
    str_iff (env.sql_lower b) (env.sql_lower a),
  )

  shares_email_comm : (a b : Option String) → shares_email a b ≡ shares_email b a
  unfolding has_email
  shares_email_comm none none = refl
  shares_email_comm none (some b) = refl
  shares_email_comm (some a) none = refl
  shares_email_comm (some a) (some b) = same_lower_comm b a

  pub clashes_comm : (r s : UserRow) → clashes r s ≡ clashes s r
  unfolding clashes
  clashes_comm r s = ground (
    arith,
    str_iff r.id s.id,
    str_iff s.id r.id,
    same_lower_comm r.username s.username,
    shares_email_comm r.email s.email,
  )

  pub some_of-concat :
      (p : UserRow → Bool) (rows : List UserRow) (r : UserRow)
      → some_of p (rows ++ r ∷ []) ≡ (some_of p rows || p r)
  some_of-concat p [] r = ground arith
  some_of-concat p (x ∷ rows) r = ground (arith, some_of-concat p rows r)

  pub Distinct-concat :
      (rows : List UserRow) (r : UserRow)
      → Distinct rows
      → some_of (clashes r) rows ≡ false
      → Distinct (rows ++ r ∷ [])
  Distinct-concat [] r d h = (refl, tt)
  Distinct-concat (x ∷ rows) r d h =
      ground
        (arith, some_of-concat (clashes x) rows r, clashes_comm r x, Distinct-concat rows r d.1)

pub else_ok :
    {A : Type 0} (b : Bool) (e : Error) (r : Result A) (a : A)
    → (if b then err e else r) ≡ ok a
    → (b ≡ false) × (r ≡ ok a)
else_ok b e r a h = ground arith

pub then_ok :
    {A : Type 0} (b : Bool) (e : Error) (r : Result A) (a : A)
    → (if b then r else err e) ≡ ok a
    → (b ≡ true) × (r ≡ ok a)
then_ok b e r a h = ground arith
