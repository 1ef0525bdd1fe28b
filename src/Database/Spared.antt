-- ===== src/Database/Spared.antt =====
-- The account that acts, an enabled administrator, under what ProvisionUser of
-- internal/database/database.go writes.
pub mod Provisioned
use opencode_workspaces.Prelude.{
  ℕ, ◌≡◌, refl, sym, ap, subst, ◌∙◌, ◌⊎◌, inl, inr, String, Bool, true, false, not, ◌||◌, Option,
  none, some, List, [], ◌∷◌, ◌++◌, arith, ◌==◌, string_eq, str_iff, if◌then◌else◌, Bool-cases, All,
  All-append, or_else, some_of,
}
use opencode_workspaces.Model.{User}
use opencode_workspaces.Env.{Env, UuidLaws}
use opencode_workspaces.Rows.{find, modify}
use opencode_workspaces.Rows.Laws.{find_key, find-append, find-modify, All-modify}
use opencode_workspaces.Tables.{Tables, UserRow, AuditRow}
use opencode_workspaces.World.{Result, ok, err, World, M, ◌>>=◌, exec, tables, lift}
use opencode_workspaces.World.Keeps.{
  Keeps, Keeps-bind, Keeps-pure, Keeps-now, Ensures, Ensures-bind, Ensures-exec, Ensures-now,
  Ensures-query, keeps_rules, ok_injective,
}
use opencode_workspaces.World.Keeps.Transactions.{Ensures-of_Keeps}
use opencode_workspaces.Database.Sql.{
  user_key, with_uuid, with_id, clashes, canonical, insert_user_row, update_user_row, user_of,
}
use opencode_workspaces.Database.Users.{
  ProvisionUserInput, found_user, first_user, update_returning, finish_provision, provision_found,
  provision_body, provision_user, spared, provisioned_row, disabled_row, audit,
}
use opencode_workspaces.Database.Sound.Rules.{with_uuid-eq-ok}
use opencode_workspaces.Database.Sound.Accounts.{Updated, update_user_row-Updated}

module _ ⦃env : Env⦄ where
  -- The ids of the table are canonical, as those of a uuid column are.
  abbrev pub AreCanonical : List UserRow → Type 0
  AreCanonical rows = All (λ r. env.parse_uuid r.id ≡ some r.id) rows

  -- The account is an enabled administrator.
  pub record IsActor (a : String) (t : Tables) : Type 0 where
    pub row : UserRow
    pub found : find user_key a t.users ≡ some row
    pub admin : row.role ≡ "admin"
    pub enabled : row.disabled ≡ false
    pub canonical : AreCanonical t.users

  -- A change of another account, or one to an enabled administrator.
  abbrev pub Spares : String → String → (UserRow → UserRow) → Type 0
  Spares a k f =
      ((k == a) ≡ false) ⊎ ((r : UserRow) → ((f r).role ≡ "admin") × ((f r).disabled ≡ false))

  pub of_users-IsActor :
      (a : String) (t t' : Tables) → t.users ≡ t'.users → IsActor a t → IsActor a t'
  of_users-IsActor a t t' e v = record {
    row = v.row;
    found = ap (find user_key a) (sym e) ∙ v.found;
    admin = v.admin;
    enabled = v.enabled;
    canonical = subst AreCanonical e v.canonical;
  }

  modify_other-IsActor :
      (a k : String) (f : UserRow → UserRow) (t : Tables)
      → ((r : UserRow) → (f r).id ≡ r.id)
      → (k == a) ≡ false
      → IsActor a t
      → IsActor a (record t { users = modify user_key k f t.users })
  modify_other-IsActor a k f t same other v = record {
    row = v.row;
    found = find-modify user_key f same a k t.users ∙ rw other v.found;
    admin = v.admin;
    enabled = v.enabled;
    canonical = All-modify user_key _ k f t.users v.canonical (λ r p. rw (same r) p);
  }

  pub modify-IsActor :
      (a k : String) (f : UserRow → UserRow) (t : Tables)
      → ((r : UserRow) → (f r).id ≡ r.id)
      → Spares a k f
      → IsActor a t
      → IsActor a (record t { users = modify user_key k f t.users })
  modify-IsActor a k f t same (inl other) v = modify_other-IsActor a k f t same other v
  modify-IsActor a k f t same (inr g) v = elim (Bool-cases (k == a)) [
    | inl here ↦ record {
      row = f v.row;
      found = find-modify user_key f same a k t.users ∙ rw (here, v.found) refl;
      admin = (g v.row).0;
      enabled = (g v.row).1;
      canonical = All-modify user_key _ k f t.users v.canonical (λ r p. rw (same r) p);
    }
    | inr other ↦ modify_other-IsActor a k f t same other v
  ]

  pub first_user-canonical :
      (p : UserRow → Bool) (rows : List UserRow) (r : UserRow)
      → AreCanonical rows
      → first_user p rows ≡ some r
      → env.parse_uuid r.id ≡ some r.id
  unfolding first_user
  first_user-canonical p [] r h e = absurd (ground arith)
  first_user-canonical p (x ∷ rows) r (h, hs) e = elim (Bool-cases (p x)) [
    | inl here ↦
        let same : x ≡ r = ground arith in
        subst (λ (y : UserRow). env.parse_uuid y.id ≡ some y.id) same h
    | inr there ↦
        first_user-canonical p rows r hs
          (subst (λ (b : Bool). (if b then some x else first_user p rows) ≡ some r) there e)
  ]

  -- A row that clashes with none has no id that is taken.
  pub unclashed :
      (r : UserRow) (a : String) (rows : List UserRow) (v : UserRow)
      → find user_key a rows ≡ some v
      → some_of (clashes r) rows ≡ false
      → (r.id == a) ≡ false
  unfolding find clashes
  unclashed r a [] v h k = absurd (ground arith)
  unclashed r a (x ∷ rows) v h k =
      ground (arith, unclashed r a rows v, str_iff x.id a, str_iff r.id a, str_iff r.id x.id)

  pub insert-IsActor :
      (a : String) (r : UserRow) (t : Tables)
      → env.parse_uuid r.id ≡ some r.id
      → IsActor a t
      → IsActor a (record t { users = t.users ++ r ∷ [] })
  insert-IsActor a r t same v = record {
    row = v.row;
    found = find-append user_key a t.users (r ∷ []) ∙ rw (v.found) refl;
    admin = v.admin;
    enabled = v.enabled;
    canonical = All-append _ t.users (r ∷ []) v.canonical (same, tt);
  }
