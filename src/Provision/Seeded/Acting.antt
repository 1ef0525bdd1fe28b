-- ===== src/Provision/Seeded/Acting.antt =====
-- The enabled administrator that a provisioning finds in the list of accounts.
use opencode_workspaces.Prelude.{
  ℕ, ◌≡◌, refl, sym, ap, subst, ◌∙◌, Bool, true, false, not, ◌&&◌, ◌||◌, List, [], ◌∷◌, map, arith,
  ◌==◌, string_eq, some_of, Bool-cases, inl, inr, ltb,
}
use opencode_workspaces.Model.{User, is_admin}
use opencode_workspaces.Env.{Env}
use opencode_workspaces.Tables.{UserRow}
use opencode_workspaces.World.{ok, World}
use opencode_workspaces.World.Keeps.{ok_injective}
use opencode_workspaces.World.Steps.{query_ok}
use opencode_workspaces.Database.Sql.{user_of, order_by, insert_sorted}
use opencode_workspaces.Database.Users.{list_users}
use opencode_workspaces.Provision.{first_admin}

-- A row of the list in insertion order is in the list in another order.
module _ {A : Type 0} (column : A → ℕ) (p : A → Bool) where
  insert_sorted-some :
      (a : A) (rows : List A) → some_of p (insert_sorted column a rows) ≡ (p a || some_of p rows)
  unfolding insert_sorted
  insert_sorted-some a [] = refl
  insert_sorted-some a (b ∷ bs) = elim (Bool-cases (ltb (column b) (column a))) [
    | inl after ↦ rw (after, insert_sorted-some a bs) (ground arith)
    | inr before ↦ rw before refl
  ]

  order_by-some : (rows : List A) → some_of p (order_by column rows) ≡ some_of p rows
  unfolding order_by
  order_by-some [] = refl
  order_by-some (a ∷ rows) =
      insert_sorted-some a (order_by column rows) ∙ ap (λ b. p a || b) (order_by-some rows)

-- An enabled administrator.
abbrev pub is_acting : UserRow → Bool
is_acting r = r.role == "admin" && not r.disabled

first_admin-some :
    (rows : List UserRow)
    → (first_admin (map user_of rows) == "") ≡ false
    → some_of is_acting rows ≡ true
unfolding first_admin user_of is_admin
first_admin-some [] h = absurd (ground arith)
first_admin-some (r ∷ rows) h = elim (Bool-cases (is_acting r)) [
  | inl here ↦ rw here refl
  | inr other ↦ ground (arith, first_admin-some rows)
]

module _ ⦃env : Env⦄ where
  pub listed_admin :
      (w w' : World) (users : List User)
      → list_users w ≡ (ok users, w')
      → (first_admin users == "") ≡ false
      → (some_of is_acting w.tables.users ≡ true) × (w'.tables ≡ w.tables)
  unfolding list_users
  listed_admin w w' users h e =
      let (read, same) = query_ok _ w w' users h in
      let rows = order_by (λ (r : UserRow). r.created_at) w.tables.users in
      let some_row : some_of is_acting rows ≡ true =
        first_admin-some rows
          (subst (λ us. (first_admin us == "") ≡ false) (sym (ok_injective read)) e) in
      (
        sym (order_by-some (λ (r : UserRow). r.created_at) is_acting w.tables.users) ∙ some_row,
        same.0,
      )
