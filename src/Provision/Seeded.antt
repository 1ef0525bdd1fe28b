-- ===== src/Provision/Seeded.antt =====
-- The accounts that a provisioning finds or makes, by their addresses.
pub mod Acting
pub mod Returned
use opencode_workspaces.Prelude.{
  ℕ, suc, ◌≡◌, refl, sym, ap, subst, ◌∙◌, Bool, true, false, not, ◌&&◌, ◌||◌, Option, none, some,
  List, [], ◌∷◌, ◌++◌, String, arith, ◌==◌, string_eq, str_iff, some_of, if◌then◌else◌, Bool-cases,
  inl, inr,
}
use opencode_workspaces.Model.{Bytes, User}
use opencode_workspaces.Env.{Env}
use opencode_workspaces.Rows.{modify}
use opencode_workspaces.Tables.{Tables, UserRow}
use opencode_workspaces.World.{Result, ok, exec, ◌>>=◌, ◌>>◌}
use opencode_workspaces.World.Keeps.{
  Keeps, Keeps-exec, Keeps-bind, Keeps-pure, Keeps-require, Keeps-when, Keeps-transaction, Ensures,
  Ensures-bind, Ensures-exec, Ensures-query, Ensures-now, Ensures-new_uuid, ok_injective,
  keeps_rules,
}
use opencode_workspaces.World.Keeps.Transactions.{
  Stable, Stable-bind, Stable-of_Keeps, Ensures-of_Keeps, Ensures-transaction, stable_rules,
}
use opencode_workspaces.Database.Sql.{
  user_key, has_email, same_lower, null_if_empty, with_id, insert_user_row, update_user_row,
  insert_credential_row, insert_workspace_row, insert_audit_row,
}
use opencode_workspaces.Database.Users.{
  ProvisionUserInput, first_user, new_user_row, insert_user, insert_user_with, update_returning,
  finish_provision, provision_found, provision_body, provision_user, audit, disabled_row,
  provisioned_row, spared,
}
use opencode_workspaces.Database.Sound.Rules.{with_uuid-eq-ok}
use opencode_workspaces.Database.Sound.Accounts.{update_user_row-Updated}
use opencode_workspaces.Database.Sound.Methods.{as_conflict-Keeps, Ensures-as_conflict}
use opencode_workspaces.Database.Spared.Provisioned.{insert_audit_row-users}
use opencode_workspaces.Database.Grows.{insert_workspace_row-SameLog, insert_credential_row-SameLog}

module _ ⦃env : Env⦄ where
  -- Some account has the address, up to lower case.
  abbrev pub HasAccount : String → Tables → Type 0
  HasAccount e t = some_of (λ r. has_email e r.email) t.users ≡ true

  some_of-found :
      (p : UserRow → Bool) (rows : List UserRow) (r : UserRow)
      → first_user p rows ≡ some r
      → some_of p rows ≡ true
  unfolding first_user
  some_of-found p [] r h = absurd (ground arith)
  some_of-found p (x ∷ rows) r h = ground (arith, some_of-found p rows r)

  some_of-more :
      (p : UserRow → Bool) (rows : List UserRow) (r : UserRow)
      → some_of p (rows ++ r ∷ []) ≡ (some_of p rows || p r)
  some_of-more p [] r = ground arith
  some_of-more p (x ∷ rows) r = ground (arith, some_of-more p rows r)

  some_of-revised :
      (e k : String) (f : UserRow → UserRow) (rows : List UserRow)
      → ((r : UserRow) → (f r).email ≡ r.email)
      → some_of (λ r. has_email e r.email) (modify user_key k f rows)
        ≡ some_of (λ r. has_email e r.email) rows
  unfolding modify
  some_of-revised e k f [] same = refl
  some_of-revised e k f (x ∷ rows) same = elim (Bool-cases (x.id == k)) [
    | inl here ↦ rw (here, same x, some_of-revised e k f rows same) refl
    | inr other ↦ rw (other, some_of-revised e k f rows same) refl
  ]

  pub exec-HasAccount :
      (e : String) (f : Tables → Result Tables)
      → ((t t' : Tables) → f t ≡ ok t' → t.users ≡ t'.users)
      → Keeps (HasAccount e) (exec f)
  exec-HasAccount e f h =
      Keeps-exec f
        (λ t t' v x. subst (λ rows. some_of (λ r. has_email e r.email) rows ≡ true) (h t t' x) v)

  pub audit-HasAccount :
      (e : String) (a b c d f g : String) → Keeps (HasAccount e) (audit a b c d f g)
  unfolding audit
  audit-HasAccount e a b c d f g =
      search (keeps_rules, exec-HasAccount, insert_audit_row-users) depth 10

  update_user_row-HasAccount :
      (e id : String) (f : UserRow → UserRow) (t t' : Tables)
      → ((r : UserRow) → (f r).email ≡ r.email)
      → HasAccount e t
      → update_user_row id f t ≡ ok t'
      → HasAccount e t'
  update_user_row-HasAccount e id f t t' same v h =
      let u = update_user_row-Updated id f t t' h in
      subst (HasAccount e) u.written (some_of-revised e u.key f t.users same ∙ v)

  update_returning-HasAccount :
      (e id : String) (f : UserRow → UserRow)
      → ((r : UserRow) → (f r).email ≡ r.email)
      → Keeps (HasAccount e) (update_returning id f)
  unfolding update_returning
  update_returning-HasAccount e id f same =
      search
        (keeps_rules, Keeps-exec, λ (t t' : Tables). update_user_row-HasAccount e id f t t' same)

  finish_provision-HasAccount :
      (e a : String) (input : ProvisionUserInput) (u : User)
      → Keeps (HasAccount e) (finish_provision a input u)
  unfolding finish_provision
  finish_provision-HasAccount e a input u =
      search (keeps_rules, update_returning-HasAccount, audit-HasAccount) depth 9

  inserted_users :
      (r : UserRow) (t t' : Tables)
      → insert_user_row r t ≡ ok t'
      → (k : String) × (t.users ++ with_id r k ∷ [] ≡ t'.users)
  unfolding insert_user_row
  inserted_users r t t' h =
      let (k, parsed, e) = with_uuid-eq-ok r.id _ t' h in
      let written : record t { users = t.users ++ with_id r k ∷ [] } ≡ t' = ground arith in
      (k, ap (λ (x : Tables). x.users) written)

  insert_user_row-HasAccount :
      (e : String) (r : UserRow) (t t' : Tables)
      → HasAccount e t
      → insert_user_row r t ≡ ok t'
      → HasAccount e t'
  insert_user_row-HasAccount e r t t' v h =
      let (k, users) = inserted_users r t t' h in
      subst (λ rows. some_of (λ x. has_email e x.email) rows ≡ true) users
        (some_of-more _ t.users (with_id r k) ∙ rw v refl)

  new_row-HasAccount :
      (e : String) (r : UserRow) (t t' : Tables)
      → has_email e r.email ≡ true
      → insert_user_row r t ≡ ok t'
      → HasAccount e t'
  new_row-HasAccount e r t t' v h =
      let (k, users) = inserted_users r t t' h in
      subst (λ rows. some_of (λ x. has_email e x.email) rows ≡ true) users
        (some_of-more _ t.users (with_id r k) ∙ rw v (ground arith))

  credential_row-HasAccount :
      (e : String) (time : ℕ) (id h : String)
      → Keeps (HasAccount e) (exec (insert_credential_row time id h))
  credential_row-HasAccount e time id h =
      exec-HasAccount e _ (λ t t' x. (insert_credential_row-SameLog time id h t t' x).0)

  workspace_row-HasAccount :
      (e : String) (time : ℕ) (id resource : String)
      → Keeps (HasAccount e) (exec (insert_workspace_row time id resource))
  workspace_row-HasAccount e time id resource =
      exec-HasAccount e _ (λ t t' x. (insert_workspace_row-SameLog time id resource t t' x).0)

  insert_user-HasAccount : (e u d m r : String) → Keeps (HasAccount e) (insert_user u d m r "")
  unfolding insert_user insert_user_with
  insert_user-HasAccount e u d m r =
      search
        (
          keeps_rules, Keeps-exec, as_conflict-Keeps, insert_user_row-HasAccount,
          credential_row-HasAccount, workspace_row-HasAccount,
        )
        depth 12

  made-HasAccount :
      (u d m r : String)
      → has_email m (null_if_empty m) ≡ true
      → Ensures (λ _. Unit {0}) (insert_user u d m r "") (λ _. HasAccount m)
  unfolding insert_user insert_user_with
  made-HasAccount u d m r given =
      Ensures-bind (λ _ _. Unit {0}) _ _ _ Ensures-new_uuid
        λ id.
          Ensures-bind (λ _ _. Unit {0}) _ _ _ Ensures-now
            λ time.
              Ensures-bind (λ _. HasAccount m) _ _ _
                (Ensures-as_conflict _ _ (
                  Ensures-exec _ _
                    (λ t t' _ h. new_row-HasAccount m (new_user_row id time u d m r) t t' given h)))
                λ _.
                  Ensures-bind (λ _. HasAccount m) _ _ _
                    (Ensures-of_Keeps _ (Keeps-when _ _ (credential_row-HasAccount m time id "")))
                    λ _.
                      Ensures-bind (λ _. HasAccount m) _ _ _
                        (Ensures-of_Keeps _ (workspace_row-HasAccount m time id _))
                        λ _. record { at = λ w p. p }

  provision_found-HasAccount :
      (e a : String) (input : ProvisionUserInput) (o : Option UserRow)
      → Keeps (HasAccount e) (provision_found a input o)
  unfolding provision_found
  provision_found-HasAccount e a input none =
      search (keeps_rules, insert_user-HasAccount, finish_provision-HasAccount)
  provision_found-HasAccount e a input (some r) =
      search (keeps_rules, update_returning-HasAccount, finish_provision-HasAccount) depth 9

  -- The account of another seed stays.
  pub provision_user_keeps :
      (e a : String) (input : ProvisionUserInput) → Keeps (HasAccount e) (provision_user a input)
  unfolding provision_user provision_body
  provision_user_keeps e a input =
      Keeps-transaction _ (Ensures-of_Keeps _ (search (keeps_rules, provision_found-HasAccount)))

  found_or_made :
      (a : String) (input : ProvisionUserInput) (o : Option UserRow)
      → has_email input.email (null_if_empty input.email) ≡ true
      → Ensures
          (λ t. first_user (λ r. has_email input.email r.email) t.users ≡ o)
          (provision_found a input o)
          (λ _. HasAccount input.email)
  unfolding provision_found
  found_or_made a input none given = record {
    at = λ w p.
        (Ensures-bind {P = λ _. Unit {0}} (λ _. HasAccount input.email) _ _ _
            (made-HasAccount _ _ input.email _ given)
            (λ u. Ensures-of_Keeps _ (finish_provision-HasAccount input.email a input u))).at
          w tt;
  }
  found_or_made a input (some r) given = record {
    at = λ w p.
        (Ensures-of_Keeps _ (provision_found-HasAccount input.email a input (some r))).at w
          (some_of-found _ w.tables.users r p);
  }

  -- Once ProvisionUser has returned, an account has the address.
  pub provision_user-HasAccount :
      (a : String) (input : ProvisionUserInput)
      → has_email input.email (null_if_empty input.email) ≡ true
      → Ensures (λ _. Unit {0}) (provision_user a input) (λ _. HasAccount input.email)
  unfolding provision_user provision_body
  provision_user-HasAccount a input given = Ensures-transaction _ _ _ (
      Ensures-bind (λ o t. first_user (λ r. has_email input.email r.email) t.users ≡ o) _ _ _
        (Ensures-query _ _ (λ t o _ h. ok_injective h)) (λ o. found_or_made a input o given))
