-- ===== src/Database/Spared/Provisioned.antt =====
-- The account that acts, after ProvisionUser.
use opencode_workspaces.Prelude.{
  ℕ, ◌≡◌, refl, sym, ap, subst, ◌∙◌, ◌⊎◌, inl, inr, String, false, not, ◌&&◌, Option, none, some,
  List, [], ◌∷◌, ◌++◌, arith, ◌==◌, string_eq, Bool-cases, Option-cases, some_of,
}
use opencode_workspaces.Model.{User}
use opencode_workspaces.Env.{Env, UuidLaws}
use opencode_workspaces.Rows.{find}
use opencode_workspaces.Rows.Laws.{find_key}
use opencode_workspaces.Tables.{Tables, UserRow}
use opencode_workspaces.World.{
  not_found, conflict, already_bootstrapped, duplicate_key, missing, failed, Result, ok, err, World,
  pure, ◌>>◌, attempt, exec, lift, when,
}
use opencode_workspaces.World.Keeps.{
  Post, Keeps, Keeps-exec, Ensures, Ensures-bind, Ensures-exec, Ensures-now, Ensures-new_uuid,
  Ensures-query, keeps_rules, ok_injective,
}
use opencode_workspaces.World.Keeps.Transactions.{Ensures-of_Keeps}
use opencode_workspaces.World.Keeps.{Keeps-transaction}
use opencode_workspaces.Database.Sql.{
  user_key, with_uuid, with_id, references_user?, new_audit_row, clashes, canonical,
  insert_user_row, user_of, insert_audit_row,
}
use opencode_workspaces.Database.Users.{
  ProvisionUserInput, found_user, as_conflict, new_user, new_user_row, insert_user,
  insert_user_with, update_returning, finish_provision, provision_found, provision_body,
  provision_user, disabled_row, audit,
}
use opencode_workspaces.Database.Sound.Rules.{
  with_uuid-eq-ok, references_user?-eq-ok, with_null_uuid-eq-ok,
}
use opencode_workspaces.Database.Sound.Accounts.{update_user_row-Updated}
use opencode_workspaces.Database.Grows.{insert_workspace_row-SameLog}
use opencode_workspaces.Database.Spared.{
  IsActor, Spares, of_users-IsActor, modify-IsActor, first_user-canonical, unclashed,
  insert-IsActor,
}

module _ ⦃env : Env⦄ where
  -- The id is canonical, and not the one of the account that acts.
  abbrev IsOther : String → String → Type 0
  IsOther a k = ((k == a) ≡ false) × (env.parse_uuid k ≡ some k)

  -- A statement that leaves the accounts alone.
  pub exec-IsActor :
      (a : String) (f : Tables → Result Tables)
      → ((t t' : Tables) → f t ≡ ok t' → t.users ≡ t'.users)
      → Keeps (IsActor a) (exec f)
  exec-IsActor a f h = Keeps-exec f (λ t t' v e. of_users-IsActor a t t' (h t t' e) v)

  pub insert_audit_row-users :
      (id time : ℕ) (a b c d e x : String) (t t' : Tables)
      → insert_audit_row id time a b c d e x t ≡ ok t'
      → t.users ≡ t'.users
  unfolding insert_audit_row
  insert_audit_row-users id time a b c d e x t t' h =
      let f : Option String → Result Tables = λ o. references_user? o t (
        ok
          (record t { audit_events = t.audit_events ++ new_audit_row id time b c d e x o ∷ [] })) in
      let (o, h₁) = with_null_uuid-eq-ok a f t' h in
      ap (λ (x : Tables). x.users) (ok_injective (references_user?-eq-ok o t _ t' h₁))

  pub audit-IsActor : (a : String) (b c d e f g : String) → Keeps (IsActor a) (audit b c d e f g)
  unfolding audit
  audit-IsActor a b c d e f g = search (keeps_rules, exec-IsActor, insert_audit_row-users) depth 10

  found_user-id :
      (id k : String) (rows : List UserRow) (u : User)
      → env.parse_uuid id ≡ some k
      → with_uuid id (λ j. found_user (find user_key j rows)) ≡ ok u
      → u.id ≡ k
  unfolding user_of
  found_user-id id k rows u parsed e =
      let (j, parsed', e₁) = with_uuid-eq-ok id (λ j. found_user (find user_key j rows)) u e in
      let same : j ≡ k = ground arith in
      elim (Option-cases (find user_key j rows)) [
        | inl absent ↦ absurd (ground arith)
        | inr (r, found) ↦
            let this : user_of r ≡ u = ok_injective (ap found_user (sym found) ∙ e₁) in
            ap (λ (x : User). x.id) (sym this) ∙ find_key user_key j rows r found ∙ same
      ]

  lifted-Post :
      (a k : String) (r : Result User) (w : World)
      → IsActor a w.tables
      → ((u : User) → r ≡ ok u → u.id ≡ k)
      → Post (λ u t. IsActor a t × (u.id ≡ k)) (lift r w)
  lifted-Post a k (ok u) w v h = (v, h u refl)
  lifted-Post a k (err e) w v h = tt

  update_returning-IsActor :
      (a id k : String) (f : UserRow → UserRow)
      → env.parse_uuid id ≡ some k
      → ((r : UserRow) → (f r).id ≡ r.id)
      → Spares a k f
      → Ensures (IsActor a) (update_returning id f) (λ u t. IsActor a t × (u.id ≡ k))
  unfolding update_returning
  update_returning-IsActor a id k f parsed same s =
      Ensures-bind (λ _. IsActor a) _ _ _
        (Ensures-exec _ _ (λ t t' v e.
          let u = update_user_row-Updated id f t t' e in
          let key : u.key ≡ k = ground arith in
          subst (IsActor a) u.written
            (modify-IsActor a u.key f t same (subst (λ x. Spares a x f) (sym key) s) v)))
        λ _.
          Ensures-bind (λ x t. IsActor a t) _ _ _ (record { at = λ w v. v })
            λ x. record {
              at = λ w v. lifted-Post a k _ w v (λ u e. found_user-id id k x.users u parsed e);
            }

  audited-IsActor :
      (a b : String) (v : User)
      → Keeps (IsActor a) (do audit b "user.provision" "user" v.id "{}" ""; pure v)
  audited-IsActor a b v = search (keeps_rules, audit-IsActor)

  -- The account that finishes is another one, or it is not to be disabled.
  finish_provision-IsActor :
      (a b : String) (input : ProvisionUserInput) (u : User)
      → (input.disabled ≡ false) ⊎ IsOther a u.id
      → Ensures (IsActor a) (finish_provision b input u) (λ _. IsActor a)
  unfolding finish_provision
  finish_provision-IsActor a b input u (inl stays) =
      rw stays (Ensures-of_Keeps _ (audited-IsActor a b u))
  finish_provision-IsActor a b input u (inr (other, parsed)) =
      elim (Bool-cases (input.disabled && not u.disabled)) [
        | inl disables ↦ rw disables (
            Ensures-bind (λ _. IsActor a) _ _ _ Ensures-now
              λ time.
                Ensures-bind (λ v t. IsActor a t × (v.id ≡ u.id)) _ _ _
                  (update_returning-IsActor a u.id u.id (disabled_row time) parsed (λ r. refl)
                    (inl other))
                  λ v. record { at = λ w q. (Ensures-of_Keeps _ (audited-IsActor a b v)).at w q.0 })
        | inr keeps ↦ rw keeps (Ensures-of_Keeps _ (audited-IsActor a b u))
      ]

  as_conflict-Post :
      (Q : Tables → Type 0) (r : Result (Unit {0}) × World)
      → Post (λ _. Q) r
      → Post (λ _. Q) (as_conflict r.0 r.1)
  as_conflict-Post Q (ok u, w) q = q
  as_conflict-Post Q (err not_found, w) q = tt
  as_conflict-Post Q (err conflict, w) q = tt
  as_conflict-Post Q (err already_bootstrapped, w) q = tt
  as_conflict-Post Q (err duplicate_key, w) q = tt
  as_conflict-Post Q (err missing, w) q = tt
  as_conflict-Post Q (err (failed message), w) q = tt

  inserted-IsActor :
      (a : String) (r : UserRow)
      → UuidLaws env
      → Ensures
          (IsActor a)
          (attempt (exec (insert_user_row r)) as_conflict)
          (λ _ t. IsActor a t × IsOther a (canonical r.id))
  unfolding attempt
  inserted-IsActor a r laws =
      let row : Ensures (IsActor a) (exec (insert_user_row r))
          (λ _ t. IsActor a t × IsOther a (canonical r.id)) =
        Ensures-exec _ _ (λ t t' v e.
          unfold insert_user_row in
          let (k, parsed, e₁) = with_uuid-eq-ok r.id _ t' e in
          let here : canonical r.id ≡ k = rw parsed refl in
          let written : record t { users = t.users ++ with_id r k ∷ [] } ≡ t' = ground arith in
          let free : some_of (clashes (with_id r k)) t.users ≡ false = ground arith in
          let same = laws.canonical r.id k parsed in
          (
            subst (IsActor a) written (insert-IsActor a (with_id r k) t same v),
            subst (IsOther a) (sym here)
                (unclashed (with_id r k) a t.users v.row v.found free, same),
          )) in
      record { at = λ w v. as_conflict-Post _ (exec (insert_user_row r) w) (row.at w v) }

  insert_user-IsActor :
      (a name display email role : String)
      → UuidLaws env
      → Ensures
          (IsActor a)
          (insert_user name display email role "")
          (λ u t. IsActor a t × IsOther a u.id)
  unfolding insert_user insert_user_with new_user user_of when
  insert_user-IsActor a name display email role laws =
      Ensures-bind (λ _. IsActor a) _ _ _ Ensures-new_uuid
        λ id.
          Ensures-bind (λ _. IsActor a) _ _ _ Ensures-now
            λ time.
              Ensures-bind _ _ _ _
                (inserted-IsActor a (new_user_row id time name display email role) laws)
                λ _. record {
                  at = λ w q.
                      (Ensures-bind {P = IsActor a} (λ _. IsActor a) _ _ _
                          (record { at = λ w v. v })
                          λ _.
                            Ensures-bind (λ _. IsActor a) _ _ _
                              (Ensures-of_Keeps _ (
                                exec-IsActor a _
                                  (λ t t' e. (insert_workspace_row-SameLog time id _ t t' e).0)))
                              (λ _. record { at = λ w v. (v, q.1) })).at
                        w q.0;
                }

  provision_found-IsActor :
      (a : String) (input : ProvisionUserInput) (o : Option UserRow)
      → UuidLaws env
      → ((r : UserRow) → o ≡ some r → env.parse_uuid r.id ≡ some r.id)
      → Ensures (IsActor a) (provision_found a input o) (λ _. IsActor a)
  unfolding provision_found
  provision_found-IsActor a input none laws h =
      Ensures-bind (λ u t. IsActor a t × IsOther a u.id) _ _ _ (insert_user-IsActor a _ _ _ _ laws)
        λ u. record { at = λ w q. (finish_provision-IsActor a a input u (inr q.1)).at w q.0 }
  provision_found-IsActor a input (some r) laws h =
      Ensures-bind (λ _. IsActor a) _ _ _ Ensures-now
        λ time. elim (Bool-cases (r.id == a)) [
          | inl here ↦ rw here (
              Ensures-bind (λ u t. IsActor a t × (u.id ≡ r.id)) _ _ _
                (update_returning-IsActor a r.id r.id _ (h r refl) (λ x. refl)
                  (inr (λ x. (refl, refl))))
                λ u. record { at = λ w q. (finish_provision-IsActor a a _ u (inl refl)).at w q.0 })
          | inr other ↦ rw other (
              Ensures-bind (λ u t. IsActor a t × (u.id ≡ r.id)) _ _ _
                (update_returning-IsActor a r.id r.id _ (h r refl) (λ x. refl) (inl other))
                λ u. record {
                  at = λ w q.
                      (finish_provision-IsActor a a input u
                          (inr (subst (IsOther a) (sym q.1) (other, h r refl)))).at
                        w q.0;
                })
        ]

  -- The account that acts is an enabled administrator after ProvisionUser as before it, whatever the
  -- input is and whether it returns or fails.
  pub provision_user-IsActor :
      (a : String) (input : ProvisionUserInput)
      → UuidLaws env
      → Keeps (IsActor a) (provision_user a input)
  unfolding provision_user provision_body
  provision_user-IsActor a input laws = Keeps-transaction _ (
      Ensures-bind
        (λ o t. IsActor a t × ((r : UserRow) → o ≡ some r → env.parse_uuid r.id ≡ some r.id)) _ _ _
        (Ensures-query _ _ (λ t o v e.
          (v, λ r x. first_user-canonical _ t.users r v.canonical (ok_injective e ∙ x))))
        (λ o. record { at = λ w q. (provision_found-IsActor a input o laws q.1).at w q.0 }))
