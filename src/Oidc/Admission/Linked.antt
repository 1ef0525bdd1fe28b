-- ===== src/Oidc/Admission/Linked.antt =====
-- The identity under which an account signs in, after what Callback does in the store.
use opencode_workspaces.Prelude.{
  ℕ, ◌≡◌, refl, sym, ap, subst, ◌∙◌, ◌⊎◌, inl, inr, String, Bool, true, false, ◌&&◌, ◌||◌, Option,
  none, some, List, [], ◌∷◌, ◌++◌, arith, ◌==◌, string_eq, str_iff, some_of, if◌then◌else◌,
  Option-cases, Bool-cases, get_or,
}
use opencode_workspaces.Model.{User, OidcSettings}
use opencode_workspaces.Env.{Env}
use opencode_workspaces.Rows.{find}
use opencode_workspaces.Rows.Laws.{find_key}
use opencode_workspaces.Tables.{Tables, UserRow, IdentityRow}
use opencode_workspaces.World.{Result, ok, err, not_found, World, attempt}
use opencode_workspaces.World.Keeps.{
  Post, Ensures, Ensures-bind, Ensures-exec, Ensures-query, Ensures-now, Keeps-new_uuid, Keeps-when,
  Keeps, Keeps-exec, Keeps-require, ok_injective, keeps_rules,
}
use opencode_workspaces.World.Keeps.Transactions.{Ensures-transaction, Ensures-of_Keeps, Post_at}
use opencode_workspaces.World.Steps.{query_ok, pure_ok, attempt_ok}
use opencode_workspaces.Database.Sql.{
  user_key, user_of, references_user?, references_user, new_audit_row, new_identity_row,
  insert_audit_row, insert_identity_row, same_lower, has_email, null_if_empty,
}
use opencode_workspaces.Prelude.Strings.{trim_space}
use opencode_workspaces.Database.Users.{
  found_user, audit, first_user, or_not_found, insert_user, insert_user_with, new_user,
}
use opencode_workspaces.Database.Identities.{
  find_identity, identity_user, oidc_user, link_body, link_oidc_user_by_email, provision_oidc_body,
  provision_oidc_user,
}
use opencode_workspaces.Database.Sound.Rules.{
  with_uuid-eq-ok, with_null_uuid-eq-ok, references_user-eq-ok, references_user?-eq-ok,
}
use opencode_workspaces.Database.Sound.Methods.{Ensures-as_conflict}
use opencode_workspaces.Oidc.Flows.{Claims, Provider}
use opencode_workspaces.Oidc.Login.{provision_login, link_or_provision, after_link, after_lookup}

-- A row under a new issuer and subject is found under them.
find_identity-concat :
    (issuer subject k : String) (rows : List IdentityRow) (r : IdentityRow)
    → some_of (λ i. i.issuer == issuer && (i.subject == subject || i.user_id == k)) rows ≡ false
    → r.issuer ≡ issuer
    → r.subject ≡ subject
    → find_identity issuer subject (rows ++ r ∷ []) ≡ some r
unfolding find_identity
find_identity-concat issuer subject k [] r h e e' =
    ground (arith, str_iff r.issuer issuer, str_iff r.subject subject)
find_identity-concat issuer subject k (x ∷ rows) r h e e' =
    ground (arith, find_identity-concat issuer subject k rows r)

module _ ⦃env : Env⦄ where
  -- The identity of the issuer and the subject belongs to the account with the id.
  pub record IsLinked (issuer subject id : String) (t : Tables) : Type 0 where
    pub identity : IdentityRow
    pub found : find_identity issuer subject t.identities ≡ some identity
    pub owner : (identity.user_id ≡ id) ⊎ (env.parse_uuid id ≡ some identity.user_id)

  -- The account has the address, as it is or up to lower case and blanks around it.
  abbrev pub HasAddress : User → String → Type 0
  HasAddress u email = (u.email ≡ email) ⊎ (same_lower u.email (trim_space email) ≡ true)

  abbrev pub Known : String → String → User → String → Tables → Type 0
  Known issuer subject u email t = IsLinked issuer subject u.id t × HasAddress u email

  first_user_holds :
      (p : UserRow → Bool) (rows : List UserRow) (r : UserRow)
      → first_user p rows ≡ some r
      → p r ≡ true
  unfolding first_user
  first_user_holds p [] r h = absurd (ground arith)
  first_user_holds p (x ∷ rows) r h = elim (Bool-cases (p x)) [
    | inl here ↦ ground arith
    | inr other ↦ first_user_holds p rows r (ground arith)
  ]

  has_email-HasAddress :
      (r : UserRow) (email : String)
      → has_email (trim_space email) r.email ≡ true
      → HasAddress (user_of r) email
  unfolding has_email user_of
  has_email-HasAddress r email h = inr (go r.email h)
    where
      go :
          (o : Option String)
          → has_email (trim_space email) o ≡ true
          → same_lower (get_or o "") (trim_space email) ≡ true
      go none h' = absurd (ground arith)
      go (some e) h' = h'

  found_by_email :
      (email : String) (rows : List UserRow) (r : UserRow)
      → or_not_found (first_user (λ x. has_email (trim_space email) x.email) rows) ≡ ok r
      → HasAddress (user_of r) email
  found_by_email email rows r h =
      elim (Option-cases (first_user (λ x. has_email (trim_space email) x.email) rows)) [
        | inl absent ↦ absurd (ground arith)
        | inr (x, found) ↦
            let same : x ≡ r = ground arith in
            has_email-HasAddress r email (
              first_user_holds (λ x. has_email (trim_space email) x.email) rows r
                (found ∙ ap some same))
      ]

  named_email : (email : String) → get_or (null_if_empty email) "" ≡ email
  named_email email = ground (arith, str_iff email "")

  insert_user-HasAddress :
      (username display_name email role : String)
      → Ensures
          (λ _. Unit {0})
          (insert_user username display_name email role "")
          (λ (u : User) _. HasAddress u email)
  unfolding insert_user insert_user_with new_user user_of
  insert_user-HasAddress username display_name email role =
      Ensures-bind (λ _ _. Unit {0}) _ _ _ (Ensures-of_Keeps _ Keeps-new_uuid)
        λ id.
          Ensures-bind (λ _ _. Unit {0}) _ _ _ Ensures-now
            λ time.
              Ensures-bind (λ _ _. Unit {0}) _ _ _
                (Ensures-as_conflict _ _ (Ensures-exec _ _ (λ t t' _ h. tt)))
                λ _.
                  Ensures-bind (λ _ _. Unit {0}) _ _ _
                    (Ensures-of_Keeps _ (Keeps-when _ _ (Keeps-exec _ (λ t t' p h. p))))
                    λ _.
                      Ensures-bind (λ _ _. Unit {0}) _ _ _ (Ensures-exec _ _ (λ t t' _ h. tt))
                        λ _. record { at = λ w p. inl (named_email email) }

  module _ (issuer subject : String) where
    insert_identity_row-IsLinked :
        (time : ℕ) (id : String) (email : Option String) (t t' : Tables)
        → insert_identity_row time issuer subject id email t ≡ ok t'
        → IsLinked issuer subject id t'
    unfolding insert_identity_row
    insert_identity_row-IsLinked time id email t t' h =
        let (k, parsed, e) = with_uuid-eq-ok id _ t' h in
        let row : IdentityRow = new_identity_row time issuer subject k email in
        let t₁ : Tables = record t { identities = t.identities ++ row ∷ [] } in
        let free : some_of (λ i. i.issuer == issuer && (i.subject == subject || i.user_id == k))
              t.identities
            ≡ false =
          ground arith in
        let e₁ : references_user k t (ok t₁) ≡ ok t' = ground arith in
        let written = ok_injective (references_user-eq-ok k t (ok t₁) t' e₁).1 in
        subst (IsLinked issuer subject id) written (record {
          identity = row;
          found = find_identity-concat issuer subject k t.identities row free refl refl;
          owner = inr parsed;
        })

    insert_audit_row-IsLinked :
        (id : String) (n time : ℕ) (a b c d e x : String) (t t' : Tables)
        → IsLinked issuer subject id t
        → insert_audit_row n time a b c d e x t ≡ ok t'
        → IsLinked issuer subject id t'
    unfolding insert_audit_row
    insert_audit_row-IsLinked id n time a b c d e x t t' linked h =
        let f : Option String → Result Tables = λ o. references_user? o t (
          ok (record t {
            audit_events = t.audit_events ++ new_audit_row n time b c d e x o ∷ [];
          })) in
        let (o, h₁) = with_null_uuid-eq-ok a f t' h in
        subst (IsLinked issuer subject id) (ok_injective (references_user?-eq-ok o t _ t' h₁))
          (record { identity = linked.identity; found = linked.found; owner = linked.owner })

    audit-IsLinked :
        (id a b c d e x : String) → Keeps (IsLinked issuer subject id) (audit a b c d e x)
    unfolding audit
    audit-IsLinked id a b c d e x = search (keeps_rules, Keeps-exec, insert_audit_row-IsLinked)

    audit-Known :
        (u : User) (email a b c d e x : String)
        → Keeps (Known issuer subject u email) (audit a b c d e x)
    audit-Known u email a b c d e x = record {
      at = λ w p. ((audit-IsLinked u.id a b c d e x).at w p.0, p.1);
    }

    link-IsLinked :
        (email remote : String)
        → Ensures
            (λ _. Unit {0})
            (link_oidc_user_by_email issuer subject email remote)
            (λ (u : User). Known issuer subject u email)
    unfolding link_oidc_user_by_email link_body user_of
    link-IsLinked email remote = Ensures-transaction _ _ _ (
        Ensures-bind (λ row _. HasAddress (user_of row) email) _ _ _
          (Ensures-query _ _ (λ t row _ h. found_by_email email t.users row h))
          λ row.
            Ensures-bind (λ _ _. HasAddress (user_of row) email) _ _ _
              (Ensures-of_Keeps _ (Keeps-require _ _))
              λ _.
                Ensures-bind (λ _ _. HasAddress (user_of row) email) _ _ _ Ensures-now
                  λ time.
                    Ensures-bind (λ _. Known issuer subject (user_of row) email) _ _ _
                      (Ensures-as_conflict _ _ (
                        Ensures-exec _ _ (λ t t' a h.
                          (insert_identity_row-IsLinked time row.id (some email) t t' h, a))))
                      λ _.
                        Ensures-bind (λ _. Known issuer subject (user_of row) email) _ _ _
                          (Ensures-of_Keeps _ (audit-Known (user_of row) email _ _ _ _ _ _))
                          λ _. record { at = λ w p. p })

    provision-IsLinked :
        (username display_name email role remote : String)
        → Ensures
            (λ _. Unit {0})
            (provision_oidc_user issuer subject username display_name email role remote)
            (λ (u : User) t. IsLinked issuer subject u.id t × HasAddress u email)
    unfolding provision_oidc_user provision_oidc_body
    provision-IsLinked username display_name email role remote = Ensures-transaction _ _ _ (
        Ensures-bind (λ u _. HasAddress u email) _ _ _
          (insert_user-HasAddress username display_name email role)
          λ user.
            Ensures-bind (λ _ _. HasAddress user email) _ _ _ Ensures-now
              λ time.
                Ensures-bind (λ _. Known issuer subject user email) _ _ _
                  (Ensures-exec _ _ (λ t t' a h.
                    (insert_identity_row-IsLinked time user.id (null_if_empty email) t t' h, a)))
                  λ _.
                    Ensures-bind (λ _. Known issuer subject user email) _ _ _
                      (Ensures-of_Keeps _ (audit-Known user email _ _ _ _ _ _))
                      λ _. record { at = λ w p. p })

  -- The account was linked before and nothing changes, or it is linked now and has the address.
  abbrev pub Admits : OidcSettings → Claims → User → Tables → Tables → Type 0
  Admits s c u t t' =
      (IsLinked s.issuer c.subject u.id t × (t' ≡ t)) ⊎ Known s.issuer c.subject u c.email t'

  module _ ⦃provider : Provider⦄ (s : OidcSettings) (c : Claims) (remote : String) where
    provision_login-IsLinked :
        Ensures
          (λ _. Unit {0})
          (provision_login s c remote)
          (λ (u : User). Known s.issuer c.subject u c.email)
    unfolding provision_login
    provision_login-IsLinked =
        Ensures-bind (λ _ _. Unit {0}) _ _ _ (Ensures-of_Keeps _ (Keeps-require _ _))
          λ _. provision-IsLinked s.issuer c.subject _ _ c.email _ remote

    after_link-IsLinked :
        (r : Result User × World)
        → Post (λ u. Known s.issuer c.subject u c.email) r
        → Post (λ u. Known s.issuer c.subject u c.email) (after_link s c remote r.0 r.1)
    after_link-IsLinked (ok u, w) p = p
    after_link-IsLinked (err not_found, w) p = provision_login-IsLinked.at w tt
    after_link-IsLinked (err _, w) p = tt

    link_or_provision-IsLinked :
        Ensures
          (λ _. Unit {0})
          (link_or_provision s c remote)
          (λ (u : User). Known s.issuer c.subject u c.email)
    unfolding link_or_provision attempt
    link_or_provision-IsLinked = record { at = λ w p. go s.link_by_email w }
      where
        go :
            (b : Bool) (w : World)
            → Post
                (λ (u : User). Known s.issuer c.subject u c.email)
                ((if b
                    then attempt
                        (link_oidc_user_by_email s.issuer c.subject c.email remote)
                        (after_link s c remote)
                    else provision_login s c remote)
                  w)
        go true w =
            after_link-IsLinked (link_oidc_user_by_email s.issuer c.subject c.email remote w)
              ((link-IsLinked s.issuer c.subject c.email remote).at w tt)
        go false w = provision_login-IsLinked.at w tt

    found_identity :
        (t : Tables) (o : Option IdentityRow) (u : User)
        → find_identity s.issuer c.subject t.identities ≡ o
        → found_user (identity_user t.users o) ≡ ok u
        → IsLinked s.issuer c.subject u.id t
    unfolding user_of
    found_identity t none u h e = absurd (ground arith)
    found_identity t (some i) u h e = elim (Option-cases (find user_key i.user_id t.users)) [
      | inl absent ↦ absurd (ground arith)
      | inr (r, found) ↦
          let same : user_of r ≡ u = ok_injective (ap found_user (sym found) ∙ e) in
          record {
            identity = i;
            found = h;
            owner =
                inl (
                  sym (find_key user_key i.user_id t.users r found) ∙ ap (λ (x : User). x.id) same);
          }
    ]

    pub oidc_user-Admits :
        (w w' : World) (u : User)
        → attempt (oidc_user s.issuer c.subject) (after_lookup s c remote) w ≡ (ok u, w')
        → Admits s c u w.tables w'.tables
    unfolding oidc_user
    oidc_user-Admits w w' u h =
        go (oidc_user s.issuer c.subject w) refl (attempt_ok _ (after_lookup s c remote) w w' u h)
      where
        go :
            (r : Result User × World)
            → oidc_user s.issuer c.subject w ≡ r
            → after_lookup s c remote r.0 r.1 ≡ (ok u, w')
            → Admits s c u w.tables w'.tables
        go (ok v, w₁) e k =
            let (same, world) = pure_ok v u w₁ w' k in
            let (read, kept) = query_ok _ w w₁ v e in
            inl (
              found_identity w.tables _ u refl (read ∙ ap ok same),
              ap (λ (x : World). x.tables) (sym world) ∙ kept.0,
            )
        go (err not_found, w₁) e k = inr (Post_at _ _ u w' (link_or_provision-IsLinked.at w₁ tt) k)
        go (err _, w₁) e k = absurd (ground arith)
