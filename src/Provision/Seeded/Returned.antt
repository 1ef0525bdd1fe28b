-- ===== src/Provision/Seeded/Returned.antt =====
-- A provisioning that returns, from the manifest to the tables that it leaves.
use opencode_workspaces.Prelude.{
  ℕ, suc, ◌+◌, ◌≡◌, refl, sym, ap, subst, ◌∙◌, Bool, true, false, not, ◌&&◌, Option, none, some,
  List, [], ◌∷◌, String, All, length, arith, ◌==◌, string_eq, is_some, some_of, str_iff, Bool-cases,
  inl, inr,
}
use opencode_workspaces.Prelude.Strings.{trim_space, has_char}
use opencode_workspaces.Model.{Bytes}
use opencode_workspaces.Env.{Env}
use opencode_workspaces.Tables.{Tables}
use opencode_workspaces.World.{Result, ok, World, exec}
use opencode_workspaces.World.Keeps.{Keeps, Keeps-bind, Keeps-pure, Keeps-require}
use opencode_workspaces.World.Keeps.Transactions.{stable_rules, Post_at}
use opencode_workspaces.World.Steps.{bind_ok, pure_ok, require_ok}
use opencode_workspaces.Database.Vault.{encrypt}
use opencode_workspaces.Database.Sql.{has_email, same_lower, null_if_empty, is_role}
use opencode_workspaces.Database.Workspaces.{
  set_workspace_configuration, set_configuration_body, upsert_configuration_row,
}
use opencode_workspaces.Database.Settings.{
  set_setting, set_setting_body, stored_value, upsert_setting_row,
}
use opencode_workspaces.Database.Grows.{
  upsert_configuration_row-SameLog, upsert_setting_row-SameLog,
}
use opencode_workspaces.Oidc.Flows.{Provider}
use opencode_workspaces.Oidc.Settings.{save}
use opencode_workspaces.Server.Pages.{is_username}
use opencode_workspaces.Provision.{
  UserSeed, OidcSeed, Manifest, Provisioned, is_one, trimmed, is_named, has_role, input_of,
  provision_seed, provision_seeds, provision_oidc, provision,
}
use opencode_workspaces.Provision.Seeded.Acting.{is_acting, listed_admin}
use opencode_workspaces.Provision.Seeded.{
  HasAccount, exec-HasAccount, audit-HasAccount, provision_user_keeps, provision_user-HasAccount,
}

module _ ⦃env : Env⦄ where
  configuration_row-HasAccount :
      (e : String) (time : ℕ) (id c k : String)
      → Keeps (HasAccount e) (exec (upsert_configuration_row time id c k))
  configuration_row-HasAccount e time id c k =
      exec-HasAccount e _ (λ t t' x. (upsert_configuration_row-SameLog time id c k t t' x).0)

  setting_row-HasAccount :
      (e : String) (time : ℕ) (b k : String) (v : Bytes) (c : Bool)
      → Keeps (HasAccount e) (exec (upsert_setting_row time b k v c))
  setting_row-HasAccount e time b k v c =
      exec-HasAccount e _ (λ t t' x. (upsert_setting_row-SameLog time b k v c t t' x).0)

  ruleset account_rules =
      (stable_rules, configuration_row-HasAccount, setting_row-HasAccount, audit-HasAccount)

  set_workspace_configuration-HasAccount :
      (e b u : String) (j : Bytes) (k : String)
      → Keeps (HasAccount e) (set_workspace_configuration b u j k)
  unfolding set_workspace_configuration set_configuration_body encrypt
  set_workspace_configuration-HasAccount e b u j k = search account_rules depth 14

  set_setting-HasAccount :
      (e b k : String) (d : Bytes) (c : Bool) (x : String)
      → Keeps (HasAccount e) (set_setting b k d c x)
  unfolding set_setting set_setting_body stored_value encrypt
  set_setting-HasAccount e b k d c x = search account_rules depth 14

both_hold : (a b : Bool) → (a && b) ≡ true → (a ≡ true) × (b ≡ true)
both_hold a b h = ground arith

unnegated : (b : Bool) → not b ≡ true → b ≡ false
unnegated b h = ground arith

module _ ⦃env : Env⦄ where
  -- The seed has a username, an address and a role that the command takes, and an account has the
  -- address.
  pub record IsSeeded (s : UserSeed) (t : Tables) : Type 0 where
    pub named : is_username (trim_space s.username) ≡ true
    pub addressed : has_char b'@' (trim_space s.email) ≡ true
    pub roled : is_role s.role ≡ true
    pub account : HasAccount (trim_space s.email) t

  -- The version, an enabled administrator before it, an account for every seed after it, and a report
  -- that counts them.
  pub record IsProvisioned (m : Manifest) (t t' : Tables) (r : Provisioned) : Type 0 where
    pub version : is_one m.version ≡ true
    pub actor : some_of is_acting t.users ≡ true
    pub seeded : All (λ s. IsSeeded s t') m.users
    pub counted : r.provisioned_users ≡ length m.users
    pub oidc : r.oidc_configured ≡ is_some m.oidc

  addressed-has_email : (e : String) → has_char b'@' e ≡ true → has_email e (null_if_empty e) ≡ true
  unfolding has_email same_lower has_char
  addressed-has_email e h = elim (Bool-cases (e == "")) [
    | inl blank ↦ absurd (blank_has_none e ((str_iff e "").0 blank) h)
    | inr some_text ↦ rw some_text ((str_iff (env.sql_lower e) (env.sql_lower e)).1 refl)
  ]
    where
      blank_has_none : (e : String) → e ≡ "" → has_char b'@' e ≡ true → ⊥
      blank_has_none e same h' = ground (arith, subst (λ x. has_char b'@' x ≡ true) same h')

module _ ⦃env : Env⦄ ⦃provider : Provider⦄ where
  provision_oidc-HasAccount :
      (e b : String) (o : Option OidcSeed) → Keeps (HasAccount e) (provision_oidc b o)
  unfolding save
  provision_oidc-HasAccount e b none = Keeps-pure tt
  provision_oidc-HasAccount e b (some s) = search (account_rules, set_setting-HasAccount)

  provision_seeds-HasAccount :
      (e a : String) (n : ℕ) (seeds : List UserSeed)
      → Keeps (HasAccount e) (provision_seeds a n seeds)
  unfolding provision_seeds provision_seed
  provision_seeds-HasAccount e a n [] = Keeps-pure n
  provision_seeds-HasAccount e a n (s ∷ seeds) =
      Keeps-bind _ _
        (Keeps-bind _ _ (Keeps-require _ _) λ _. Keeps-bind _ _ (Keeps-require _ _) λ _.
          Keeps-bind _ _ (provision_user_keeps e a _)
            λ u. set_workspace_configuration-HasAccount e a u.id s.opencode_config s.api_key)
        (λ _. provision_seeds-HasAccount e a (suc n) seeds)

  provision_seed-IsSeeded :
      (a : String) (n : ℕ) (s : UserSeed) (w w' : World) (u : Unit {0})
      → provision_seed a n (trimmed s) w ≡ (ok u, w')
      → IsSeeded s w'.tables
  unfolding provision_seed is_named has_role is_role
  provision_seed-IsSeeded a n s w w' u h =
      let (_, w₁, h₁, k₁) = bind_ok _ _ w w' u h in
      let (_, w₂, h₂, k₂) = bind_ok _ _ w₁ w' u k₁ in
      let (user, w₃, h₃, k₃) = bind_ok _ _ w₂ w' u k₂ in
      let (named, addressed) =
        both_hold (is_username (trim_space s.username)) (has_char b'@' (trim_space s.email))
          (require_ok _ _ w w₁ tt h₁).0 in
      let e = trim_space s.email in
      let made =
        Post_at (λ _. HasAccount e) _ user w₃
          ((provision_user-HasAccount a (input_of (trimmed s)) (addressed-has_email e addressed)).at
            w₂ tt)
          h₃ in
      record {
        named = named;
        addressed = addressed;
        roled = (require_ok _ _ w₁ w₂ tt h₂).0;
        account =
            subst (λ (x : Result (Unit {0}) × World). HasAccount e x.1.tables) k₃
              ((set_workspace_configuration-HasAccount e a user.id s.opencode_config s.api_key).at
                w₃ made);
      }

  provision_seeds-IsSeeded :
      (a : String) (n : ℕ) (seeds : List UserSeed) (w w' : World) (k : ℕ)
      → provision_seeds a n seeds w ≡ (ok k, w')
      → All (λ s. IsSeeded s w'.tables) seeds × (k ≡ n + length seeds)
  unfolding provision_seeds
  provision_seeds-IsSeeded a n [] w w' k h = (tt, omega (arith, (pure_ok n k w w' h).0))
  provision_seeds-IsSeeded a n (s ∷ seeds) w w' k h =
      let (u, w₁, h₁, k₁) = bind_ok _ _ w w' k h in
      let (rest, count) = provision_seeds-IsSeeded a (suc n) seeds w₁ w' k k₁ in
      let first = provision_seed-IsSeeded a n s w w₁ u h₁ in
      let e = trim_space s.email in
      (
        (
          record {
            named = first.named;
            addressed = first.addressed;
            roled = first.roled;
            account =
                subst (λ (x : Result ℕ × World). HasAccount e x.1.tables) k₁
                  ((provision_seeds-HasAccount e a (suc n) seeds).at w₁ first.account);
          },
          rest,
        ),
        omega arith,
      )

  seeds_stay :
      (a : String) (o : Option OidcSeed) (seeds : List UserSeed) (w w' : World) (u : Unit {0})
      → provision_oidc a o w ≡ (ok u, w')
      → All (λ s. IsSeeded s w.tables) seeds
      → All (λ s. IsSeeded s w'.tables) seeds
  seeds_stay a o [] w w' u h v = tt
  seeds_stay a o (s ∷ seeds) w w' u h v =
      let e = trim_space s.email in
      (
        record {
          named = v.0.named;
          addressed = v.0.addressed;
          roled = v.0.roled;
          account =
              subst (λ (x : Result (Unit {0}) × World). HasAccount e x.1.tables) h
                ((provision_oidc-HasAccount e a o).at w v.0.account);
        },
        seeds_stay a o seeds w w' u h v.1,
      )

  -- A provisioning that returns had a manifest of version 1 and began with an enabled administrator
  -- in the database. Every seed has a username, an address and a role that it takes, after it an
  -- account has that address, up to lower case, and the report says how many seeds there are.
  pub provision-IsProvisioned :
      (m : Manifest) (w w' : World) (r : Provisioned)
      → provision m w ≡ (ok r, w')
      → IsProvisioned m w.tables w'.tables r
  unfolding provision
  provision-IsProvisioned m w w' r h =
      let (_, w₁, h₁, k₁) = bind_ok _ _ w w' r h in
      let (users, w₂, h₂, k₂) = bind_ok _ _ w₁ w' r k₁ in
      let (_, w₃, h₃, k₃) = bind_ok _ _ w₂ w' r k₂ in
      let (n, w₄, h₄, k₄) = bind_ok _ _ w₃ w' r k₃ in
      let (u, w₅, h₅, k₅) = bind_ok _ _ w₄ w' r k₄ in
      let (one, here) = require_ok _ _ w w₁ tt h₁ in
      let named = unnegated _ (require_ok _ _ w₂ w₃ tt h₃).0 in
      let (acting, _) = listed_admin w₁ w₂ users h₂ named in
      let (seeded, count) = provision_seeds-IsSeeded _ 0 m.users w₃ w₄ n h₄ in
      let (report, last) = pure_ok _ r w₅ w' k₅ in
      record {
        version = one;
        actor = subst (λ (x : World). some_of is_acting x.tables.users ≡ true) (sym here) acting;
        seeded =
            subst (λ (x : World). All (λ s. IsSeeded s x.tables) m.users) last
              (seeds_stay _ m.oidc m.users w₄ w₅ u h₅ seeded);
        counted = ap (λ (x : Provisioned). x.provisioned_users) (sym report) ∙ omega (arith, count);
        oidc = ap (λ (x : Provisioned). x.oidc_configured) (sym report);
      }
