-- ===== src/Kube/Reconcile/Kept.antt =====
-- Claims, which hold the data of the users, and passwords, before and after a reconciliation.
use opencode_workspaces.Prelude.{
  ◌≡◌, refl, sym, ap, subst, ◌∙◌, String, Option, none, some, List, [], ◌∷◌, ◌++◌, arith, ◌==◌,
  string_eq, str_iff, Bool-cases, inl, inr,
}
use opencode_workspaces.Model.{Bytes, Workspace, WorkspaceConfiguration}
use opencode_workspaces.Cluster.{Cluster, Claim, Secret}
use opencode_workspaces.Env.{Env}
use opencode_workspaces.Rows.{find, modify, upsert, remove}
use opencode_workspaces.Rows.Laws.{
  find_key, find-append, find-replaced, find-replaced_other, find-upsert, find-remove,
}
use opencode_workspaces.World.{World}
use opencode_workspaces.Kube.Objects.{Controller}
use opencode_workspaces.Kube.Reconcile.{
  claims, secrets, revised_secret, entry_key, set_entry, configured_entries, reconcile,
}
use opencode_workspaces.Kube.Reconcile.Lasts.{Lasts, reconcile-Leaves}

abbrev HasClaim : String → Claim → Cluster → Type 0
HasClaim name a c = find claims.name_of name c.claims ≡ some a

-- The secret of the name has the password.
pub record HasPassword (name : String) (password : Bytes) (c : Cluster) : Type 0 where
  pub secret : Secret
  pub found : find secrets.name_of name c.secrets ≡ some secret
  pub entry : find entry_key "password" secret.entries ≡ some ("password", password)

find_still :
    {A : Type 0} (key : A → String) (k : String) (rows : List A) (a r : A)
    → find key k rows ≡ some r
    → find key k (rows ++ a ∷ []) ≡ some r
find_still key k rows a r h = find-append key k rows (a ∷ []) ∙ rw h refl

HasClaim-Lasts : ⦃env : Env⦄ (name : String) (a : Claim) → Lasts (HasClaim name a)
HasClaim-Lasts name a = record {
  new_claim = λ b c p. find_still claims.name_of name c.claims b a p;
  new_secret = λ b c p. p;
  services = λ as' c p. p;
  deployments = λ as' c p. p;
  revised = λ n o s c h p. p;
}

module _ ⦃env : Env⦄ where
  configured_entries-password :
      (o : Option WorkspaceConfiguration) (entries : List (String × Bytes))
      → find entry_key "password" (configured_entries o entries) ≡ find entry_key "password" entries
  unfolding configured_entries set_entry
  configured_entries-password none entries =
      find-remove entry_key "password" "ai-gateway.key" (remove entry_key "opencode.json" entries)
      ∙ find-remove entry_key "password" "opencode.json" entries
  configured_entries-password (some c) entries =
      find-upsert entry_key "password" "ai-gateway.key" _
        (upsert entry_key "opencode.json" _ entries) (λ _. refl)
      ∙ find-upsert entry_key "password" "opencode.json" _ entries (λ _. refl)

  HasPassword-revised_same :
      (name : String) (password : Bytes) (o : Option WorkspaceConfiguration) (s : Secret)
      (c : Cluster)
      → find secrets.name_of name c.secrets ≡ some s
      → HasPassword name password c
      → HasPassword name password
          (secrets.put (modify secrets.name_of name (λ _. revised_secret o s) c.secrets) c)
  unfolding revised_secret
  HasPassword-revised_same name password o s c got p =
      let named : s.meta.name ≡ name = find_key secrets.name_of name c.secrets s got in
      let same : some s ≡ some p.secret = sym got ∙ p.found in
      let entries : s.entries ≡ p.secret.entries = ground arith in
      record {
        secret = revised_secret o s;
        found =
            find-replaced secrets.name_of (λ _. revised_secret o s) name c.secrets s (λ _. named)
              got;
        entry =
            configured_entries-password o s.entries
            ∙ ap (find entry_key "password") entries
            ∙ p.entry;
      }

  HasPassword-revised :
      (name : String) (password : Bytes) (n : String) (o : Option WorkspaceConfiguration)
      (s : Secret) (c : Cluster)
      → find secrets.name_of n c.secrets ≡ some s
      → HasPassword name password c
      → HasPassword name password
          (secrets.put (modify secrets.name_of n (λ _. revised_secret o s) c.secrets) c)
  unfolding revised_secret
  HasPassword-revised name password n o s c got p =
      let named : s.meta.name ≡ n = find_key secrets.name_of n c.secrets s got in
      elim (Bool-cases (n == name)) [
        | inl same ↦
            let key : n ≡ name = (str_iff n name).0 same in
            subst
              (λ k.
                HasPassword name password
                  (secrets.put (modify secrets.name_of k (λ _. revised_secret o s) c.secrets) c))
              (sym key)
              (HasPassword-revised_same name password o s c
                (subst (λ k. find secrets.name_of k c.secrets ≡ some s) key got) p)
        | inr other ↦ record {
          secret = p.secret;
          found =
              find-replaced_other secrets.name_of (λ _. revised_secret o s) name n c.secrets
                (λ _. named) other
              ∙ p.found;
          entry = p.entry;
        }
      ]

  HasPassword-Lasts : (name : String) (password : Bytes) → Lasts (HasPassword name password)
  HasPassword-Lasts name password = record {
    new_claim = λ b c p. record { secret = p.secret; found = p.found; entry = p.entry };
    new_secret = λ b c p. record {
      secret = p.secret;
      found = find_still secrets.name_of name c.secrets b p.secret p.found;
      entry = p.entry;
    };
    services = λ as' c p. record { secret = p.secret; found = p.found; entry = p.entry };
    deployments = λ as' c p. record { secret = p.secret; found = p.found; entry = p.entry };
    revised = λ n o s c got p. HasPassword-revised name password n o s c got p;
  }

  -- A reconciliation, whether it returns or fails, leaves every claim that exists as it is.
  pub reconcile_keeps_claims :
      (c : Controller) (w : Workspace) (W : World) (name : String) (a : Claim)
      → find claims.name_of name W.cluster.claims ≡ some a
      → find claims.name_of name (reconcile c w W).1.cluster.claims ≡ some a
  reconcile_keeps_claims c w W name a h = (reconcile-Leaves (HasClaim-Lasts name a) c w).at W h

  -- A reconciliation, whether it returns or fails, keeps the password in every secret, also where it
  -- writes a new configuration into it.
  pub reconcile_keeps_passwords :
      (c : Controller) (w : Workspace) (W : World) (name : String) (password : Bytes)
      → HasPassword name password W.cluster
      → HasPassword name password (reconcile c w W).1.cluster
  reconcile_keeps_passwords c w W name password h =
      (reconcile-Leaves (HasPassword-Lasts name password) c w).at W h
