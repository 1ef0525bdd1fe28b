-- ===== src/Kube/Reconcile/Lasts.antt =====
-- Properties of the cluster that every reconciliation keeps, whether it returns or fails.
use opencode_workspaces.Prelude.{
  ◌≡◌, subst, String, Bool, true, false, Option, none, some, List, [], ◌∷◌, ◌++◌, ◌==◌, string_eq,
  if◌then◌else◌,
}
use opencode_workspaces.Model.{Workspace, WorkspaceConfiguration}
use opencode_workspaces.Cluster.{Cluster, Claim, Secret, Service, Deployment}
use opencode_workspaces.Env.{Env}
use opencode_workspaces.Rows.{find, modify}
use opencode_workspaces.World.{
  Result, ok, err, missing, failed, not_found, conflict, already_bootstrapped, duplicate_key, pure,
  random_bytes, World, M,
}
use opencode_workspaces.World.Keeps.{ok_injective}
use opencode_workspaces.World.Api.{Kind, get, create, created, update, updated, label}
use opencode_workspaces.World.Leaves.{
  Leaves, Leaves-bind, Leaves-attempt, Leaves-pure, Leaves-raise, Leaves-lift, Leaves-query,
  Leaves-random_bytes, Leaves-read_cluster, Leaves-write_cluster, write_cluster-Leaves, Leaves-get,
  Got,
}
use opencode_workspaces.Database.Sound.Rules.{then_ok, else_ok}
use opencode_workspaces.Database.Workspaces.{workspace_configuration}
use opencode_workspaces.Kube.Objects.{Controller, secret_name}
use opencode_workspaces.Kube.Reconcile.{
  claims, secrets, services, deployments, if_missing, new_secret, revised_secret, secret_for,
  optional_configuration, revision_annotation, revision_text, deployment_for, ensure_pvc,
  ensure_secret, ensure_service, ensure_deployment, reconcile,
}

-- What a property of the cluster needs, so that no reconciliation breaks it.
pub record Lasts ⦃env : Env⦄ (P : Cluster → Type 0) : Type 0 where
  pub new_claim : (a : Claim) (c : Cluster) → P c → P (claims.put (c.claims ++ a ∷ []) c)
  pub new_secret : (a : Secret) (c : Cluster) → P c → P (secrets.put (c.secrets ++ a ∷ []) c)
  pub services : (as' : List Service) (c : Cluster) → P c → P (record c { services = as' })
  pub deployments : (as' : List Deployment) (c : Cluster) → P c → P (record c { deployments = as' })
  pub revised :
      (name : String) (o : Option WorkspaceConfiguration) (s : Secret) (c : Cluster)
      → find secrets.name_of name c.secrets ≡ some s
      → P c
      → P (secrets.put (modify secrets.name_of name (λ _. revised_secret o s) c.secrets) c)

module _ ⦃env : Env⦄ {P : Cluster → Type 0} (l : Lasts P) where
  create-Leaves :
      {A : Type 0} (kind : Kind A) (a : A)
      → ((c : Cluster) → P c → P (kind.put (kind.all c ++ a ∷ []) c))
      → Leaves P (create kind a)
  unfolding create created
  create-Leaves kind a h =
      Leaves-write_cluster _ λ c c' p e. subst P (ok_injective (else_ok _ _ _ c' e).1) (h c p)

  update-Leaves :
      {A : Type 0} (kind : Kind A) (name : String) (f : A → A) (w : World)
      → P w.cluster
      → P (kind.put (modify kind.name_of name f (kind.all w.cluster)) w.cluster)
      → P (update kind name f w).1.cluster
  unfolding update updated
  update-Leaves kind name f w p h =
      write_cluster-Leaves _ w p λ c e. subst P (ok_injective (then_ok _ _ _ c e).1) h

  if_missing-Leaves :
      {A : Type 0} (m : M (Unit {0})) (r : Result A) → Leaves P m → Leaves P (if_missing m r)
  if_missing-Leaves m (ok a) h = Leaves-pure tt
  if_missing-Leaves m (err missing) h = h
  if_missing-Leaves m (err e) h = Leaves-raise e

  ensure_pvc-Leaves : (c : Controller) (w : Workspace) → Leaves P (ensure_pvc c w)
  unfolding ensure_pvc get
  ensure_pvc-Leaves c w =
      Leaves-attempt _ _ (Leaves-read_cluster _)
        λ r. if_missing-Leaves _ r (create-Leaves claims _ (λ d p. l.new_claim _ d p))

  ensure_service-Leaves : (c : Controller) (w : Workspace) → Leaves P (ensure_service c w)
  unfolding ensure_service get
  ensure_service-Leaves c w =
      Leaves-attempt _ _ (Leaves-read_cluster _)
        λ r. if_missing-Leaves _ r (create-Leaves services _ (λ d p. l.services _ d p))

  optional_configuration-Leaves :
      (r : Result WorkspaceConfiguration) → Leaves P (optional_configuration r)
  optional_configuration-Leaves (ok c) = Leaves-pure (some c)
  optional_configuration-Leaves (err not_found) = Leaves-pure none
  optional_configuration-Leaves (err e) = Leaves-raise e

  workspace_configuration-Leaves : (id : String) → Leaves P (workspace_configuration id)
  unfolding workspace_configuration
  workspace_configuration-Leaves id =
      Leaves-bind _ _ (Leaves-query _)
        λ c. Leaves-bind _ _ (Leaves-lift _) λ a. Leaves-bind _ _ (Leaves-lift _) λ b. Leaves-pure _

  secret_for-Leaves :
      (c : Controller) (w : Workspace) (o : Option WorkspaceConfiguration) (r : Result Secret)
      (W : World)
      → P W.cluster
      → Got secrets (secret_name w) r W.cluster
      → P (secret_for c w o r W).1.cluster
  secret_for-Leaves c w o (ok s) W p got =
      if-Leaves (label revision_annotation s.meta.annotations == revision_text o)
    where
      if-Leaves :
          (same : Bool)
          → P
              ((if same then pure tt else update secrets (secret_name w) (λ _. revised_secret o s))
                W).1.cluster
      if-Leaves true = p
      if-Leaves false =
          update-Leaves secrets (secret_name w) _ W p
            (l.revised (secret_name w) o s W.cluster got p)
  secret_for-Leaves c w o (err missing) W p got =
      (Leaves-bind (random_bytes 32) _ (Leaves-random_bytes 32) λ password.
          create-Leaves secrets (new_secret c w o password) (λ d q. l.new_secret _ d q)).at
        W p
  secret_for-Leaves c w o (err not_found) W p got = p
  secret_for-Leaves c w o (err conflict) W p got = p
  secret_for-Leaves c w o (err already_bootstrapped) W p got = p
  secret_for-Leaves c w o (err duplicate_key) W p got = p
  secret_for-Leaves c w o (err (failed e)) W p got = p

  ensure_secret-Leaves : (c : Controller) (w : Workspace) → Leaves P (ensure_secret c w)
  unfolding ensure_secret
  ensure_secret-Leaves c w =
      Leaves-bind _ _
        (Leaves-attempt _ _ (workspace_configuration-Leaves w.user_id)
          optional_configuration-Leaves)
        λ o. Leaves-get secrets (secret_name w) (secret_for c w o) (secret_for-Leaves c w o)

  deployment_for-Leaves :
      (c : Controller) (w : Workspace) (r : Result Deployment) → Leaves P (deployment_for c w r)
  deployment_for-Leaves c w (ok d) = record {
    at = λ W p. update-Leaves deployments w.resource_name _ W p (l.deployments _ W.cluster p);
  }
  deployment_for-Leaves c w (err missing) = create-Leaves deployments _ (λ d p. l.deployments _ d p)
  deployment_for-Leaves c w (err e) = Leaves-raise e

  pub reconcile-Leaves : (c : Controller) (w : Workspace) → Leaves P (reconcile c w)
  unfolding reconcile ensure_deployment get
  reconcile-Leaves c w = Leaves-bind _ _ (ensure_pvc-Leaves c w) λ _.
      Leaves-bind _ _ (ensure_secret-Leaves c w) λ _.
        Leaves-bind _ _ (ensure_service-Leaves c w)
          λ _. Leaves-attempt _ _ (Leaves-read_cluster _) (deployment_for-Leaves c w)
