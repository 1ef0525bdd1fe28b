-- ===== src/Kube/Reconcile/Scaled.antt =====
-- The deployment that a reconciliation leaves.
use opencode_workspaces.Prelude.{◌≡◌, refl, sym, ap, ◌∙◌, some, arith, string_eq}
use opencode_workspaces.Model.{Workspace}
use opencode_workspaces.Cluster.{Cluster, Deployment}
use opencode_workspaces.Env.{Env}
use opencode_workspaces.Rows.{find, has}
use opencode_workspaces.Rows.Laws.{find-fresh, find-replaced, has-true}
use opencode_workspaces.World.{Result, ok, err, missing, World, api_call}
use opencode_workspaces.World.Keeps.{ok_injective}
use opencode_workspaces.World.Steps.{bind_ok, attempt_ok}
use opencode_workspaces.World.Api.{create, created, update, updated, write_cluster, put_cluster}
use opencode_workspaces.Database.Sound.Rules.{then_ok, else_ok}
use opencode_workspaces.Kube.Objects.{Controller, new_deployment, meta}
use opencode_workspaces.Kube.Reconcile.{
  deployments, deployment_for, replaced, ensure_deployment, reconcile,
}

-- The cluster has the deployment that the controller asks for, up to version and status.
pub record IsScaled (c : Controller) (w : Workspace) (cluster : Cluster) : Type 0 where
  pub deployment : Deployment
  pub found : find deployments.name_of w.resource_name cluster.deployments ≡ some deployment
  pub replicas : deployment.replicas ≡ (new_deployment c w).replicas
  pub template : deployment.template ≡ (new_deployment c w).template

module _ ⦃env : Env⦄ where
  api_call_ok : (w w' : World) (u : Unit {0}) → api_call w ≡ (ok u, w') → w'.cluster ≡ w.cluster
  unfolding api_call
  api_call_ok w w' u h = ground arith

  put_cluster_ok :
      (w w' : World) (r : Result Cluster) (u : Unit {0})
      → put_cluster w r ≡ (ok u, w')
      → r ≡ ok w'.cluster
  put_cluster_ok w w' (ok c) u h = ground arith
  put_cluster_ok w w' (err e) u h = absurd (ground arith)

  pub write_cluster_ok :
      (f : Cluster → Result Cluster) (w w' : World) (u : Unit {0})
      → write_cluster f w ≡ (ok u, w')
      → f w.cluster ≡ ok w'.cluster
  unfolding write_cluster
  write_cluster_ok f w w' u h =
      let (v, w₁, h₁, h₂) = bind_ok api_call (λ _ x. put_cluster x (f x.cluster)) w w' u h in
      ap f (sym (api_call_ok w w₁ v h₁)) ∙ put_cluster_ok w₁ w' (f w₁.cluster) u h₂

  created-Scaled :
      (c : Controller) (w : Workspace) (cluster cluster' : Cluster)
      → created deployments (new_deployment c w) cluster ≡ ok cluster'
      → IsScaled c w cluster'
  unfolding created new_deployment meta
  created-Scaled c w cluster cluster' h =
      let (fresh, e) = else_ok _ _ _ cluster' h in
      record {
        deployment = new_deployment c w;
        found =
            ap (λ (x : Cluster). find deployments.name_of w.resource_name x.deployments)
              (sym (ok_injective e))
            ∙ find-fresh deployments.name_of w.resource_name cluster.deployments
                (new_deployment c w) fresh refl;
        replicas = refl;
        template = refl;
      }

  updated-Scaled :
      (c : Controller) (w : Workspace) (cluster cluster' : Cluster)
      → updated deployments w.resource_name (replaced (new_deployment c w)) cluster ≡ ok cluster'
      → IsScaled c w cluster'
  unfolding updated new_deployment meta
  updated-Scaled c w cluster cluster' h =
      let name = w.resource_name in
      let key = deployments.name_of in
      let (there, e) = then_ok (has key name cluster.deployments) missing _ cluster' h in
      let (d, found) = has-true key name cluster.deployments there in
      record {
        deployment = replaced (new_deployment c w) d;
        found =
            ap (λ (x : Cluster). find key name x.deployments) (sym (ok_injective e))
            ∙ find-replaced key (replaced (new_deployment c w)) name cluster.deployments d
                (λ _. refl) found;
        replicas = refl;
        template = refl;
      }

  deployment_for-Scaled :
      (c : Controller) (w : Workspace) (r : Result Deployment) (W W' : World) (u : Unit {0})
      → deployment_for c w r W ≡ (ok u, W')
      → IsScaled c w W'.cluster
  unfolding create update
  deployment_for-Scaled c w (ok d) W W' u h =
      updated-Scaled c w W.cluster W'.cluster (write_cluster_ok _ W W' u h)
  deployment_for-Scaled c w (err missing) W W' u h =
      created-Scaled c w W.cluster W'.cluster (write_cluster_ok _ W W' u h)
  deployment_for-Scaled c w (err e) W W' u h = absurd (ground arith)

  -- When Reconcile returns, the workspace's deployment has the replicas and the pod template that
  -- the controller asks for, whether the deployment was there or not.
  pub reconcile-IsScaled :
      (c : Controller) (w : Workspace) (W W' : World) (u : Unit {0})
      → reconcile c w W ≡ (ok u, W')
      → IsScaled c w W'.cluster
  unfolding reconcile ensure_deployment
  reconcile-IsScaled c w W W' u h =
      let (_, W₁, _, h₁) = bind_ok _ _ W W' u h in
      let (_, W₂, _, h₂) = bind_ok _ _ W₁ W' u h₁ in
      let (_, W₃, _, h₃) = bind_ok _ _ W₂ W' u h₂ in
      deployment_for-Scaled c w _ _ W' u (attempt_ok _ _ W₃ W' u h₃)
