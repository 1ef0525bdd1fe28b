-- ===== src/Kube/Preserved.antt =====
-- Invariants of the tables under the controller, which writes to the database only through the calls of
-- `Store`.
use opencode_workspaces.Prelude.{
  ◌≡◌, refl, zero, suc, ◌-◌, String, Bool, Option, none, some, List, [], ◌∷◌,
}
use opencode_workspaces.Model.{Workspace, WorkspaceConfiguration, WorkspaceStatus}
use opencode_workspaces.Config.{ℤ, pos, negsuc}
use opencode_workspaces.Cluster.{Cluster, Deployment, Secret}
use opencode_workspaces.Env.{Env}
use opencode_workspaces.Tables.{Tables}
use opencode_workspaces.World.{Result, ok, err, not_found, missing, World, M}
use opencode_workspaces.World.Api.{
  Kind, put_cluster, read_cluster, write_cluster, get, list, create, update, delete,
}
use opencode_workspaces.World.Keeps.{
  Keeps, Keeps-bind, Keeps-attempt, Keeps-pure, Keeps-raise, Keeps-now, Keeps-if, Keeps-api_call,
  Keeps-random_bytes, keeps_rules,
}
use opencode_workspaces.Database.Preserved.{
  Preserved, set_workspace_state-Keeps, idle_workspaces-Keeps, delete_workspace_data_record-Keeps,
  workspace-Keeps, list_workspaces-Keeps, workspace_configuration-Keeps,
}
use opencode_workspaces.Kube.Objects.{Controller}
use opencode_workspaces.Kube.Reconcile.{
  claims, secrets, deployments, if_missing, optional_configuration, secret_for, deployment_for,
  ensure_pvc, ensure_secret, ensure_service, ensure_deployment, reconcile,
}
use opencode_workspaces.Kube.Status.{
  status, status_of_deployment, statuses, backend, require_ready, pods,
}
use opencode_workspaces.Kube.Lifecycle.{
  reconcile_user, start, stop, restart, purge, unless_missing, idle, reconcile_each,
  reconcile_listed, reconcile_all,
}

put_cluster-tables : (w : World) (r : Result Cluster) → (put_cluster w r).1.tables ≡ w.tables
put_cluster-tables w (ok c) = refl
put_cluster-tables w (err e) = refl

module _ ⦃env : Env⦄ {P : Tables → Type 0} where
  pub read_cluster-Keeps : {A : Type 0} (f : Cluster → Result A) → Keeps P (read_cluster f)
  unfolding read_cluster
  read_cluster-Keeps f = Keeps-bind _ _ Keeps-api_call (λ _. record { at = λ w p. p })

  pub write_cluster-Keeps : (f : Cluster → Result Cluster) → Keeps P (write_cluster f)
  unfolding write_cluster
  write_cluster-Keeps f =
      Keeps-bind _ _ Keeps-api_call (λ _. record { at = λ w p. rw put_cluster-tables p })

  module _ {A : Type 0} (kind : Kind A) where
    get-Keeps : (name : String) → Keeps P (get kind name)
    unfolding get
    get-Keeps name = read_cluster-Keeps _

    list-Keeps : (p : A → Bool) → Keeps P (list kind p)
    unfolding list
    list-Keeps p = read_cluster-Keeps _

    create-Keeps : (a : A) → Keeps P (create kind a)
    unfolding create
    create-Keeps a = write_cluster-Keeps _

    update-Keeps : (name : String) (f : A → A) → Keeps P (update kind name f)
    unfolding update
    update-Keeps name f = write_cluster-Keeps _

    delete-Keeps : (name : String) → Keeps P (delete kind name)
    unfolding delete
    delete-Keeps name = write_cluster-Keeps _

  if_missing-Keeps :
      {A : Type 0} (m : M (Unit {0})) (r : Result A) → Keeps P m → Keeps P (if_missing m r)
  if_missing-Keeps m (ok a) k = Keeps-pure tt
  if_missing-Keeps m (err missing) k = k
  if_missing-Keeps m (err e) k = Keeps-raise e

  optional_configuration-Keeps :
      (r : Result WorkspaceConfiguration) → Keeps P (optional_configuration r)
  optional_configuration-Keeps (ok c) = Keeps-pure (some c)
  optional_configuration-Keeps (err not_found) = Keeps-pure none
  optional_configuration-Keeps (err e) = Keeps-raise e

  secret_for-Keeps :
      (c : Controller) (w : Workspace) (o : Option WorkspaceConfiguration) (r : Result Secret)
      → Keeps P (secret_for c w o r)
  secret_for-Keeps c w o (ok s) = Keeps-if _ _ _ (Keeps-pure tt) (update-Keeps secrets _ _)
  secret_for-Keeps c w o (err missing) =
      Keeps-bind _ _ (Keeps-random_bytes 32) (λ b. create-Keeps secrets _)
  secret_for-Keeps c w o (err e) = Keeps-raise e

  deployment_for-Keeps :
      (c : Controller) (w : Workspace) (r : Result Deployment) → Keeps P (deployment_for c w r)
  deployment_for-Keeps c w (ok d) = update-Keeps deployments _ _
  deployment_for-Keeps c w (err missing) = create-Keeps deployments _
  deployment_for-Keeps c w (err e) = Keeps-raise e

  pub reconcile-Keeps : (c : Controller) (w : Workspace) → Keeps P (reconcile c w)
  unfolding reconcile ensure_pvc ensure_secret ensure_service ensure_deployment
  reconcile-Keeps c w =
      search
        (
          Keeps-bind, Keeps-attempt, get-Keeps, create-Keeps, if_missing-Keeps,
          workspace_configuration-Keeps, optional_configuration-Keeps, secret_for-Keeps,
          deployment_for-Keeps,
        )
        depth 12

  unless_missing-Keeps : (r : Result (Unit {0})) → Keeps P (unless_missing r)
  unless_missing-Keeps (ok u) = Keeps-pure u
  unless_missing-Keeps (err missing) = Keeps-pure tt
  unless_missing-Keeps (err e) = Keeps-raise e

  status_of_deployment-Keeps :
      (w : Workspace) (r : Result Deployment) → Keeps P (status_of_deployment w r)
  status_of_deployment-Keeps w (ok d) =
      Keeps-attempt _ _ (list-Keeps pods _) (λ found. Keeps-pure _)
  status_of_deployment-Keeps w (err missing) = Keeps-pure _
  status_of_deployment-Keeps w (err e) = Keeps-raise e

  pub status-Keeps : (w : Workspace) → Keeps P (status w)
  unfolding status
  status-Keeps w = Keeps-attempt _ _ (get-Keeps deployments _) (status_of_deployment-Keeps w)

  pub statuses-Keeps : (ws : List Workspace) → Keeps P (statuses ws)
  unfolding statuses
  statuses-Keeps ws = search (keeps_rules, list-Keeps)

  require_ready-Keeps : (r : Result WorkspaceStatus) → Keeps P (require_ready r)
  require_ready-Keeps (ok s) = Keeps-if _ _ _ (Keeps-pure tt) (Keeps-raise _)
  require_ready-Keeps (err e) = Keeps-raise _

  pub backend-Keeps : (c : Controller) (u : String) → Keeps P (backend c u)
  unfolding backend
  backend-Keeps c u =
      search (keeps_rules, workspace-Keeps, status-Keeps, require_ready-Keeps, get-Keeps)

module _ ⦃env : Env⦄ {P : Tables → Type 0} (p : Preserved P) where
  reconcile_user-Keeps : (c : Controller) (u : String) → Keeps P (reconcile_user c u)
  unfolding reconcile_user
  reconcile_user-Keeps c u = Keeps-bind _ _ (workspace-Keeps u) (reconcile-Keeps c)

  pub start-Keeps : (c : Controller) (u : String) → Keeps P (start c u)
  unfolding start
  start-Keeps c u =
      Keeps-bind _ _ (set_workspace_state-Keeps p u u "running" "" _)
        (λ _. reconcile_user-Keeps c u)

  pub stop-Keeps : (c : Controller) (a u x : String) → Keeps P (stop c a u x)
  unfolding stop
  stop-Keeps c a u x =
      Keeps-bind _ _ (set_workspace_state-Keeps p a u "stopped" x _) (λ _. reconcile_user-Keeps c u)

  pub restart-Keeps : (c : Controller) (a u x : String) → Keeps P (restart c a u x)
  unfolding restart
  restart-Keeps c a u x =
      Keeps-bind _ _ (set_workspace_state-Keeps p a u "running" x _) (λ _. reconcile_user-Keeps c u)

  pub purge-Keeps : (c : Controller) (a u x : String) → Keeps P (purge c a u x)
  unfolding purge
  purge-Keeps c a u x = Keeps-bind _ _ (workspace-Keeps u) λ w.
      Keeps-bind _ _ (stop-Keeps c a u x) λ _.
        Keeps-bind _ _
          (Keeps-attempt _ _ (delete-Keeps claims w.resource_name) unless_missing-Keeps)
          (λ _. delete_workspace_data_record-Keeps p a u x)

  idle-Keeps : (n : ℤ) → Keeps P (idle n)
  idle-Keeps (pos zero) = Keeps-pure tt
  idle-Keeps (pos (suc n)) =
      Keeps-bind _ _ Keeps-now
        λ time. Keeps-attempt _ _ (idle_workspaces-Keeps p (time - suc n)) (λ _. Keeps-pure tt)
  idle-Keeps (negsuc n) = Keeps-pure tt

  reconcile_each-Keeps : (c : Controller) (ws : List Workspace) → Keeps P (reconcile_each c ws)
  reconcile_each-Keeps c [] = Keeps-pure tt
  reconcile_each-Keeps c (w ∷ ws) =
      Keeps-attempt _ _ (reconcile-Keeps c w) (λ _. reconcile_each-Keeps c ws)

  reconcile_listed-Keeps :
      (c : Controller) (r : Result (List Workspace)) → Keeps P (reconcile_listed c r)
  reconcile_listed-Keeps c (ok ws) = reconcile_each-Keeps c ws
  reconcile_listed-Keeps c (err e) = Keeps-pure tt

  pub reconcile_all-Keeps : (c : Controller) → Keeps P (reconcile_all c)
  unfolding reconcile_all
  reconcile_all-Keeps c =
      Keeps-bind _ _ (idle-Keeps c.config.workspace.idle_timeout)
        λ _. Keeps-attempt _ _ list_workspaces-Keeps (reconcile_listed-Keeps c)
