-- ===== src/Kube/Status.antt =====
-- The state of workspaces in the cluster: workspaceStatus, Status, Statuses and Backend of
-- internal/kube/controller.go.
pub mod Agrees
use opencode_workspaces.Prelude.{
  ℕ, String, Bool, true, false, not, ◌&&◌, Option, none, some, List, [], ◌∷◌, ◌==◌, string_eq,
  nat_eq, ltb, if◌then◌else◌, get_or,
}
use opencode_workspaces.Prelude.Strings.{◌<>◌}
use opencode_workspaces.Prelude.Decimal.{decimal}
use opencode_workspaces.Model.{Workspace, WorkspaceStatus}
use opencode_workspaces.Cluster.{Labels, Deployment, Pod}
use opencode_workspaces.Env.{Env}
use opencode_workspaces.Rows.{find, upsert}
use opencode_workspaces.World.{
  Result, ok, err, missing, failed, M, pure, raise, ◌>>=◌, ◌>>◌, attempt,
}
use opencode_workspaces.World.Api.{Kind, get, list, label, selects}
use opencode_workspaces.Database.Workspaces.{workspace}
use opencode_workspaces.Kube.Objects.{Controller, managed_by, secret_name}
use opencode_workspaces.Kube.Reconcile.{deployments, secrets, entry_key}

abbrev pub pods : Kind Pod
pods = record { name_of = λ a. a.name; all = λ c. c.pods; put = λ as' c. record c { pods = as' } }

-- model.WorkspaceStatus{Phase: phase}
abbrev pub bare_status : String → WorkspaceStatus
bare_status phase = record {
  found = false;
  ready = false;
  replicas = 0;
  ready_replicas = 0;
  phase = phase;
  message = "";
  pod_name = "";
  started_at = 0;
}

-- The last message of a Ready condition that has one.
unfoldable pub ready_message : String → List (String × String) → String
ready_message last [] = last
ready_message last ((kind, message) ∷ conditions) =
    ready_message (if kind == "Ready" && not (message == "") then message else last) conditions

abbrev pub scaled_down : Option ℕ → Bool
scaled_down none = false
scaled_down (some n) = n == 0

unfoldable pub phase_of : Deployment → String
phase_of d =
    if scaled_down d.replicas
    then "stopped"
    else if ltb 0 d.ready_replicas
    then "running"
    else "starting"

abbrev pub deployment_status : Deployment → WorkspaceStatus
deployment_status d = record {
  found = true;
  ready = ltb 0 d.ready_replicas;
  replicas = d.status_replicas;
  ready_replicas = d.ready_replicas;
  phase = phase_of d;
  message = "";
  pod_name = "";
  started_at = 0;
}

unfoldable pub workspace_status : Deployment → Option Pod → WorkspaceStatus
workspace_status d none = deployment_status d
workspace_status d (some p) = record (deployment_status d) {
  pod_name = p.name;
  started_at = get_or p.start_time 0;
  message = if ltb 0 d.ready_replicas then "" else ready_message "" p.conditions;
}

-- &pods.Items[0], where the list came and has one
abbrev pub first_of : {A : Type 0} → Result (List A) → Option A
first_of (ok (a ∷ as')) = some a
first_of (ok []) = none
first_of (err e) = none

abbrev pub pod_selector : String → Labels
pod_selector name =
    ("app.kubernetes.io/managed-by", managed_by) ∷ ("opencode.workspaces/name", name) ∷ []

abbrev pub managed_selector : Labels
managed_selector = ("app.kubernetes.io/managed-by", managed_by) ∷ []

-- A Go map from names.
abbrev pub named_key : {A : Type 0} → String × A → String
named_key (k, v) = k

abbrev pub value_at : {A : Type 0} → Option (String × A) → Option A
value_at none = none
value_at (some (k, v)) = some v

unfoldable pub lookup : {A : Type 0} → String → List (String × A) → Option A
lookup k m = value_at (find named_key k m)

unfoldable pub insert : {A : Type 0} → String → A → List (String × A) → List (String × A)
insert k v m = upsert named_key k (λ _. (k, v)) m

unfoldable pub deployments_by_name :
    List Deployment → List (String × Deployment) → List (String × Deployment)
deployments_by_name [] m = m
deployments_by_name (d ∷ ds) m = deployments_by_name ds (insert d.meta.name d m)

unfoldable pub pods_by_workspace : List Pod → List (String × Pod) → List (String × Pod)
pods_by_workspace [] m = m
pods_by_workspace (p ∷ ps) m =
    let name = label "opencode.workspaces/name" p.labels in
    pods_by_workspace ps (if name == "" then m else insert name p m)

abbrev pub status_or_stopped : Option Deployment → Option Pod → WorkspaceStatus
status_or_stopped none p = bare_status "stopped"
status_or_stopped (some d) p = workspace_status d p

unfoldable pub collect_statuses :
    List (String × Deployment)
    → List (String × Pod)
    → List Workspace
    → List (String × WorkspaceStatus)
    → List (String × WorkspaceStatus)
collect_statuses ds ps [] m = m
collect_statuses ds ps (w ∷ ws) m = collect_statuses ds ps ws (
    insert w.resource_name
      (status_or_stopped (lookup w.resource_name ds) (lookup w.resource_name ps)) m)

module _ ⦃env : Env⦄ where
  abbrev pub status_of_deployment : Workspace → Result Deployment → M WorkspaceStatus
  status_of_deployment w (ok d) =
      attempt (list pods (λ p. selects (pod_selector w.resource_name) p.labels))
        (λ found. pure (workspace_status d (first_of found)))
  status_of_deployment w (err missing) = pure (bare_status "stopped")
  status_of_deployment w (err e) = raise e

  unfoldable pub status : Workspace → M WorkspaceStatus
  status w = attempt (get deployments w.resource_name) (status_of_deployment w)

  unfoldable pub statuses : List Workspace → M (List (String × WorkspaceStatus))
  statuses workspaces = do
    ds ← list deployments (λ d. selects managed_selector d.meta.labels)
    ps ← list pods (λ p. selects managed_selector p.labels)
    pure (collect_statuses (deployments_by_name ds []) (pods_by_workspace ps []) workspaces [])

  abbrev pub require_ready : Result WorkspaceStatus → M (Unit {0})
  require_ready (ok s) = if s.ready then pure tt else raise (failed "workspace is not ready")
  require_ready (err e) = raise (failed "workspace is not ready")

  abbrev pub entry_text : Option (String × List ℕ) → String
  entry_text none = env.text []
  entry_text (some (k, v)) = env.text v

  -- Backend: the address of the workspace's service and its password.
  unfoldable pub backend : Controller → String → M (String × String)
  backend c user_id = do
    w ← workspace user_id
    attempt (status w) require_ready
    secret ← get secrets (secret_name w)
    pure (
      "http://"
          <> w.resource_name
          <> "."
          <> c.config.namespace
          <> ".svc:"
          <> decimal c.config.workspace.port,
      entry_text (find entry_key "password" secret.entries),
    )
