-- ===== src/Kube/Lifecycle.antt =====
-- reconcileAll, Start, Stop, Restart and Purge of internal/kube/controller.go.
pub mod Scales
use opencode_workspaces.Prelude.{
  ℕ, suc, ◌-◌, String, Bool, true, false, List, [], ◌∷◌, if◌then◌else◌,
}
use opencode_workspaces.Model.{Workspace}
use opencode_workspaces.Config.{ℤ, pos, negsuc}
use opencode_workspaces.Env.{Env}
use opencode_workspaces.World.{
  Error, Result, ok, err, missing, M, pure, raise, ◌>>=◌, ◌>>◌, attempt, now,
}
use opencode_workspaces.World.Api.{delete}
use opencode_workspaces.Database.Workspaces.{
  workspace, list_workspaces, set_workspace_state, idle_workspaces, delete_workspace_data_record,
}
use opencode_workspaces.Kube.Objects.{Controller}
use opencode_workspaces.Kube.Reconcile.{reconcile, claims}

-- Whether an error is apierrors.IsNotFound.
abbrev pub unless_missing : Result (Unit {0}) → M (Unit {0})
unless_missing (ok u) = pure u
unless_missing (err missing) = pure tt
unless_missing (err e) = raise e

module _ ⦃env : Env⦄ where
  -- The part that Start, Stop and Restart share.
  unfoldable pub reconcile_user : Controller → String → M (Unit {0})
  reconcile_user c user_id = do w ← workspace user_id; reconcile c w

  unfoldable pub start : Controller → String → M (Unit {0})
  start c user_id = do
    set_workspace_state user_id user_id "running" "" false
    reconcile_user c user_id

  unfoldable pub stop : Controller → String → String → String → M (Unit {0})
  stop c actor user_id remote = do
    set_workspace_state actor user_id "stopped" remote false
    reconcile_user c user_id

  unfoldable pub restart : Controller → String → String → String → M (Unit {0})
  restart c actor user_id remote = do
    set_workspace_state actor user_id "running" remote true
    reconcile_user c user_id

  unfoldable pub purge : Controller → String → String → String → M (Unit {0})
  purge c actor user_id remote = do
    w ← workspace user_id
    stop c actor user_id remote
    attempt (delete claims w.resource_name) unless_missing
    delete_workspace_data_record actor user_id remote

  -- The idle workspaces stop, if there is a timeout.
  abbrev pub idle : ℤ → M (Unit {0})
  idle (pos (suc n)) = do time ← now; attempt (idle_workspaces (time - suc n)) (λ _. pure tt)
  idle _ = pure tt

  -- Every workspace is reconciled, whether the others succeed or not.
  abbrev pub reconcile_each : Controller → List Workspace → M (Unit {0})
  reconcile_each c [] = pure tt
  reconcile_each c (w ∷ ws) = attempt (reconcile c w) (λ _. reconcile_each c ws)

  abbrev pub reconcile_listed : Controller → Result (List Workspace) → M (Unit {0})
  reconcile_listed c (ok ws) = reconcile_each c ws
  reconcile_listed c (err e) = pure tt

  unfoldable pub reconcile_all : Controller → M (Unit {0})
  reconcile_all c = do
    idle c.config.workspace.idle_timeout
    attempt list_workspaces (reconcile_listed c)
