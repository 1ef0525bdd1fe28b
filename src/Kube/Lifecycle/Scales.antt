-- ===== src/Kube/Lifecycle/Scales.antt =====
-- The deployment that Start, Stop and Restart leave.
use opencode_workspaces.Prelude.{
  ℕ, ◌≡◌, refl, ap, sym, subst, ◌∙◌, String, Bool, true, false, some, string_eq, Option-cases, inl,
  inr, arith,
}
use opencode_workspaces.Model.{Workspace}
use opencode_workspaces.Cluster.{Deployment}
use opencode_workspaces.Env.{Env}
use opencode_workspaces.Rows.{find}
use opencode_workspaces.World.{Result, ok, World, M, ◌>>=◌}
use opencode_workspaces.World.Keeps.{ok_injective}
use opencode_workspaces.World.Steps.{bind_ok, query_ok}
use opencode_workspaces.Database.Workspaces.{
  workspace, workspace_of, found_workspace, set_workspace_state,
}
use opencode_workspaces.Database.Sql.{workspace_key}
use opencode_workspaces.Database.Sound.Rules.{with_uuid-eq-ok}
use opencode_workspaces.Tables.{Tables, WorkspaceRow}
use opencode_workspaces.Kube.Preserved.{reconcile-Keeps}
use opencode_workspaces.Database.Desired.{asked, desired_state_is_read_back}
use opencode_workspaces.Kube.Objects.{Controller, new_deployment, replicas_of}
use opencode_workspaces.Kube.Reconcile.{deployments}
use opencode_workspaces.Kube.Reconcile.Scaled.{reconcile-IsScaled}
use opencode_workspaces.Kube.Lifecycle.{start, stop, restart, reconcile_user}

pub data Operation : Type 0 where
  started stopped restarted : Operation

abbrev pub replicas_after : Operation → ℕ
replicas_after started = 1
replicas_after stopped = 0
replicas_after restarted = 1

module _ ⦃env : Env⦄ where
  -- The row of workspaces under the id, and the deployment under its resource name with so many
  -- replicas.
  pub record Scales (n : ℕ) (id : String) (W : World) : Type 0 where
    pub key : String
    pub row : WorkspaceRow
    pub deployment : Deployment
    pub parsed : env.parse_uuid id ≡ some key
    pub found : find workspace_key key W.tables.workspaces ≡ some row
    pub deployed :
        find deployments.name_of row.resource_name W.cluster.deployments ≡ some deployment
    pub replicas : deployment.replicas ≡ some n

  -- The row that Workspace reads.
  workspace_row :
      (id : String) (W W' : World) (w : Workspace)
      → workspace id W ≡ (ok w, W')
      → (k : String) × (r : WorkspaceRow) × (env.parse_uuid id ≡ some k)
        × (find workspace_key k W.tables.workspaces ≡ some r)
        × (w.resource_name ≡ r.resource_name)
        × (W'.tables ≡ W.tables)
  unfolding workspace workspace_of
  workspace_row id W W' w h =
      let (read, same) = query_ok _ W W' w h in
      let (k, parsed, e) = with_uuid-eq-ok id _ w read in
      elim (Option-cases (find workspace_key k W.tables.workspaces)) [
        | inl absent ↦ absurd (ground arith)
        | inr (r, found) ↦
            let row : found_workspace W.tables (some r) ≡ ok w =
              ap (found_workspace W.tables) (sym found) ∙ e in
            (
              k,
              r,
              parsed,
              found,
              ap (λ (x : Workspace). x.resource_name) (sym (ok_injective row)),
              same.0,
            )
      ]

  set_then_reconcile :
      (c : Controller) (actor id state remote : String) (again : Bool) (n : ℕ) (W W' : World)
      (u : Unit {0})
      → ((w : Workspace) → w.desired_state ≡ asked state again → replicas_of w ≡ n)
      → (set_workspace_state actor id state remote again >>= λ _. reconcile_user c id) W
        ≡ (ok u, W')
      → Scales n id W'
  unfolding reconcile_user new_deployment
  set_then_reconcile c actor id state remote again n W W' u scale h =
      let (a, W₁, h₁, k₁) = bind_ok _ _ W W' u h in
      let (w, W₂, h₂, k₂) = bind_ok _ _ W₁ W' u k₁ in
      let desired = desired_state_is_read_back actor id state remote again W W₁ W₂ a w h₁ h₂ in
      let s = reconcile-IsScaled c w W₂ W' u k₂ in
      let (k, r, parsed, found, name, same) = workspace_row id W₁ W₂ w h₂ in
      let kept : W'.tables ≡ W₂.tables =
        subst (λ (x : Result (Unit {0}) × World). x.1.tables ≡ W₂.tables) k₂
          ((reconcile-Keeps {P = λ t. t ≡ W₂.tables} c w).at W₂ refl) in
      record {
        key = k;
        row = r;
        deployment = s.deployment;
        parsed = parsed;
        found = ap (λ (t : Tables). find workspace_key k t.workspaces) (kept ∙ same) ∙ found;
        deployed =
            ap (λ name. find deployments.name_of name W'.cluster.deployments) (sym name) ∙ s.found;
        replicas = s.replicas ∙ ap some (scale w desired);
      }

  runs_one : (w : Workspace) → w.desired_state ≡ "running" → replicas_of w ≡ 1
  unfolding replicas_of
  runs_one w h = rw h refl

  runs_none : (w : Workspace) → w.desired_state ≡ "stopped" → replicas_of w ≡ 0
  unfolding replicas_of
  runs_none w h = rw h refl

  abbrev pub operate : Controller → Operation → String → String → String → M (Unit {0})
  operate c started actor id remote = start c id
  operate c stopped actor id remote = stop c actor id remote
  operate c restarted actor id remote = restart c actor id remote

  -- When Stop of a user's id returns, the deployment of the workspace that the database has under
  -- that id is scaled to zero; when Start or Restart returns, to one.
  pub operate-Scales :
      (c : Controller) (op : Operation) (actor id remote : String) (W W' : World) (u : Unit {0})
      → operate c op actor id remote W ≡ (ok u, W')
      → Scales (replicas_after op) id W'
  unfolding stop start restart
  operate-Scales c stopped actor id remote W W' u h =
      set_then_reconcile c actor id "stopped" remote false 0 W W' u runs_none h
  operate-Scales c started actor id remote W W' u h =
      set_then_reconcile c id id "running" "" false 1 W W' u runs_one h
  operate-Scales c restarted actor id remote W W' u h =
      set_then_reconcile c actor id "running" remote true 1 W W' u runs_one h
