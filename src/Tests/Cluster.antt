-- ===== src/Tests/Cluster.antt =====
-- Runs of the controller.
use opencode_workspaces.Prelude.{◌≡◌, refl, [], ◌∷◌, none, some, string_eq}
use opencode_workspaces.Model.{Workspace}
use opencode_workspaces.World.{World}
use opencode_workspaces.Kube.Reconcile.{reconcile, claims, new_secret}
use opencode_workspaces.Kube.Objects.{new_claim}
use opencode_workspaces.Kube.Reconcile.Kept.{
  HasPassword, reconcile_keeps_claims, reconcile_keeps_passwords,
}
use opencode_workspaces.Rows.{find}
use opencode_workspaces.Tests.Codec.{codes}
use opencode_workspaces.Kube.Reconcile.Scaled.{IsScaled, reconcile-IsScaled}
use opencode_workspaces.Kube.Lifecycle.{stop}
use opencode_workspaces.Kube.Lifecycle.Scales.{Scales, stopped, operate-Scales}
use opencode_workspaces.Prelude.{arith, ap, sym, Bool, true, Option}
use opencode_workspaces.Cluster.{Pod, Deployment}
use opencode_workspaces.Kube.Status.{managed_selector}
use opencode_workspaces.World.Api.{selects}
use opencode_workspaces.Kube.Objects.{managed_by}
use opencode_workspaces.Kube.Status.Agrees.{IsListed, IsInTable, statuses_agree}
use opencode_workspaces.Tests.Sample.{test_env, some_world, test_controller, program}

abbrev stopped_world : World
stopped_world = (stop test_controller "alpha" "alpha" "" some_world).1

operate-Scales_example : Scales 0 "alpha" stopped_world
unfolding program
operate-Scales_example =
    operate-Scales test_controller stopped "alpha" "alpha" "" some_world stopped_world tt refl

abbrev running_workspace : Workspace
running_workspace = record {
  user_id = "alpha";
  resource_name = "ws-alpha";
  desired_state = "running";
  restart_nonce = 3;
  last_activity_at = 5;
  created_at = 5;
  updated_at = 5;
  config_revision = 0;
}

-- The second reconciliation, which finds every object.
abbrev reconciled_world : World
reconciled_world = (reconcile test_controller running_workspace stopped_world).1

reconcile-IsScaled_example : IsScaled test_controller running_workspace reconciled_world.cluster
unfolding program
reconcile-IsScaled_example =
    reconcile-IsScaled test_controller running_workspace stopped_world reconciled_world tt refl

-- The claim and the password that the first reconciliation made outlast the second one.
reconcile_keeps_claims_example :
    find claims.name_of "ws-alpha" reconciled_world.cluster.claims
    ≡ some (new_claim test_controller running_workspace)
unfolding program
reconcile_keeps_claims_example =
    reconcile_keeps_claims test_controller running_workspace stopped_world "ws-alpha"
      (new_claim test_controller running_workspace) refl

reconcile_keeps_passwords_example : HasPassword "ws-alpha-auth" (codes "b") reconciled_world.cluster
unfolding program
reconcile_keeps_passwords_example =
    reconcile_keeps_passwords test_controller running_workspace stopped_world "ws-alpha-auth"
      (codes "b")
      (record {
        secret = new_secret test_controller running_workspace none (0 ∷ []);
        found = refl;
        entry = refl;
      })

abbrev a_pod : Pod
a_pod = record {
  name = "ws-alpha-1";
  labels =
      ("app.kubernetes.io/managed-by", managed_by) ∷ ("opencode.workspaces/name", "ws-alpha") ∷ [];
  start_time = some 7;
  conditions = ("Ready", "starting") ∷ [];
}

abbrev world_with_pod : World
world_with_pod = record reconciled_world {
  cluster = record reconciled_world.cluster { pods = a_pod ∷ [] };
}

abbrev is_managed : Option Deployment → Bool
is_managed none = true
is_managed (some d) = selects managed_selector d.meta.labels

one-IsListed : IsListed "ws-alpha" world_with_pod.cluster
unfolding program selects
one-IsListed = record {
  unique = (refl, tt);
  managed = λ d h. ap is_managed (sym h);
  alone = omega arith;
}

statuses_agree_example : IsInTable running_workspace (running_workspace ∷ []) world_with_pod
unfolding program
statuses_agree_example =
    statuses_agree running_workspace (running_workspace ∷ []) world_with_pod refl refl one-IsListed
      refl refl
