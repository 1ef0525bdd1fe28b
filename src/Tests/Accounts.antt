-- ===== src/Tests/Accounts.antt =====
-- Runs of the methods of `Store`.
use opencode_workspaces.Prelude.{ℕ, ◌≡◌, ◌≢◌, refl, false, none, List, [], ◌∷◌, string_eq, bytes_eq}
use opencode_workspaces.Model.{User, Workspace}
use opencode_workspaces.World.{ok, err, failed, World}
use opencode_workspaces.Database.Users.{bootstrap_admin}
use opencode_workspaces.Database.Workspaces
use opencode_workspaces.Database.Calls
use opencode_workspaces.Database.Calls.{Call, perform, run}
use opencode_workspaces.Database.Sound.{IsSound}
use opencode_workspaces.Database.Sound.Calls.{run-IsSound, empty-IsSound}
use opencode_workspaces.Database.Atomic.{failed_call_changes_nothing}
use opencode_workspaces.Database.Grows.Laws.{bootstrap_once}
use opencode_workspaces.Database.Desired.{desired_state_is_read_back}
use opencode_workspaces.Tests.Sample.{test_env, empty_world, some_world, program}

-- An account is bootstrapped, a second one made, and the first one's workspace started.
abbrev a_history : List (ℕ × Call)
a_history =
    (5, Calls.bootstrap_admin "ann" "Ann" "ann@example.com" "hash")
    ∷ (6, Calls.create_local_user "alpha" "bob" "Bob" "" "user" "hash" "10.0.0.1")
    ∷ (7, Calls.set_workspace_state "alpha" "alpha" "running" "10.0.0.1" false)
    ∷ []

run-IsSound_example : IsSound none (run empty_world a_history).tables
run-IsSound_example = run-IsSound empty_world a_history empty-IsSound

-- The database is lost in the middle of the transaction that makes the second account.
abbrev failing_world : World
failing_world = record some_world { sql_calls = 97; uuids_drawn = 1 }

abbrev failing_call : Call
failing_call = Calls.create_local_user "alpha" "bob" "Bob" "" "user" "hash" "10.0.0.1"

failing_run : (perform failing_call failing_world).0 ≡ err (failed "database")
unfolding program
failing_run = refl

failed_call_changes_nothing_example :
    (perform failing_call failing_world).1.tables ≡ failing_world.tables
unfolding program
failed_call_changes_nothing_example =
    failed_call_changes_nothing failing_call failing_world (perform failing_call failing_world).1
      (failed "database") refl

abbrev first_admin : User
first_admin = record {
  id = "alpha";
  username = "ann";
  display_name = "Ann";
  email = "ann@example.com";
  role = "admin";
  disabled = false;
  created_at = empty_world.clock;
  last_login_at = 0;
}

bootstrap_once_example :
    (bootstrap_admin "eve" "Eve" "" "hash"
      (run (bootstrap_admin "ann" "Ann" "ann@example.com" "hash" empty_world).1 a_history)).0
    ≢ ok first_admin
unfolding program
bootstrap_once_example =
    bootstrap_once empty_world (bootstrap_admin "ann" "Ann" "ann@example.com" "hash" empty_world).1
      "ann" "Ann" "ann@example.com" "hash" first_admin a_history "eve" "Eve" "" "hash" first_admin
      refl

-- Ann starts her workspace.
abbrev started_world : World
started_world = (Workspaces.set_workspace_state "alpha" "alpha" "running" "" false some_world).1

abbrev started_workspace : Workspace
started_workspace = record {
  user_id = "alpha";
  resource_name = "ws-alpha";
  desired_state = "running";
  restart_nonce = 2;
  last_activity_at = some_world.clock;
  created_at = 5;
  updated_at = some_world.clock;
  config_revision = 0;
}

desired_state_is_read_back_example : started_workspace.desired_state ≡ "running"
unfolding program
desired_state_is_read_back_example =
    desired_state_is_read_back "alpha" "alpha" "running" "" false some_world started_world
      (Workspaces.workspace "alpha" started_world).1 tt started_workspace refl refl
