-- ===== src/Tests/Whole.antt =====
-- Histories of the whole program, migrations and provisioning.
use opencode_workspaces.Prelude.{
  ℕ, ◌≡◌, refl, true, false, none, some, List, [], ◌∷◌, ◌++◌, string_eq,
}
use opencode_workspaces.Prelude.Strings.{has_suffix, has_char}
use opencode_workspaces.Model.{is_admin}
use opencode_workspaces.Config.{pos}
use opencode_workspaces.Rows.{has}
use opencode_workspaces.Tables.{AuditRow}
use opencode_workspaces.World.{World}
use opencode_workspaces.Database.Sql.{user_key, order_by}
use opencode_workspaces.Database.Users
use opencode_workspaces.Database.Workspaces
use opencode_workspaces.Database.Vault.{encrypt}
use opencode_workspaces.Database.Sound.{IsSound}
use opencode_workspaces.Database.Sound.Calls.{empty-IsSound}
use opencode_workspaces.Database.Migrate.{
  migrate, migrate_each, migrate_entry, migrate_file, apply_file, is_migration, migration_files,
}
use opencode_workspaces.Database.Migrate.Once.{IsMigrated, migrate-IsMigrated}
use opencode_workspaces.Database.Migrate.Complete.{migrate_again}
use opencode_workspaces.Provision.{
  UserSeed, Manifest, Provisioned, provision, provision_seeds, provision_seed, first_admin,
  is_named, has_role,
}
use opencode_workspaces.Provision.Seeded.Returned.{IsProvisioned, provision-IsProvisioned}
use opencode_workspaces.Provision.Actor.{provision-IsActor}
use opencode_workspaces.Database.Spared.{IsActor}
use opencode_workspaces.Env.{UuidLaws}
use opencode_workspaces.Rows.{find}
use opencode_workspaces.Database.Sql.{user_of}
use opencode_workspaces.System.{Event, live}
use opencode_workspaces.System.Invariant.{live-IsSound, live_keeps_log, live_keeps_account}
use opencode_workspaces.Server.Pages.{is_username}
use opencode_workspaces.Tests.Sample.{ann, test_env, empty_world, some_world, request_with, program}
use opencode_workspaces.Tests.Logins.{test_provider}
use opencode_workspaces.Tests.Gateway.{test_net}
use opencode_workspaces.Tests.Server.{test_web, test_server, site_of}

-- A process starts, somebody sends a form, the controller runs, and the process starts again.
abbrev a_day : List (ℕ × Event)
a_day =
    (5, Event.start)
    ∷ (7, Event.request (request_with (some "key.ab") "csrf") [])
    ∷ (11, Event.reconcile)
    ∷ (13, Event.start)
    ∷ []

live-IsSound_example : IsSound none (live test_server a_day (site_of empty_world)).world.tables
live-IsSound_example = live-IsSound test_server a_day (site_of empty_world) empty-IsSound

live_keeps_log_example :
    (rest : List AuditRow) × ((live test_server a_day
        (site_of some_world)).world.tables.audit_events
      ≡ some_world.tables.audit_events ++ rest)
live_keeps_log_example = live_keeps_log test_server a_day (site_of some_world)

live_keeps_account_example :
    has user_key "alpha" (live test_server a_day (site_of some_world)).world.tables.users ≡ true
unfolding program
live_keeps_account_example = live_keeps_account test_server a_day (site_of some_world) "alpha" refl

empty-IsMigrated : IsMigrated some_world.tables
empty-IsMigrated = record { recorded = refl; once = tt }

migrate-IsMigrated_example : IsMigrated (migrate migration_files some_world).1.tables
migrate-IsMigrated_example = migrate-IsMigrated migration_files some_world empty-IsMigrated

abbrev migrated : World
migrated = (migrate migration_files some_world).1

migrate_again_example : (migrate migration_files migrated).1.tables ≡ migrated.tables
unfolding program migrate migrate_each migrate_entry migrate_file apply_file is_migration has_suffix
migrate_again_example = migrate_again migration_files some_world migrated empty-IsMigrated refl

abbrev bob_seed : UserSeed
bob_seed = record {
  username = " bob";
  display_name = "Bob";
  email = "bob@example.com";
  role = "user";
  disabled = false;
  opencode_config = [];
  api_key = "secret";
}

abbrev bob_manifest : Manifest
bob_manifest = record { version = pos 1; users = bob_seed ∷ []; oidc = none }

abbrev one_account : Provisioned
one_account = record { provisioned_users = 1; oidc_configured = false }

-- The second id is the next one.
abbrev next_world : World
next_world = record some_world { uuids_drawn = 1 }

provision-IsProvisioned_example :
    IsProvisioned bob_manifest next_world.tables
      (provision bob_manifest next_world).1.tables
      one_account
unfolding program provision provision_seeds provision_seed first_admin is_named has_role is_username
    Users.list_users order_by is_admin has_char Users.provision_user Users.provision_body
    Users.provision_found Users.first_user Users.finish_provision
    Workspaces.set_workspace_configuration Workspaces.set_configuration_body
    Workspaces.upsert_configuration_row encrypt
provision-IsProvisioned_example =
    provision-IsProvisioned bob_manifest next_world (provision bob_manifest next_world).1
      one_account refl

uuid_laws : UuidLaws test_env
uuid_laws = record { canonical = λ s k h. refl; drawn = λ n. refl }

-- The manifest asks for the administrator's own account to be disabled and a user's.
abbrev ann_seed : UserSeed
ann_seed = record bob_seed { username = "ann"; email = "ann@example.com"; disabled = true }

abbrev ann_manifest : Manifest
ann_manifest = record bob_manifest { users = ann_seed ∷ [] }

ann-IsActor : IsActor "alpha" some_world.tables
unfolding find
ann-IsActor = record {
  row = ann;
  found = refl;
  admin = refl;
  enabled = refl;
  canonical = (refl, tt);
}

provision-IsActor_example : IsActor "alpha" (provision ann_manifest some_world).1.tables
unfolding program first_admin is_admin Users.list_users order_by
provision-IsActor_example =
    provision-IsActor ann_manifest some_world (user_of ann ∷ []) uuid_laws refl ann-IsActor
