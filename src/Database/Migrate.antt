-- ===== src/Database/Migrate.antt =====
-- Migrate of internal/database/database.go, which brings the schema up to date. Each file of the
-- embedded directory runs in a transaction with the row that says that it has run.
pub mod Once
pub mod Complete
use opencode_workspaces.Prelude.{
  String, Bool, true, false, not, ◌&&◌, ◌||◌, List, [], ◌∷◌, ◌++◌, ◌==◌, string_eq, some_of,
  if◌then◌else◌,
}
use opencode_workspaces.Prelude.Strings.{has_suffix}
use opencode_workspaces.Env.{Env}
use opencode_workspaces.Tables.{Tables}
use opencode_workspaces.World.{
  Result, ok, err, M, pure, ◌>>=◌, ◌>>◌, attempt, lift, statement, exec, query, transaction,
}

-- fs.DirEntry
pub record Entry : Type 0 where
  pub name : String
  pub is_dir : Bool

-- The directory migrations of the repository.
abbrev pub migration_files : List Entry
migration_files =
    record { name = "001_initial.sql"; is_dir = false }
    ∷ record { name = "002_workspace_configuration.sql"; is_dir = false }
    ∷ []

unfoldable pub is_migration : Entry → Bool
is_migration e = not (e.is_dir || not (has_suffix e.name ".sql"))

abbrev pub is_applied : String → List String → Bool
is_applied name versions = some_of (λ v. v == name) versions

-- The statements of a file. The model starts from the tables that they create.
abbrev pub execute : String → Tables → Result Tables
execute name t = ok (record t { executed = t.executed ++ name ∷ [] })

-- INSERT INTO schema_migrations … ON CONFLICT DO NOTHING
abbrev pub record_version : String → Tables → Result Tables
record_version name t = ok (record t {
  versions = if is_applied name t.versions then t.versions else t.versions ++ name ∷ [];
})

module _ ⦃env : Env⦄ where
  unfoldable pub apply_file : String → M (Unit {0})
  apply_file name = transaction (do exec (execute name); exec (record_version name))

  unfoldable pub migrate_file : String → M (Unit {0})
  migrate_file name = do
    applied ← query (λ t. ok (is_applied name t.versions))
    if applied then pure tt else apply_file name

  unfoldable pub migrate_entry : Entry → M (Unit {0})
  migrate_entry e = if is_migration e then migrate_file e.name else pure tt

  unfoldable pub migrate_each : List Entry → M (Unit {0})
  migrate_each [] = pure tt
  migrate_each (e ∷ entries) = do migrate_entry e; migrate_each entries

  -- Acquire, the advisory lock, CREATE TABLE IF NOT EXISTS and the files. The lock is given back
  -- after all, and an error of that is ignored.
  unfoldable pub migrate : List Entry → M (Unit {0})
  migrate entries = do
    statement
    statement
    attempt (do statement; migrate_each entries) (λ r. attempt statement (λ _. lift r))
