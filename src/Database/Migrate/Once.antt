-- ===== src/Database/Migrate/Once.antt =====
-- The files that have run, beside the table of versions, before and after Migrate.
use opencode_workspaces.Prelude.{
  ◌≡◌, refl, ap, subst, ◌∙◌, String, true, false, List, [], ◌∷◌, ◌++◌, ◌==◌, string_eq, str_iff,
  if◌then◌else◌, arith,
}
use opencode_workspaces.Env.{Env}
use opencode_workspaces.Tables.{Tables}
use opencode_workspaces.World.{World, pure}
use opencode_workspaces.World.Keeps.{
  Keeps, Keeps-bind, Keeps-attempt, Keeps-pure, Keeps-if, Keeps-lift, Keeps-query, Keeps-statement,
  Ensures, Ensures-bind, Ensures-query, Ensures-exec, ok_injective,
}
use opencode_workspaces.World.Keeps.Transactions.{Ensures-transaction}
use opencode_workspaces.World.Queried.{Ensures-weaken}
use opencode_workspaces.World.Atomic.{
  Atomic, Atomic-bind, Atomic-if, Atomic-pure, Atomic-transaction, Keeps-of_Atomic,
}
use opencode_workspaces.Database.Migrate.{
  Entry, is_applied, apply_file, migrate_file, migrate_entry, migrate_each, migrate,
}

-- No version stands twice in the list.
abbrev pub NoRepeat : List String → Type 0
NoRepeat [] = Unit
NoRepeat (v ∷ vs) = (is_applied v vs ≡ false) × NoRepeat vs

-- The files that have run are those that schema_migrations names, each of them once.
pub record IsMigrated (t : Tables) : Type 0 where
  pub recorded : t.executed ≡ t.versions
  pub once : NoRepeat t.versions

pub is_applied-concat :
    (n m : String) (vs : List String)
    → is_applied n (vs ++ m ∷ []) ≡ (if m == n then true else is_applied n vs)
is_applied-concat n m [] = ground arith
is_applied-concat n m (v ∷ vs) = ground (arith, is_applied-concat n m vs)

NoRepeat-concat :
    (n : String) (vs : List String)
    → is_applied n vs ≡ false
    → NoRepeat vs
    → NoRepeat (vs ++ n ∷ [])
NoRepeat-concat n [] h k = ground arith
NoRepeat-concat n (v ∷ vs) h k =
    ground (arith, NoRepeat-concat n vs, is_applied-concat v n vs, str_iff v n, str_iff n v)

-- The tables between the statements of a file and its row.
abbrev Executed : String → Tables → Type 0
Executed n t =
    (t.executed ≡ t.versions ++ n ∷ []) × (is_applied n t.versions ≡ false) × NoRepeat t.versions

abbrev pub Applied : String → Tables → Type 0
Applied n t = is_applied n t.versions ≡ true

Executed_lem :
    (n : String) (t : Tables)
    → IsMigrated t
    → is_applied n t.versions ≡ false
    → Executed n (record t { executed = t.executed ++ n ∷ [] })
Executed_lem n t v h = (ap (λ x. x ++ n ∷ []) v.recorded, h, v.once)

IsMigrated-record_version :
    (n : String) (t : Tables)
    → Executed n t
    → IsMigrated (record t {
      versions = if is_applied n t.versions then t.versions else t.versions ++ n ∷ [];
    })
      × Applied n (record t {
        versions = if is_applied n t.versions then t.versions else t.versions ++ n ∷ [];
      })
IsMigrated-record_version n t (same, fresh, once) = rw (fresh) (
  record { recorded = same; once = NoRepeat-concat n t.versions fresh once },
  is_applied-concat n n t.versions ∙ rw ((str_iff n n).1 refl) refl,
)

module _ ⦃env : Env⦄ where
  apply_file-Ensures :
      (n : String)
      → Ensures
          (λ t. IsMigrated t × (is_applied n t.versions ≡ false))
          (apply_file n)
          (λ _ t. IsMigrated t × Applied n t)
  unfolding apply_file
  apply_file-Ensures n = Ensures-transaction _ _ _ (
      Ensures-bind (λ _. Executed n) _ _ _
        (Ensures-exec _ _
          (λ t t' p e. subst (Executed n) (ok_injective e) (Executed_lem n t p.0 p.1)))
        (λ _. Ensures-exec _ _ (λ t t' p e.
          subst (λ x. IsMigrated x × Applied n x) (ok_injective e)
            (IsMigrated-record_version n t p))))

  pub migrate_file-Ensures :
      (n : String) → Ensures IsMigrated (migrate_file n) (λ _ t. IsMigrated t × Applied n t)
  unfolding migrate_file
  migrate_file-Ensures n =
      Ensures-bind (λ b t. IsMigrated t × (is_applied n t.versions ≡ b)) _ _ _
        (Ensures-query _ _ (λ t b p e. (p, ok_injective e)))
        λ b.
          elim b
            as (λ b.
              Ensures (λ t. IsMigrated t × (is_applied n t.versions ≡ b))
                (if b then pure tt else apply_file n) (λ _ t. IsMigrated t × Applied n t)) [
                  | true ↦ record { at = λ w p. p }
                  | false ↦ apply_file-Ensures n
                ]

  migrate_file-Atomic : (n : String) → Atomic (migrate_file n)
  unfolding migrate_file apply_file
  migrate_file-Atomic n =
      Atomic-bind _ _ (λ t. Keeps-query _)
        (λ b. Atomic-if b _ _ (Atomic-pure tt) (Atomic-transaction _))

  migrate_file-Keeps : (n : String) → Keeps IsMigrated (migrate_file n)
  migrate_file-Keeps n =
      Keeps-of_Atomic _ (Ensures-weaken _ _ _ (migrate_file-Ensures n) (λ u t q. q.0))
        (migrate_file-Atomic n)

  migrate_entry-Keeps : (e : Entry) → Keeps IsMigrated (migrate_entry e)
  unfolding migrate_entry
  migrate_entry-Keeps e = Keeps-if _ _ _ (migrate_file-Keeps e.name) (Keeps-pure tt)

  migrate_each-Keeps : (es : List Entry) → Keeps IsMigrated (migrate_each es)
  unfolding migrate_each
  migrate_each-Keeps [] = Keeps-pure tt
  migrate_each-Keeps (e ∷ es) = Keeps-bind _ _ (migrate_entry-Keeps e) (λ _. migrate_each-Keeps es)

  -- What surrounds the files reads and writes no table.
  pub around-Keeps :
      (P : Tables → Type 0) (es : List Entry) → Keeps P (migrate_each es) → Keeps P (migrate es)
  unfolding migrate
  around-Keeps P es k = search (Keeps-bind, Keeps-attempt, Keeps-statement, Keeps-lift)

  -- If the files that have run are those that the table of versions names, each of them once, then
  -- so they are after a migration, whatever fails in it.
  pub migrate-IsMigrated :
      (es : List Entry) (w : World) → IsMigrated w.tables → IsMigrated (migrate es w).1.tables
  migrate-IsMigrated es w v = (around-Keeps IsMigrated es (migrate_each-Keeps es)).at w v
