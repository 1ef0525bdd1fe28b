-- ===== src/Database/Migrate/Complete.antt =====
-- What a migration that has returned leaves for another one of the same files.
use opencode_workspaces.Prelude.{
  ◌≡◌, refl, sym, ap, subst, ◌∙◌, String, Bool, true, false, List, [], ◌∷◌, ◌++◌, ◌==◌, string_eq,
  if◌then◌else◌, arith, Bool-cases, inl, inr, All,
}
use opencode_workspaces.Env.{Env}
use opencode_workspaces.Tables.{Tables}
use opencode_workspaces.World.{Result, ok, err, World, M, attempt, statement, lift}
use opencode_workspaces.World.Keeps.{
  Post, Keeps, Keeps-bind, Keeps-pure, Keeps-if, Keeps-statement, Keeps-exec, Keeps-query, Ensures,
  Ensures-bind, ok_injective,
}
use opencode_workspaces.World.Keeps.Transactions.{
  Ensures-of_Keeps, Post_at, Keeps-Stable-transaction, Stable-bind, Stable-of_Keeps,
}
use opencode_workspaces.World.Queried.{Ensures-weaken, Ensures-and, Keeps-query_bind}
use opencode_workspaces.Database.Migrate.{
  Entry, is_migration, is_applied, apply_file, migrate_file, migrate_entry, migrate_each, migrate,
}
use opencode_workspaces.Database.Migrate.Once.{
  IsMigrated, Applied, is_applied-concat, migrate_file-Ensures, around-Keeps,
}

-- If the entry is a migration file, it has run.
abbrev pub Done : Tables → Entry → Type 0
Done t e = is_migration e ≡ true → Applied e.name t

if_same : (b : Bool) → (if b then true else true) ≡ true
if_same true = refl
if_same false = refl

recorded_still :
    (n m : String) (t : Tables)
    → Applied m t
    → Applied m (record t {
      versions = if is_applied n t.versions then t.versions else t.versions ++ n ∷ [];
    })
recorded_still n m t h = elim (Bool-cases (is_applied n t.versions)) [
  | inl old ↦ rw old h
  | inr new ↦ rw new (is_applied-concat m n t.versions ∙ rw h (if_same (n == m)))
]

module _ ⦃env : Env⦄ where
  migrate_entry-Applied : (m : String) (e : Entry) → Keeps (Applied m) (migrate_entry e)
  unfolding migrate_entry migrate_file apply_file
  migrate_entry-Applied m e =
      Keeps-if _ _ _
        (Keeps-bind _ _ (Keeps-query _) (λ b. Keeps-if b _ _ (Keeps-pure tt) (
          Keeps-Stable-transaction _ (
            Stable-bind _ _
              (Stable-of_Keeps _ (Keeps-exec _ (λ t t' h x. subst (Applied m) (ok_injective x) h)))
              (λ _. Stable-of_Keeps _ (
                Keeps-exec _ (λ t t' h x.
                  subst (Applied m) (ok_injective x) (recorded_still e.name m t h))))))))
        (Keeps-pure tt)

  migrate_each-Applied : (m : String) (es : List Entry) → Keeps (Applied m) (migrate_each es)
  unfolding migrate_each
  migrate_each-Applied m [] = Keeps-pure tt
  migrate_each-Applied m (e ∷ es) =
      Keeps-bind _ _ (migrate_entry-Applied m e) (λ _. migrate_each-Applied m es)

  Done-Keeps : (e : Entry) (es : List Entry) → Keeps (λ t. Done t e) (migrate_each es)
  Done-Keeps e es = record { at = λ w d h. (migrate_each-Applied e.name es).at w (d h) }

  migrate_entry-Done :
      (e : Entry) → Ensures IsMigrated (migrate_entry e) (λ _ t. IsMigrated t × Done t e)
  unfolding migrate_entry
  migrate_entry-Done e = elim (Bool-cases (is_migration e)) [
    | inl sql ↦
        rw sql (Ensures-weaken _ _ _ (migrate_file-Ensures e.name) (λ u t q. (q.0, λ _. q.1)))
    | inr other ↦ rw other (record { at = λ w v. (v, λ h. absurd (ground arith)) })
  ]

  migrate_each-Done :
      (es : List Entry) → Ensures IsMigrated (migrate_each es) (λ _ t. All (Done t) es)
  unfolding migrate_each
  migrate_each-Done [] = record { at = λ w v. tt }
  migrate_each-Done (e ∷ es) =
      Ensures-bind (λ _ t. IsMigrated t × Done t e) _ _ _ (migrate_entry-Done e)
        λ _.
          Ensures-weaken _ _ _
            (Ensures-and (λ _ t. All (Done t) es) (λ t. Done t e) _ (migrate_each-Done es)
              (Done-Keeps e es))
            (λ u t q. (q.1, q.0))

  entry-still : (e : Entry) (t : Tables) → Done t e → Keeps (λ t'. t' ≡ t) (migrate_entry e)
  unfolding migrate_entry migrate_file
  entry-still e t done = elim (Bool-cases (is_migration e)) [
    | inl sql ↦ rw sql (
        Keeps-query_bind _ _ (λ v b p x.
          rw (sym (ok_injective x), ap (λ (y : Tables). is_applied e.name y.versions) p, done sql)
            p))
    | inr other ↦ rw other (Keeps-pure tt)
  ]

  migrate_each-still :
      (es : List Entry) (t : Tables) → All (Done t) es → Keeps (λ t'. t' ≡ t) (migrate_each es)
  unfolding migrate_each
  migrate_each-still [] t done = Keeps-pure tt
  migrate_each-still (e ∷ es) t (done, rest) =
      Keeps-bind _ _ (entry-still e t done) (λ _. migrate_each-still es t rest)

  unlocked-Post :
      (Q : Tables → Type 0) (r : Result (Unit {0}) × World)
      → Post (λ _. Q) r
      → Post (λ _. Q) (r.0, (statement r.1).1)
  unlocked-Post Q (ok u, w) q = (Keeps-statement {P = Q}).at w q
  unlocked-Post Q (err e, w) q = tt

  -- Attempting the files, and then giving the lock back.
  unlock-Ensures :
      (P Q : Tables → Type 0) (m : M (Unit {0}))
      → Ensures P m (λ _. Q)
      → Ensures P (attempt m (λ r. attempt statement (λ _. lift r))) (λ _. Q)
  unfolding attempt
  unlock-Ensures P Q m h = record { at = λ w p. unlocked-Post Q (m w) (h.at w p) }

  migrate-Done : (es : List Entry) → Ensures IsMigrated (migrate es) (λ _ t. All (Done t) es)
  unfolding migrate
  migrate-Done es =
      let go = Ensures-of_Keeps statement (Keeps-statement {P = IsMigrated}) in
      Ensures-bind (λ _. IsMigrated) _ _ _ go
        λ _.
          Ensures-bind (λ _. IsMigrated) _ _ _ go
            λ _.
              unlock-Ensures _ _ _
                (Ensures-bind (λ _. IsMigrated) _ _ _ go (λ _. migrate_each-Done es))

  -- After a migration that has returned, every migration file has run.
  pub every_file_runs :
      (es : List Entry) (w w' : World)
      → IsMigrated w.tables
      → migrate es w ≡ (ok tt, w')
      → All (Done w'.tables) es
  every_file_runs es w w' v h =
      Post_at (λ _ t. All (Done t) es) _ tt w' ((migrate-Done es).at w v) h

  -- After a migration that has returned, another one of the same files changes no table, whether it
  -- returns or fails, if the files that had run before were those that the table of versions named,
  -- each of them once.
  pub migrate_again :
      (es : List Entry) (w w' : World)
      → IsMigrated w.tables
      → migrate es w ≡ (ok tt, w')
      → (migrate es w').1.tables ≡ w'.tables
  migrate_again es w w' v h =
      (around-Keeps _ es (migrate_each-still es w'.tables (every_file_runs es w w' v h))).at w' refl
