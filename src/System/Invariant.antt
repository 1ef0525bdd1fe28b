-- ===== src/System/Invariant.antt =====
-- Invariants of the tables over histories of the program: requests, rounds of the controller,
-- provisioning and new processes.
use opencode_workspaces.Prelude.{
  ℕ, suc, ◌+◌, ◌≡◌, sym, subst, String, true, string_eq, Option, none, some, List, [], ◌∷◌, ◌++◌,
}
use mathlib.Core.List.{append-nil}
use opencode_workspaces.Env.{Env}
use opencode_workspaces.Rows.{has}
use opencode_workspaces.Tables.{Tables, AuditRow}
use opencode_workspaces.World.{Result}
use opencode_workspaces.World.Keeps.{
  Keeps, Keeps-bind, Keeps-pure, Keeps-require, Keeps-lift, Keeps-statement, Keeps-or_fail,
  Keeps-if, Keeps-query, Keeps-exec, ok_injective,
}
use opencode_workspaces.World.Keeps.Transactions.{
  Stable-bind, Stable-of_Keeps, Keeps-Stable-transaction,
}
use opencode_workspaces.Config.{Config}
use opencode_workspaces.Database.Sql.{user_key}
use opencode_workspaces.Database.Sound.{IsSound}
use opencode_workspaces.Database.Sound.Calls.{perform-Sound}
use opencode_workspaces.Database.Grows.Methods.{perform-At}
use opencode_workspaces.Database.Grows.Laws.{Extends, Extends-Grows, HasAccount, HasAccount-Grows}
use opencode_workspaces.Database.Preserved.{
  Preserved, list_users-Keeps, provision_user-Keeps, set_workspace_configuration-Keeps,
}
use opencode_workspaces.Database.Migrate.{
  Entry, apply_file, migrate_file, migrate_entry, migrate_each, migrate, migration_files,
}
use opencode_workspaces.Database.Migrate.Once.{around-Keeps}
use opencode_workspaces.Kube.Preserved.{reconcile_all-Keeps}
use opencode_workspaces.Oidc.Flows.{Provider}
use opencode_workspaces.Oidc.Preserved.{save-Keeps}
use opencode_workspaces.Proxy.{Net}
use opencode_workspaces.Provision.{
  UserSeed, OidcSeed, Manifest, provision_seed, provision_seeds, provision_oidc, provision, run,
  first_admin,
}
use opencode_workspaces.Server.{Server, Web, Site}
use opencode_workspaces.Server.Invariant.{serve_preserves}
use opencode_workspaces.System.{Event, step, live}

module _ ⦃env : Env⦄ {P : Tables → Type 0} (p : Preserved P) where
  apply_file-Keeps : (n : String) → Keeps P (apply_file n)
  unfolding apply_file
  apply_file-Keeps n = Keeps-Stable-transaction _ (
      Stable-bind _ _
        (Stable-of_Keeps _
          (Keeps-exec _ (λ t t' h e. subst P (ok_injective e) (p.migration t _ _ h))))
        (λ _.
          Stable-of_Keeps _
            (Keeps-exec _ (λ t t' h e. subst P (ok_injective e) (p.migration t _ _ h)))))

  migrate_each-Keeps : (es : List Entry) → Keeps P (migrate_each es)
  unfolding migrate_each migrate_entry migrate_file
  migrate_each-Keeps [] = Keeps-pure tt
  migrate_each-Keeps (e ∷ es) =
      Keeps-bind _ _
        (Keeps-if _ _ _
          (Keeps-bind _ _ (Keeps-query _)
            (λ b. Keeps-if b _ _ (Keeps-pure tt) (apply_file-Keeps e.name)))
          (Keeps-pure tt))
        (λ _. migrate_each-Keeps es)

  migrate-Keeps : (es : List Entry) → Keeps P (migrate es)
  migrate-Keeps es = around-Keeps P es (migrate_each-Keeps es)

module _ ⦃env : Env⦄ ⦃provider : Provider⦄ {P : Tables → Type 0} (p : Preserved P) where
  provision_seeds-Keeps :
      (a : String) (n : ℕ) (seeds : List UserSeed) → Keeps P (provision_seeds a n seeds)
  unfolding provision_seeds provision_seed
  provision_seeds-Keeps a n [] = Keeps-pure n
  provision_seeds-Keeps a n (s ∷ seeds) =
      Keeps-bind _ _
        (Keeps-bind _ _ (Keeps-require _ _) λ _. Keeps-bind _ _ (Keeps-require _ _) λ _.
          Keeps-bind _ _ (provision_user-Keeps p a _)
            λ u. set_workspace_configuration-Keeps p a u.id s.opencode_config s.api_key)
        (λ _. provision_seeds-Keeps a (suc n) seeds)

  provision_oidc-Keeps : (a : String) (o : Option OidcSeed) → Keeps P (provision_oidc a o)
  provision_oidc-Keeps a none = Keeps-pure tt
  provision_oidc-Keeps a (some s) = save-Keeps p a _ _

  provision-Keeps : (m : Manifest) → Keeps P (provision m)
  unfolding provision
  provision-Keeps m = Keeps-bind _ _ (Keeps-require _ _) λ _. Keeps-bind _ _ list_users-Keeps λ us.
      Keeps-bind _ _ (Keeps-require _ _) λ _.
        Keeps-bind _ _ (provision_seeds-Keeps (first_admin us) 0 m.users)
          λ n. Keeps-bind _ _ (provision_oidc-Keeps (first_admin us) m.oidc) (λ _. Keeps-pure _)

  run-Keeps : (loaded : Result Config) (o : Option Manifest) → Keeps P (run loaded o)
  unfolding run
  run-Keeps loaded o = Keeps-bind _ _ (Keeps-lift loaded) λ _. Keeps-bind _ _ Keeps-statement λ _.
      Keeps-bind _ _ (migrate-Keeps p migration_files)
        λ _. Keeps-bind _ _ (Keeps-or_fail o _) provision-Keeps

module _ ⦃env : Env⦄ ⦃provider : Provider⦄ ⦃web : Web⦄ ⦃net : Net⦄ {P : Tables → Type 0}
    (p : Preserved P) where
  step_preserves :
      (server : Server) (e : Event) (s : Site) → P s.world.tables → P (step server e s).world.tables
  unfolding step
  step_preserves server Event.start s q = (migrate-Keeps p migration_files).at s.world q
  step_preserves server Event.reconcile s q = (reconcile_all-Keeps p server.controller).at s.world q
  step_preserves server (Event.request r h) s q = serve_preserves p server r h s q
  step_preserves server (Event.provision loaded o) s q = (run-Keeps p loaded o).at s.world q

  live_preserves :
      (server : Server) (events : List (ℕ × Event)) (s : Site)
      → P s.world.tables
      → P (live server events s).world.tables
  unfolding live
  live_preserves server [] s q = q
  live_preserves server ((d, e) ∷ events) s q = live_preserves server events _ (
      step_preserves server e (record s { world = record s.world { clock = s.world.clock + d } }) q)

Sound-Preserved : ⦃env : Env⦄ → Preserved (IsSound none)
Sound-Preserved = record {
  call = perform-Sound;
  migration = λ t versions executed v. record {
    paired = v.paired;
    distinct = v.distinct;
    apart = v.apart;
    roles = v.roles;
    states = v.states;
    sessions_owned = v.sessions_owned;
    credentials_owned = v.credentials_owned;
    identities_owned = v.identities_owned;
    configurations_owned = v.configurations_owned;
  };
}

module _ ⦃env : Env⦄ ⦃provider : Provider⦄ ⦃web : Web⦄ ⦃net : Net⦄ where
  -- Whatever happens to the program, from a sound database it has a sound database: requests of
  -- whatever kind, signed in or not, rounds of the controller, new processes and provisioning, in
  -- whatever order and with whatever failures.
  pub live-IsSound :
      (server : Server) (events : List (ℕ × Event)) (s : Site)
      → IsSound none s.world.tables
      → IsSound none (live server events s).world.tables
  live-IsSound server events s v = live_preserves Sound-Preserved server events s v

  -- Nothing that happens to the program removes or changes an event of the audit log.
  pub live_keeps_log :
      (server : Server) (events : List (ℕ × Event)) (s : Site)
      → (rest : List AuditRow) × ((live server events s).world.tables.audit_events
          ≡ s.world.tables.audit_events ++ rest)
  live_keeps_log server events s =
      live_preserves
        (record {
          call =
              perform-At (Extends s.world.tables.audit_events)
                (Extends-Grows s.world.tables.audit_events);
          migration = λ t v e q. q;
        })
        server events s ([], sym (append-nil _))

  -- Nothing that happens to the program removes an account.
  pub live_keeps_account :
      (server : Server) (events : List (ℕ × Event)) (s : Site) (k : String)
      → has user_key k s.world.tables.users ≡ true
      → has user_key k (live server events s).world.tables.users ≡ true
  live_keeps_account server events s k h =
      live_preserves
        (record { call = perform-At (HasAccount k) (HasAccount-Grows k); migration = λ t v e q. q })
        server events s h
