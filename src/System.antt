-- ===== src/System.antt =====
-- The program as a whole: what the parts do, one after the other, to the state that they share. This is
-- cmd/server/main.go, where one process serves requests and runs the controller beside them, and
-- cmd/provision/main.go. Every sequence of events is a history here, also one in which a process goes on
-- after a start that has failed, where the program exits.
pub mod Invariant
use opencode_workspaces.Prelude.{ℕ, ◌+◌, Option, some, List, [], ◌∷◌}
use opencode_workspaces.Env.{Env}
use opencode_workspaces.Http.{Request}
use opencode_workspaces.World.{M}
use opencode_workspaces.Config.{Config}
use opencode_workspaces.World.{Result}
use opencode_workspaces.Database.Migrate.{migrate, migration_files}
use opencode_workspaces.Kube.Lifecycle.{reconcile_all}
use opencode_workspaces.Oidc.Flows.{Provider}
use opencode_workspaces.Proxy.{Net, Headers}
use opencode_workspaces.Provision.{Manifest, run}
use opencode_workspaces.Server.{Server, Web, Site}
use opencode_workspaces.Server.Routes.{serve}

-- A process starts, with its migration; a request; a round of the controller; and a run of the
-- provisioning command with the configuration and the manifest that it has read.
pub data Event : Type 0 where
  start reconcile : Event
  request : Request → Headers → Event
  provision : Result Config → Option Manifest → Event

-- An action on the world, whose result nobody looks at.
abbrev pub background : {A : Type 0} → M A → Site → Site
background m s = record s { world = (m s.world).1 }

-- A new process has empty maps.
abbrev pub fresh : Site → Site
fresh s = record s { attempts = []; gateway = record { last_touch = []; backends = [] } }

module _ ⦃env : Env⦄ ⦃provider : Provider⦄ ⦃web : Web⦄ ⦃net : Net⦄ where
  unfoldable pub step : Server → Event → Site → Site
  step server Event.start s = background (migrate migration_files) (fresh s)
  step server Event.reconcile s = background (reconcile_all server.controller) s
  step server (Event.request r h) s = (serve server r h s).1
  step server (Event.provision loaded manifest) s = background (run loaded manifest) s

  -- A history: before each event the clock moves on by some time.
  unfoldable pub live : Server → List (ℕ × Event) → Site → Site
  live server [] s = s
  live server ((d, e) ∷ events) s =
      live server events
        (step server e (record s { world = record s.world { clock = s.world.clock + d } }))
