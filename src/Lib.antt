-- ===== src/Lib.antt =====
-- A model of opencode-workspaces, the platform that gives each user of an organisation a workspace
-- of their own in a Kubernetes cluster, and what is proved of it.
--
-- The parts of the program, and how they interact. The store (internal/database) keeps accounts,
-- sessions, settings, workspaces and an audit log in PostgreSQL. Authentication (internal/auth)
-- signs browsers in through the store. The controller (internal/kube) makes the objects of the
-- cluster follow the workspaces in the store. The OIDC login (internal/oidc) finds or makes accounts
-- for those whom a provider vouches for, and the gateway (internal/proxy) passes requests on to
-- workspaces. The HTTP server (internal/httpserver) finds the account of a request and calls all of
-- these; cmd/server/main.go runs it and the controller in one process, and cmd/provision/main.go is
-- a command that fills the same database from a manifest.
--
-- The state is one record, `World` of World.antt: the tables, the objects of the cluster, the clock
-- of the running operation, and how many calls and draws have been made. An operation is an action
-- on it, `M A`, a function from a world to a result or an error and the world after. What was
-- written before an error stays written; a transaction restores the tables. Every call of the
-- database or of the Kubernetes API is one that the environment may fail, by its number, so that a
-- theorem speaks of every pattern of failures. A handler of the HTTP server is a function of the
-- world and the maps of the process, `Site` of Server.antt, to an answer, and `live` of System.antt
-- is a history of the whole program. Operations on the store follow one another: the
-- interleavings of concurrent transactions are PostgreSQL's, and are not modelled.
--
-- Files, by the code that they model:
--   Model.antt        internal/model/model.go
--   Config.antt       internal/config/config.go: the records, and Load in Config/Load.antt over the
--                     record Host of environment variables and parsers
--   Tables.antt       the tables of internal/database/migrations/*.sql, rows in order of insertion
--   Database.antt     internal/database/database.go: Sql has the statements as functions of the
--                     tables, with checks, unique indexes and foreign keys; Users, Sessions,
--                     Workspaces, Settings and Identities have the methods of Store; Vault has
--                     encrypt and decrypt; Migrate is Migrate; Calls has the methods that write as
--                     one data type, with histories of them
--   Auth.antt         internal/auth/auth.go: Passwords, Limiter and Sessions
--   Oidc.antt         internal/oidc/oidc.go: Settings, Flows (the signed cookie), Login (Start and
--                     Callback) and Names
--   Http.antt         what the program uses of net/http
--   Cluster.antt      the Kubernetes objects, with the fields that the controller sets or reads
--   Kube.antt         internal/kube/controller.go: Objects has the objects that it creates,
--                     Reconcile the ensure methods, Status the state of workspaces, Lifecycle
--                     Start, Stop, Restart, Purge and reconcileAll
--   Proxy.antt        internal/proxy/gateway.go
--   Server.antt       internal/httpserver/server.go: Pages has the data of pages and the guards,
--                     SignIn, Account and Admin the handlers, Patterns the patterns of the mux, and
--                     Routes the whole server, with Middleware of internal/auth/auth.go
--   Provision.antt    cmd/provision/main.go, from the decoded manifest on
--   System.antt       what cmd/server/main.go and cmd/provision/main.go do to the state they share
-- A method Name of the source is the definition name: Store.SetWorkspaceState is
-- set_workspace_state of Database/Workspaces.antt. The methods whose source is one long transaction
-- have a definition for its body as well.
--
-- What is not under the repository is a parameter, the record `Env` of Env.antt: hashes, encodings,
-- AES-GCM, JSON, the case mappings, UUIDs and random numbers. Their documented behaviour is the
-- records of laws below it, which the theorems that need one name. The OIDC provider and the JSON of
-- flows and settings are the record `Provider` of Oidc/Flows.antt, what the gateway takes from net/http
-- is `Net` of Proxy.antt, and what the handlers take from net/url, ParseForm and the JSON of the
-- branding is `Web` of Server.antt. The instances of Tests meet
-- those that the theorems use. World/Api.antt has the calls of the Kubernetes API as they are
-- documented: objects under their names, found, listed by labels, created, replaced and deleted.
--
-- Proofs. World/Keeps.antt has postconditions and invariants of actions, a rule for each way to
-- build one; World/Atomic.antt has the rules for failures, World/Steps.antt what a returning action
-- did, World/Leaves.antt invariants of the cluster, World/Queried.antt what a query has found. The
-- modules Preserved say that a part keeps what every method of the store keeps, up to the whole
-- server and System/Invariant.antt; Server/Holds, Hides, Refuses and Steps do for handlers what
-- World/Keeps and World/Steps do for actions. Database/Sound is the integrity of the database,
-- Database/Grows what no call takes away, Database/Spared the account that ProvisionUser acts for,
-- Database/Atomic failures, Database/SignIn sessions, Database/Desired the desired state. The proofs on
-- the other parts stand below the modules that they are about. Tests applies the theorems to runs in a
-- concrete environment.
--
-- Bounds. A time is a natural number of nanoseconds since Go's zero time, and counters are natural
-- numbers: the bigint columns would wrap after 2^63 increments. Texts are sequences of code points;
-- lengths that the source takes in bytes are taken in bytes. Every recursion is on a list, a text or
-- a number, and fuel is used only to print a number, which has no more digits than its successor
-- counts.
--
-- Not modelled: logging, templates and the embedded assets (a page is its name and its data), signals
-- and the listener, the set-up of the clients of PostgreSQL and Kubernetes, the ticker around
-- reconcileAll, and what a workspace answers to the gateway, which are input and output; what
-- the mux does to a path that is not clean; the part of a setting that json.Unmarshal has filled in
-- before it fails, for which Settings of internal/oidc/oidc.go is empty; the statements of the
-- migration files, which the tables of the model stand for; and the order of rows that PostgreSQL
-- leaves open, for which the order of insertion stands. A COMMIT that fails is taken to have written
-- nothing: that the reply to a COMMIT is lost behind its writes is not modelled. Nor are panics: the
-- quantities for CPU, memory and storage of the configuration are taken to be ones that
-- resource.MustParse parses, which panics on others.
pub mod Prelude
pub mod Model
pub mod Cluster
pub mod Env
pub mod Rows
pub mod Tables
pub mod World
pub mod Database
pub mod Http
pub mod Auth
pub mod Oidc
pub mod Config
pub mod Kube
pub mod Proxy
pub mod Server
pub mod Provision
pub mod System
pub mod Tests
