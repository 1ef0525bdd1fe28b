-- ===== src/Server.antt =====
-- internal/httpserver/server.go: the handlers of the HTTP server. Here are what they answer with, the
-- state that they run on, and the steps that they are made of.
pub mod Holds
pub mod Pages
pub mod Refuses
pub mod Steps
pub mod SignIn
pub mod Account
pub mod Admin
pub mod Patterns
pub mod Routes
pub mod Preserved
pub mod Invariant
pub mod Guards
pub mod Hides
pub mod Discreet
pub mod Forged
pub mod Authorised
use opencode_workspaces.Prelude.{
  ℕ, String, Bool, true, false, Option, none, some, List, [], ◌∷◌, ◌==◌, nat_eq, if◌then◌else◌,
}
use opencode_workspaces.Model.{
  Bytes, User, Workspace, WorkspaceStatus, Branding, OidcSettings, AuditEvent,
}
use opencode_workspaces.Http.{Request, Cookie}
use opencode_workspaces.World.{Error, Result, ok, err, World, M}
use opencode_workspaces.Auth.Limiter.{Attempts}
use opencode_workspaces.Auth.Sessions
use opencode_workspaces.Oidc.Flows
use opencode_workspaces.Config.{Url}
use opencode_workspaces.Kube.Objects.{Controller}
use opencode_workspaces.Proxy.{Gateway, Reply}

-- The managers of Server that do not change.
pub record Server : Type 0 where
  pub auth : Sessions.Manager
  pub oidc : Flows.Manager
  pub controller : Controller

pub record AdminRow : Type 0 where
  pub user : User
  pub workspace : Workspace
  pub status : WorkspaceStatus

pub record ViewData : Type 0 where
  pub title : String
  pub error : String
  pub csrf : String
  pub user : User
  pub brand : Branding
  pub oidc : OidcSettings
  pub has_local_auth : Bool
  pub workspace : Workspace
  pub status : WorkspaceStatus
  pub rows : List AdminRow
  pub audit : List AuditEvent
  pub callback_url : String

-- A template with its data, http.Error or a short text, http.Redirect, the document of bootstrapAPI,
-- an embedded file, and what the gateway answers.
pub data Body : Type 0 where
  page : String → ViewData → Body
  text : ℕ → String → Body
  redirect : ℕ → String → Body
  bootstrap : User → Branding → Body
  static_file : String → Body
  from_gateway : Reply → Body

pub record Response : Type 0 where
  pub body : Body
  pub cookies : List Cookie

abbrev pub bare : Body → Response
bare b = record { body = b; cookies = [] }

-- http.StatusText, at the statuses that the handlers use
abbrev pub status_text : ℕ → String
status_text status =
    if status == 400
    then "Bad Request"
    else if status == 401
    then "Unauthorized"
    else if status == 403
    then "Forbidden"
    else "Internal Server Error"

-- Server.error
abbrev pub error_page : ℕ → Response
error_page status = bare (text status (status_text status))

abbrev pub redirect_to : ℕ → String → Response
redirect_to status location = bare (redirect status location)

-- What the handlers call of Go's libraries beyond the others: ParseForm, whether it succeeds;
-- url.Parse; url.PathUnescape; r.URL.RequestURI() and url.QueryEscape; and encoding/json on the branding, where
-- `branding_of` is what Unmarshal leaves in the value that it is given.
pub record Web : Type 0 where
  pub parses_form : Request → Bool
  pub parse_url : String → Option Url
  pub path_unescape : String → String
  pub request_uri : Request → String
  pub query_escape : String → String
  pub branding_json : Branding → Bytes
  pub branding_of : Bytes → Branding → Branding

-- The state of the process, and the world that it calls.
pub record Site : Type 0 where
  pub world : World
  pub attempts : Attempts
  pub gateway : Gateway

-- A handler has answered, or goes on with a value.
pub data Outcome (A : Type 0) : Type 0 where
  answered : Response → Outcome A
  next : A → Outcome A

abbrev pub Handler : Type 0 → Type 0
Handler A = Site → Outcome A × Site

abbrev pub pure : {A : Type 0} → A → Handler A
pure a s = (next a, s)

abbrev pub answer : {A : Type 0} → Response → Handler A
answer r s = (answered r, s)

abbrev pub go_on : {A B : Type 0} → Outcome A → (A → Handler B) → Handler B
go_on (answered r) f s = (answered r, s)
go_on (next a) f s = f a s

infixl 10 ◌>>=◌ ◌>>◌
unfoldable pub ◌>>=◌ : {A B : Type 0} → Handler A → (A → Handler B) → Handler B
◌>>=◌ h f s = let (o, s') = h s in go_on o f s'

abbrev pub ◌>>◌ : {A B : Type 0} → Handler A → Handler B → Handler B
h >> k = h >>= λ _. k

-- A call of another component, with its result or its error.
unfoldable pub call : {A : Type 0} → M A → Handler (Result A)
call m s = let (r, w) = m s.world in (next r, record s { world = w })

abbrev pub on_error : {A : Type 0} → (Error → Handler A) → Result A → Handler A
on_error bad (ok a) = pure a
on_error bad (err e) = bad e

-- `if err != nil { …; return }`
unfoldable pub call_or : {A : Type 0} → M A → (Error → Handler A) → Handler A
call_or m bad = call m >>= on_error bad

abbrev pub value_or : {A : Type 0} → A → Result A → A
value_or d (ok a) = a
value_or d (err e) = d

-- `value, _ := …`, whose value is the zero value on an error
unfoldable pub call_ignoring : {A : Type 0} → A → M A → Handler A
call_ignoring zero_value m = call m >>= λ r. pure (value_or zero_value r)

unfoldable pub ensure : Bool → Handler (Unit {0}) → Handler (Unit {0})
ensure b bad s = if b then (next tt, s) else bad s
