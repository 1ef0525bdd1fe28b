-- ===== src/Server/Pages.antt =====
-- The data of pages, and the guards of the handlers: data, branding, renderError, requireUser,
-- requireAdmin, csrf, csv and safeHTTPURL.
use Prim.Native.Char.{code}
use Prim.Native.String.{String, [], ◌∷◌}
use opencode_workspaces.Prelude.{
  ℕ, Bool, false, not, ◌&&◌, ◌||◌, Option, none, some, List, leb, ◌==◌, nat_eq, string_eq,
  if◌then◌else◌, get_or, keep, map,
}
use opencode_workspaces.Prelude.Strings.{split, trim_space, every_char, byte_len}
use opencode_workspaces.Model.{Bytes, User, Workspace, Branding, is_admin}
use opencode_workspaces.Env.{Env}
use opencode_workspaces.Http.{Request}
use opencode_workspaces.World.{
  Error, not_found, conflict, already_bootstrapped, duplicate_key, missing, failed,
}
use opencode_workspaces.Config.{Url}
use opencode_workspaces.Config.Load.{is_web}
use opencode_workspaces.Auth.Sessions
use opencode_workspaces.Oidc.Flows.{Provider}
use opencode_workspaces.Oidc.Settings.{settings, no_settings}
use opencode_workspaces.Database.Settings.{setting}
use opencode_workspaces.Kube.Status.{bare_status}
use opencode_workspaces.Server.{
  Server, ViewData, page, text, bare, redirect_to, Web, Handler, pure, answer, ◌>>=◌, ◌>>◌,
  call_ignoring, ensure,
}

-- The zero values of User and of Workspace.
abbrev pub no_user : User
no_user = record {
  id = "";
  username = "";
  display_name = "";
  email = "";
  role = "";
  disabled = false;
  created_at = 0;
  last_login_at = 0;
}

abbrev pub no_workspace : Workspace
no_workspace = record {
  user_id = "";
  resource_name = "";
  desired_state = "";
  restart_nonce = 0;
  last_activity_at = 0;
  created_at = 0;
  updated_at = 0;
  config_revision = 0;
}

-- err.Error(), with a text of the model where the error is a library's
abbrev pub error_text : Error → String
error_text not_found = "not found"
error_text conflict = "conflict"
error_text already_bootstrapped = "installation already bootstrapped"
error_text duplicate_key = "duplicate key"
error_text missing = "missing"
error_text (failed message) = message

abbrev is_name_char : ℕ → Bool
is_name_char c =
    (leb b'A' c && leb c b'Z')
    || (leb b'a' c && leb c b'z')
    || (leb b'0' c && leb c b'9')
    || c == b'.'
    || c == b'_'
    || c == b'-'

-- ^[A-Za-z0-9._-]{2,64}$
unfoldable pub is_username : String → Bool
unfolding every_char
is_username s = leb 2 (byte_len s) && leb (byte_len s) 64 && every_char is_name_char s

abbrev is_hex : ℕ → Bool
is_hex c = (leb b'0' c && leb c b'9') || (leb b'a' c && leb c b'f') || (leb b'A' c && leb c b'F')

-- ^#[0-9a-fA-F]{6}$
unfoldable pub is_colour : String → Bool
unfolding every_char
is_colour [] = false
is_colour (c ∷ s) = code c == b'#' && byte_len s == 6 && every_char is_hex s

abbrev pub is_filled : String → Bool
is_filled s = not (s == "")

unfoldable pub csv : String → List String
unfolding split trim_space
csv value = keep is_filled (map trim_space (split b',' value))

abbrev pub default_name : String
default_name = "OpenCode Workspaces"

abbrev pub default_accent : String
default_accent = "#7c3aed"

abbrev pub default_branding : Branding
default_branding = record {
  name = default_name;
  logo_url = "";
  favicon = "";
  accent = default_accent;
}

-- The name and the accent have defaults, also where the setting leaves them empty.
abbrev pub with_defaults : Branding → Branding
with_defaults b = record b {
  name = if b.name == "" then default_name else b.name;
  accent = if b.accent == "" then default_accent else b.accent;
}

abbrev pub require_user : Option User → Handler User
require_user none = answer (redirect_to 302 "/platform/login")
require_user (some u) = pure u

unfoldable pub require_admin : Option User → Handler User
require_admin u = do
  user ← require_user u
  ensure (is_admin user) (answer (bare (text 403 "forbidden")))
  pure user

module _ ⦃web : Web⦄ where
  abbrev pub url_text : Option Url → String
  url_text none = ""
  url_text (some u) = if is_web u then u.text else ""

  unfoldable pub safe_http_url : String → String
  unfolding is_web trim_space
  safe_http_url value =
      let trimmed = trim_space value in
      if trimmed == "" then "" else url_text (web.parse_url trimmed)

  abbrev pub decoded_branding : Option Bytes → Branding
  decoded_branding none = default_branding
  decoded_branding (some document) = web.branding_of document default_branding

module _ ⦃env : Env⦄ ⦃provider : Provider⦄ ⦃web : Web⦄ where
  unfoldable pub branding : Handler Branding
  branding = do
    document ← call_ignoring none (setting "branding")
    pure (with_defaults (decoded_branding document))

  -- Server.data, for the account that the middleware has found
  unfoldable pub view_data : Request → Option User → Handler ViewData
  view_data r u = do
    login ← call_ignoring no_settings settings
    brand ← branding
    pure (record {
      title = "";
      error = "";
      csrf = get_or (r.cookie Sessions.csrf_cookie_name) "";
      user = get_or u no_user;
      brand = brand;
      oidc = record login { client_secret = "" };
      has_local_auth = false;
      workspace = no_workspace;
      status = bare_status "";
      rows = List.[];
      audit = List.[];
      callback_url = "";
    })

  unfoldable pub render_error : {A : Type 0} → Request → Option User → String → String → Handler A
  render_error r u name message = do
    view ← view_data r u
    answer (bare (page name (record view { error = message })))

  unfoldable pub check_csrf : Server → Request → Handler (Unit {0})
  check_csrf s r = do
    valid ← call_ignoring false (Sessions.csrf_valid s.auth r)
    ensure valid (answer (bare (text 403 "invalid CSRF token")))
