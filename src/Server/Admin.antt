-- ===== src/Server/Admin.antt =====
-- The handlers of administrators: admin, createUser, updateUser, saveBranding, saveOIDC and
-- workspaceAction of internal/httpserver/server.go.
pub mod OwnAccount
use opencode_workspaces.Prelude.{
  String, Bool, true, false, not, ◌&&◌, ◌||◌, Option, none, some, List, [], ◌∷◌, ◌==◌, string_eq,
  if◌then◌else◌, get_or, map,
}
use opencode_workspaces.Prelude.Strings.{trim_space}
use opencode_workspaces.Model.{User, Workspace, WorkspaceStatus, Branding, OidcSettings}
use opencode_workspaces.Env.{Env}
use opencode_workspaces.Http.{Request}
use opencode_workspaces.World.{M, raise, failed}
use opencode_workspaces.World
use opencode_workspaces.Auth.Passwords.{hash_password}
use opencode_workspaces.Database.Users.{list_users, create_local_user, update_user}
use opencode_workspaces.Database.Workspaces.{list_workspaces}
use opencode_workspaces.Database.Settings.{audit_events, set_setting}
use opencode_workspaces.Kube.Status.{statuses, bare_status, lookup, insert}
use opencode_workspaces.Kube.Lifecycle.{start, stop, restart, purge}
use opencode_workspaces.Kube.Objects.{Controller}
use opencode_workspaces.Oidc.Flows.{Provider}
use opencode_workspaces.Oidc.Login.{callback_url}
use opencode_workspaces.Oidc.Settings.{settings, save, no_settings}
use opencode_workspaces.Server.{
  Server, AdminRow, ViewData, page, text, redirect, Response, bare, error_page, redirect_to, Web,
  Handler, pure, answer, ◌>>=◌, ◌>>◌, call, call_or, call_ignoring, ensure,
}
use opencode_workspaces.Server.Pages.{
  no_workspace, is_username, is_colour, is_filled, csv, safe_http_url, view_data, require_admin,
  check_csrf,
}

-- The map of workspaces by their users.
unfoldable pub workspaces_by_user :
    List Workspace → List (String × Workspace) → List (String × Workspace)
workspaces_by_user [] m = m
workspaces_by_user (w ∷ ws) m = workspaces_by_user ws (insert w.user_id w m)

abbrev pub row_of : List (String × Workspace) → List (String × WorkspaceStatus) → User → AdminRow
row_of ws states user =
    let w = get_or (lookup user.id ws) no_workspace in
    record {
      user = user;
      workspace = w;
      status = get_or (lookup w.resource_name states) (bare_status "");
    }

unfoldable pub is_known_role : String → Bool
is_known_role role = role == "user" || role == "admin"

-- Whether a change of the account would take the actor's own role or access.
unfoldable pub locks_out : User → String → String → Bool → Bool
locks_out actor id role disabled = id == actor.id && (disabled || not (role == "admin"))

-- The password of the form, if it has one.
unfoldable pub optional_hash : ⦃env : Env⦄ → String → Handler String
optional_hash password =
    if password == ""
    then pure ""
    else call_or (hash_password password) (λ e. answer (error_page 400))

abbrev pub branding_of_form : ⦃web : Web⦄ → Request → Branding
branding_of_form r = record {
  name = trim_space (r.form "name");
  logo_url = safe_http_url (r.form "logo_url");
  favicon = safe_http_url (r.form "favicon_url");
  accent = r.form "accent";
}

-- The settings of the form; an empty secret keeps the old one.
abbrev pub settings_of_form : Request → OidcSettings → OidcSettings
settings_of_form r old = record {
  enabled = is_filled (r.form "enabled");
  issuer = r.form "issuer";
  client_id = r.form "client_id";
  client_secret =
      let secret = r.form "client_secret" in if secret == "" then old.client_secret else secret;
  scopes = "openid" ∷ "profile" ∷ "email" ∷ [];
  auto_provision = is_filled (r.form "auto_provision");
  link_by_email = is_filled (r.form "link_by_email");
  allowed_domains = csv (r.form "allowed_domains");
  admin_groups = csv (r.form "admin_groups");
  has_client_secret = false;
  configured = false;
}

module _ ⦃env : Env⦄ ⦃provider : Provider⦄ ⦃web : Web⦄ where
  unfoldable pub admin : Server → Request → Option User → Handler Response
  admin s r u = do
    user ← require_admin u
    view ← view_data r u
    users ← call_or list_users (λ e. answer (error_page 500))
    ws ← call_or list_workspaces (λ e. answer (error_page 500))
    states ← call_or (statuses ws) (λ e. answer (error_page 500))
    events ← call_ignoring [] (audit_events 50)
    pure (
        bare (
          page "admin" (record view {
            user = user;
            rows = map (row_of (workspaces_by_user ws []) states) users;
            audit = events;
            callback_url = callback_url s.oidc;
          })))

  unfoldable pub create_user : Server → Request → Option User → Handler Response
  create_user s r u = do
    actor ← require_admin u
    check_csrf s r
    let username = trim_space (r.form "username")
    let role = r.form "role"
    ensure (is_username username && is_known_role role) (answer (error_page 400))
    hash ← call_or (hash_password (r.form "password")) (λ e. answer (error_page 400))
    call_or
        (create_local_user actor.id username (r.form "display_name") (r.form "email") role hash
          r.remote_addr)
        (λ e. answer (error_page 400))
    pure (redirect_to 303 "/platform/admin")

  -- `id` is the last part of the path.
  unfoldable pub update_account : Server → Request → Option User → String → Handler Response
  update_account s r u id = do
    actor ← require_admin u
    check_csrf s r
    let role = r.form "role"
    ensure (is_known_role role) (answer (error_page 400))
    hash ← optional_hash (r.form "password")
    let disabled = is_filled (r.form "disabled")
    ensure (not (locks_out actor id role disabled)) (answer (error_page 400))
    call_or
        (update_user actor.id id (trim_space (r.form "display_name")) (trim_space (r.form "email"))
          role disabled hash r.remote_addr)
        (λ e. answer (error_page 400))
    pure (redirect_to 303 "/platform/admin")

  unfoldable pub save_branding : Server → Request → Option User → Handler Response
  save_branding s r u = do
    actor ← require_admin u
    check_csrf s r
    let brand = branding_of_form r
    ensure (is_filled brand.name && is_colour brand.accent) (answer (error_page 400))
    call_or (set_setting actor.id "branding" (web.branding_json brand) false r.remote_addr)
        (λ e. answer (error_page 500))
    pure (redirect_to 303 "/platform/admin")

  unfoldable pub save_oidc : Server → Request → Option User → Handler Response
  save_oidc s r u = do
    actor ← require_admin u
    check_csrf s r
    old ← call_ignoring no_settings settings
    call_or (save actor.id (settings_of_form r old) r.remote_addr) (λ e. answer (error_page 400))
    pure (redirect_to 303 "/platform/admin")

  -- The action of the path, if it is one.
  unfoldable pub action_of : Controller → String → String → String → String → Option (M (Unit {0}))
  action_of c actor id action remote =
      if action == "start"
      then some (start c id)
      else if action == "stop"
      then some (stop c actor id remote)
      else if action == "restart"
      then some (restart c actor id remote)
      else if action == "purge"
      then some (purge c actor id remote)
      else none

  abbrev pub act : Option (M (Unit {0})) → Handler Response
  act none = pure (bare (text 404 "404 page not found"))
  act (some m) = do
    call_or m (λ e. answer (error_page 500))
    pure (redirect_to 303 "/platform/admin")

  unfoldable pub workspace_action :
      Server → Request → Option User → String → String → Handler Response
  workspace_action s r u id action = do
    actor ← require_admin u
    check_csrf s r
    act (action_of s.controller actor.id id action r.remote_addr)
