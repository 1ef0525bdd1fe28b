-- ===== src/Server/Patterns.antt =====
-- The patterns of the mux in Handler of internal/httpserver/server.go.
use opencode_workspaces.Prelude.{
  String, Bool, true, false, not, ◌&&◌, ◌||◌, List, [], ◌∷◌, map, ◌==◌, string_eq, if◌then◌else◌,
}
use opencode_workspaces.Prelude.Strings.{split}
use opencode_workspaces.Http.{Request}
use opencode_workspaces.Server.{Web}

-- The patterns of the mux. `subtree` is its redirect of a path without the slash that a pattern has.
pub data Route : Type 0 where
  static subtree : String → Route
  healthz readyz setup_form setup login_form login logout oidc_login oidc_callback : Route
  bootstrap_document home stop_workspace admin_page create_user change_password : Route
  save_branding save_oidc gateway : Route
  update_user : String → Route
  workspace_action : String → String → Route

-- The pattern GET takes HEAD as well.
abbrev pub is_get : String → Bool
is_get method = method == "GET" || method == "HEAD"

-- The path is the literal pattern with these segments.
unfoldable pub is_at : List String → List String → Bool
is_at [] [] = true
is_at (a ∷ as') (b ∷ bs) = a == b && is_at as' bs
is_at _ _ = false

-- The path is under the pattern with these segments and a slash at the end.
unfoldable pub is_under : List String → List String → Bool
is_under [] [] = false
is_under [] (b ∷ bs) = true
is_under (a ∷ as') [] = false
is_under (a ∷ as') (b ∷ bs) = a == b && is_under as' bs

-- The pattern of a GET, by the segments below the root.
unfoldable pub get_route : String → List String → Route
get_route path segments =
    if is_at ("healthz" ∷ []) segments
    then Route.healthz
    else if is_at ("readyz" ∷ []) segments
    then Route.readyz
    else if is_at ("platform" ∷ "setup" ∷ []) segments
    then Route.setup_form
    else if is_at ("platform" ∷ "login" ∷ []) segments
    then Route.login_form
    else if is_at ("platform" ∷ "auth" ∷ "oidc" ∷ "login" ∷ []) segments
    then Route.oidc_login
    else if is_at ("platform" ∷ "auth" ∷ "oidc" ∷ "callback" ∷ []) segments
    then Route.oidc_callback
    else if is_at ("platform" ∷ "api" ∷ "v1" ∷ "bootstrap" ∷ []) segments
    then Route.bootstrap_document
    else if is_at ("platform" ∷ "admin" ∷ []) segments
    then Route.admin_page
    else if is_at ("platform" ∷ []) segments || is_at ("platform" ∷ "static" ∷ []) segments
    then Route.subtree path
    else if is_under ("platform" ∷ "static" ∷ []) segments
    then Route.static path
    else if is_under ("platform" ∷ []) segments
    then Route.home
    else Route.gateway

-- A segment that a wildcard takes: not the empty one behind a slash at the end, nor an escaped slash,
-- which the mux does not tell from it.
unfoldable pub is_wild : String → Bool
is_wild segment = not (segment == "" || segment == "/")

-- The two patterns with wildcards.
abbrev pub wild_route : List String → Route
wild_route (a ∷ b ∷ c ∷ id ∷ []) =
    if a == "platform" && b == "admin" && c == "users" && is_wild id
    then Route.update_user id
    else Route.gateway
wild_route (a ∷ b ∷ c ∷ id ∷ action ∷ []) =
    if a == "platform" && b == "admin" && c == "workspaces" && is_wild id && is_wild action
    then Route.workspace_action id action
    else Route.gateway
wild_route _ = Route.gateway

-- The pattern of a POST, by the segments below the root.
unfoldable pub post_route : List String → Route
post_route segments =
    if is_at ("platform" ∷ "setup" ∷ []) segments
    then Route.setup
    else if is_at ("platform" ∷ "login" ∷ []) segments
    then Route.login
    else if is_at ("platform" ∷ "logout" ∷ []) segments
    then Route.logout
    else if is_at ("platform" ∷ "workspace" ∷ "stop" ∷ []) segments
    then Route.stop_workspace
    else if is_at ("platform" ∷ "admin" ∷ "users" ∷ []) segments
    then Route.create_user
    else if is_at ("platform" ∷ "account" ∷ "password" ∷ []) segments
    then Route.change_password
    else if is_at ("platform" ∷ "admin" ∷ "branding" ∷ []) segments
    then Route.save_branding
    else if is_at ("platform" ∷ "admin" ∷ "oidc" ∷ []) segments
    then Route.save_oidc
    else wild_route segments

abbrev pub below_root : List String → List String
below_root [] = []
below_root (root ∷ segments) = segments

module _ ⦃web : Web⦄ where
  -- The segments of the path as it was sent, each of them unescaped.
  unfoldable pub path_segments : Request → List String
  path_segments r = below_root (map web.path_unescape (split b'/' r.escaped_path))

  -- The pattern of a request. The mux takes the most specific one, and `/` takes every other method.
  unfoldable pub route : Request → Route
  route r =
      if is_get r.method
      then get_route r.path (path_segments r)
      else if r.method == "POST"
      then post_route (path_segments r)
      else Route.gateway
