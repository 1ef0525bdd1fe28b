-- ===== src/Tests/Server.antt =====
-- Requests to the server.
use opencode_workspaces.Prelude.{◌≡◌, refl, true, none, some, [], ◌∷◌, string_eq, inl, arith}
use opencode_workspaces.Prelude.Strings.{split}
use opencode_workspaces.Model.{User, is_admin}
use opencode_workspaces.Http.{Request}
use opencode_workspaces.Tables.{CredentialRow}
use opencode_workspaces.World.{World}
use opencode_workspaces.Auth.Limiter
use opencode_workspaces.Auth.Passwords.{encoded_hash}
use opencode_workspaces.Database.Users
use opencode_workspaces.Server.{Server, Web, Site, answered}
use opencode_workspaces.Server.Patterns.{Route}
use opencode_workspaces.Server.Routes.{dispatch, serve}
use opencode_workspaces.Server.Guards.{refusal, admin_routes_refuse}
use opencode_workspaces.Server.Forged.{IsStopped, forged_request_stops}
use opencode_workspaces.Prelude.{◌⊎◌}
use opencode_workspaces.Server.Routes.{handle}
use opencode_workspaces.Server.Patterns.{route, get_route, path_segments, is_at, is_under}
use opencode_workspaces.Server.Authorised.{IsByAdmin, admin_routes_ask_for_session}
use opencode_workspaces.Server.Hides.{IsDiscreet}
use opencode_workspaces.Server.Discreet.{serve-IsDiscreet}
use opencode_workspaces.Server.Refuses.{HasRefused}
use opencode_workspaces.Server.Admin.{update_account}
use opencode_workspaces.Server.Admin.OwnAccount.{own_account_stays}
use opencode_workspaces.Auth.Sessions.{NewSession, session_cookie, csrf_cookie}
use opencode_workspaces.Auth.Sessions.Untouched.{Rest}
use opencode_workspaces.Tests.Sample.{
  test_env, bytes_laws, some_world, some_tables, test_manager, test_controller, request_with,
  program,
}
use opencode_workspaces.Tests.Logins.{test_provider, oidc_manager, oidc_world}
use opencode_workspaces.Tests.Gateway.{test_net, new_gateway, ann_user}

instance abbrev pub test_web : Web
test_web = record {
  parses_form = λ r. true;
  parse_url = λ s. some (record { scheme = "https"; host = "example.com"; text = s });
  path_unescape = λ s. s;
  request_uri = λ r. r.path;
  query_escape = λ s. s;
  branding_json = λ b. [];
  branding_of = λ b d. d;
}

abbrev pub test_server : Server
test_server = record { auth = test_manager; oidc = oidc_manager; controller = test_controller }

-- A process that has just started, with the world given.
abbrev pub site_of : World → Site
site_of w = record { world = w; attempts = []; gateway = new_gateway }

abbrev bob_user : User
bob_user = record ann_user { id = "beta"; username = "bob"; role = "user" }

-- Bob, who is no administrator, asks for the workspace of Ann to be purged.
admin_routes_refuse_example :
    dispatch test_server
      (request_with (some "key.ab") "csrf")
      []
      (some bob_user)
      (Route.workspace_action "alpha" "purge")
      (site_of some_world)
    ≡ (answered (refusal (some bob_user)), site_of some_world)
unfolding is_admin
admin_routes_refuse_example =
    admin_routes_refuse test_server (request_with (some "key.ab") "csrf") [] (some bob_user)
      (Route.workspace_action "alpha" "purge") (site_of some_world) refl refl

-- A request of Ann's browser with a wrong token.
forged_request_stops_example : IsStopped (site_of some_world) (
    dispatch test_server
      (request_with (some "key.ab") "wrong")
      []
      (some ann_user)
      Route.save_oidc
      (site_of some_world))
unfolding program
forged_request_stops_example =
    forged_request_stops test_server (request_with (some "key.ab") "wrong") [] (some ann_user)
      Route.save_oidc (site_of some_world) refl (λ h. absurd (ground arith))

abbrev admin_page : Request
admin_page = record (request_with (some "key.ab") "csrf") {
  method = "GET";
  path = "/platform/admin";
  escaped_path = "/platform/admin";
}

-- Without a cookie.
abbrev unknown_request : Request
unknown_request = record (request_with none "") {
  method = "GET";
  path = "/platform/admin";
  escaped_path = "/platform/admin";
}

admin_routes_ask_for_session_example :
    IsByAdmin test_manager unknown_request some_world
    ⊎ IsStopped (site_of some_world) (handle test_server unknown_request [] (site_of some_world))
unfolding route get_route path_segments is_at is_under split
admin_routes_ask_for_session_example =
    admin_routes_ask_for_session test_server unknown_request [] (site_of some_world) bytes_laws refl

serve-IsDiscreet_example :
    IsDiscreet (serve test_server admin_page [] (site_of oidc_world)).0.response
serve-IsDiscreet_example = serve-IsDiscreet test_server admin_page [] (site_of oidc_world)

-- The form without a value in its field `disabled`, and with the role of a user.
abbrev demotion : Request
demotion = record (request_with (some "key.ab") "csrf") { form = λ name. "user" }

own_account_stays_example :
    HasRefused
      (Rest some_tables)
      (update_account test_server demotion (some ann_user) "alpha" (site_of some_world))
own_account_stays_example =
    own_account_stays test_server demotion ann_user (site_of some_world) (inl refl)

abbrev ann_credential : CredentialRow
ann_credential = record {
  user_id = "alpha";
  password_hash = encoded_hash "ann" (3 ∷ []);
  changed_at = 5;
}

abbrev with_password : World
with_password = record some_world {
  tables = record some_tables { credentials = ann_credential ∷ [] };
}

-- One value for every field of the form.
abbrev ann_form : Request
ann_form = record (request_with none "") {
  form = λ name. "ann";
  path = "/platform/login";
  escaped_path = "/platform/login";
}

abbrev ann_signed_in : NewSession
ann_signed_in = record {
  csrf = "ab";
  cookies = session_cookie test_manager "b.ab" ∷ csrf_cookie test_manager "ab" ∷ [];
}
