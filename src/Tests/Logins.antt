-- ===== src/Tests/Logins.antt =====
-- Runs of the logins through a provider.
use opencode_workspaces.Prelude.{
  ◌*◌, ◌≡◌, refl, String, true, false, none, some, [], ◌∷◌, leb, string_eq,
}
use opencode_workspaces.Prelude.Strings.{◌<>◌, every_char, byte_len}
use opencode_workspaces.Model.{OidcSettings, minute}
use opencode_workspaces.Http.{Request}
use opencode_workspaces.Tables.{SettingRow, IdentityRow}
use opencode_workspaces.World.{ok, World}
use opencode_workspaces.Database.Sql.{user_of}
use opencode_workspaces.Database.Settings
use opencode_workspaces.Database.Settings.{setting, document_of}
use opencode_workspaces.Database.Identities.{oidc_user, find_identity}
use opencode_workspaces.Oidc.Names.{is_plain, safe_username, domain_allowed}
use opencode_workspaces.Oidc.Names.Safe.{safe_username_lem}
use opencode_workspaces.Oidc.Flows.{
  Flow, Claims, Provider, Manager, flow_mac, encode_flow, decode_flow,
}
use opencode_workspaces.Oidc.Settings.{no_settings, settings}
use opencode_workspaces.Oidc.Login.{callback, verified_claims}
use opencode_workspaces.Oidc.Admission.{IsAdmitted, callback-IsAdmitted}
use opencode_workspaces.Oidc.Admission.Signed.{decode_flow-encode_flow, decoded_flow_is_signed}
use opencode_workspaces.Tests.Sample.{
  test_env, url_laws, bytes_laws, ann, some_world, some_tables, no_header, program,
}

abbrev a_flow : Flow
a_flow = record { state = "state"; nonce = "nonce"; verifier = "verifier"; expires = 700 * minute }

abbrev some_claims : Claims
some_claims = record {
  subject = "subject";
  email = "ann@example.com";
  email_verified = true;
  name = "Ann";
  preferred_username = "ann";
  nonce = "nonce";
  groups = [];
}

abbrev some_settings : OidcSettings
some_settings = record no_settings {
  enabled = true;
  issuer = "https://issuer";
  client_id = "client";
  client_secret = "secret";
}

instance abbrev pub test_provider : Provider
test_provider = record {
  discover = λ issuer. true;
  auth_url = λ s redirect state nonce challenge. "https://issuer/login";
  exchange = λ s authorization_code verifier. some (some "raw");
  verify = λ s raw. some some_claims;
  flow_json = λ f. 1 ∷ [];
  flow_of = λ b. some a_flow;
  settings_json = λ s. [];
  settings_of = λ b. some some_settings;
}

abbrev pub oidc_manager : Manager
oidc_manager = record { signing_key = 7 ∷ []; base = "https://example.com/"; cookie_secure = true }

safe_username_lem_example :
    (every_char is_plain (safe_username "Ann O" "ann@example.com") ≡ true)
    × (leb 2 (byte_len (safe_username "Ann O" "ann@example.com")) ≡ true)
safe_username_lem_example = safe_username_lem "Ann O" "ann@example.com"

decode_flow-encode_flow_example :
    decode_flow oidc_manager (encode_flow oidc_manager a_flow) ≡ ok a_flow
decode_flow-encode_flow_example = decode_flow-encode_flow oidc_manager a_flow url_laws refl

decoded_flow_is_signed_example :
    (payload : String) × ("ab.ab" ≡ payload <> ("." <> flow_mac oidc_manager payload))
unfolding program decode_flow flow_mac
decoded_flow_is_signed_example = decoded_flow_is_signed oidc_manager "ab.ab" a_flow bytes_laws refl

abbrev stored_settings : SettingRow
stored_settings = record {
  key = "auth.oidc";
  value = [];
  encrypted = false;
  updated_at = 5;
  updated_by = none;
}

abbrev ann_identity : IdentityRow
ann_identity = record {
  issuer = "https://issuer";
  subject = "subject";
  user_id = "alpha";
  email = none;
  created_at = 5;
}

abbrev pub oidc_world : World
oidc_world = record some_world {
  tables = record some_tables { settings = stored_settings ∷ []; identities = ann_identity ∷ [] };
}

abbrev callback_request : Request
callback_request = record {
  method = "GET";
  path = "/platform/auth/oidc/callback";
  escaped_path = "/platform/auth/oidc/callback";
  cookie = λ name. some "ab.ab";
  header = no_header;
  form = no_header;
  query = λ name. "state";
  remote_addr = "10.0.0.1:5000";
}

callback-IsAdmitted_example :
    IsAdmitted oidc_manager callback_request oidc_world.clock
      (user_of ann)
      oidc_world.tables
      (callback oidc_manager callback_request oidc_world).1.tables
unfolding program decode_flow flow_mac callback verified_claims settings setting
    Settings.read_setting document_of oidc_user find_identity domain_allowed
callback-IsAdmitted_example =
    callback-IsAdmitted oidc_manager callback_request oidc_world
      (callback oidc_manager callback_request oidc_world).1 (user_of ann) bytes_laws refl
