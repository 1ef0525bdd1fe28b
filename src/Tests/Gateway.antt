-- ===== src/Tests/Gateway.antt =====
-- Requests to the gateway.
use opencode_workspaces.Prelude.{
  ℕ, suc, List, ◌≤◌, arith, true, false, [], ◌∷◌, none, some, string_eq,
}
use opencode_workspaces.Model.{User}
use opencode_workspaces.Http.{Request}
use opencode_workspaces.Proxy.{Net, Gateway, Backend, Headers, outgoing}
use opencode_workspaces.Proxy.Touched.{Within, touches, touch_once_a_minute}
use opencode_workspaces.Proxy.Credentials.{AreForwarded, is_named, outgoing-AreForwarded}
use opencode_workspaces.Tests.Sample.{test_env, some_world}

instance abbrev pub test_net : Net
test_net = record {
  is_url = λ s. true;
  base_director = λ h. h;
  contains = λ s part. false;
  named_field = λ s. s;
  takes_trailers = λ h. false;
  upgrade_type = λ h. "";
  is_print = λ s. true;
  client_ip = λ s. some s;
  exchange_fails = λ b h w. false;
}

abbrev ann_backend : Backend
ann_backend = record { target = "http://ws-alpha.spaces.svc:4096"; password = "pw" }

abbrev browser_headers : Headers
browser_headers =
    ("Cookie", "ocw_session=key.ab") ∷ ("X-Forwarded-User", "eve") ∷ ("Connection", "close") ∷ []

outgoing-AreForwarded_example :
    AreForwarded ann_backend "alpha"
      (is_named browser_headers)
      (outgoing ann_backend "10.0.0.1" "alpha" browser_headers)
outgoing-AreForwarded_example = outgoing-AreForwarded ann_backend "10.0.0.1" "alpha" browser_headers

abbrev three_times : List ℕ
three_times = 120000000007 ∷ 120000000000 ∷ 179999999999 ∷ []

three_times-Within : Within 120000000000 three_times
unfolding Within
three_times-Within =
    (ground arith, ground arith, (ground arith, ground arith, (ground arith, ground arith, tt)))

abbrev pub new_gateway : Gateway
new_gateway = record { last_touch = []; backends = [] }

touch_once_a_minute_example :
    (touches three_times "alpha" new_gateway some_world).1.sql_calls ≤ suc some_world.sql_calls
touch_once_a_minute_example =
    touch_once_a_minute three_times 120000000000 new_gateway "alpha" some_world three_times-Within

abbrev page_request : Request
page_request = record {
  method = "GET";
  path = "/";
  escaped_path = "/";
  cookie = λ name. none;
  header = λ name. "text/html";
  form = λ name. "";
  query = λ name. "";
  remote_addr = "10.0.0.1:5000";
}

abbrev pub ann_user : User
ann_user = record {
  id = "alpha";
  username = "ann";
  display_name = "Ann";
  email = "ann@example.com";
  role = "admin";
  disabled = false;
  created_at = 5;
  last_login_at = 0;
}
