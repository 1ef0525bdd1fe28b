-- ===== src/Oidc/Settings.antt =====
-- The settings of the login: Settings and Save of internal/oidc/oidc.go.
use Prim.Native.Char.{code}
use Prim.Native.String.{String, [], ◌∷◌}
use opencode_workspaces.Prelude.{
  ℕ, Bool, true, false, not, ◌&&◌, ◌||◌, Option, none, some, List, ◌==◌, nat_eq, string_eq,
  if◌then◌else◌,
}
use opencode_workspaces.Prelude.Strings.{trim_space}
use opencode_workspaces.Model.{Bytes, OidcSettings}
use opencode_workspaces.Env.{Env}
use opencode_workspaces.World.{Result, ok, err, failed, M, ◌>>=◌, ◌>>◌, lift, require}
use opencode_workspaces.Database.Settings
use opencode_workspaces.Oidc.Flows.{Provider}

abbrev pub setting_name : String
setting_name = "auth.oidc"

-- The zero value of OIDCSettings.
abbrev pub no_settings : OidcSettings
no_settings = record {
  enabled = false;
  issuer = "";
  client_id = "";
  client_secret = "";
  scopes = List.[];
  auto_provision = false;
  link_by_email = false;
  allowed_domains = List.[];
  admin_groups = List.[];
  has_client_secret = false;
  configured = false;
}

-- strings.TrimSuffix(s, c) for one ASCII character
unfoldable pub trim_suffix : ℕ → String → String
trim_suffix n [] = []
trim_suffix n (c ∷ []) = if code c == n then [] else c ∷ []
trim_suffix n (c ∷ d ∷ s) = c ∷ trim_suffix n (d ∷ s)

abbrev pub default_scopes : List String → List String
default_scopes List.[] = List.◌∷◌ "openid" (List.◌∷◌ "profile" (List.◌∷◌ "email" List.[]))
default_scopes (List.◌∷◌ s ss) = List.◌∷◌ s ss

abbrev pub described : OidcSettings → OidcSettings
described s = record s {
  configured = not (s.issuer == "") && not (s.client_id == "") && not (s.client_secret == "");
  has_client_secret = not (s.client_secret == "");
}

abbrev pub tidy : OidcSettings → OidcSettings
tidy s = record s {
  issuer = trim_suffix b'/' (trim_space s.issuer);
  client_id = trim_space s.client_id;
  scopes = default_scopes s.scopes;
}

-- Whether the settings name what a login needs, or do not enable it.
unfoldable pub is_complete : OidcSettings → Bool
is_complete s = not (s.enabled && (s.issuer == "" || s.client_id == "" || s.client_secret == ""))

module _ ⦃env : Env⦄ ⦃provider : Provider⦄ where
  abbrev pub decoded : Option Bytes → Result OidcSettings
  decoded none = ok no_settings
  decoded (some document) = elim (provider.settings_of document) [
    | none ↦ err (failed "invalid settings JSON")
    | some s ↦ ok (described s)
  ]

  unfoldable pub settings : M OidcSettings
  settings = do document ← Settings.setting setting_name; lift (decoded document)

  abbrev pub save_tidy : String → OidcSettings → String → M (Unit {0})
  save_tidy actor s remote = do
    require (is_complete s)
        (failed "issuer, client ID, and client secret are required when OIDC is enabled")
    require (s.issuer == "" || provider.discover s.issuer) (failed "OIDC discovery failed")
    Settings.set_setting actor setting_name
        (provider.settings_json (record s { configured = false; has_client_secret = false })) true
        remote

  unfoldable pub save : String → OidcSettings → String → M (Unit {0})
  save actor s remote = save_tidy actor (tidy s) remote
