-- ===== src/Provision.antt =====
-- cmd/provision/main.go: accounts, their workspaces and the login settings from a manifest.
pub mod Seeded
pub mod Actor
use opencode_workspaces.Prelude.{
  ℕ, suc, ◌+◌, String, Bool, true, false, not, ◌&&◌, ◌||◌, Option, none, some, List, [], ◌∷◌, ◌==◌,
  string_eq, if◌then◌else◌, is_some,
}
use opencode_workspaces.Prelude.Strings.{◌<>◌, trim_space, has_char}
use opencode_workspaces.Prelude.Decimal.{decimal}
use opencode_workspaces.Model.{Bytes, User, OidcSettings, is_admin}
use opencode_workspaces.Config.{ℤ, pos, negsuc, Config}
use opencode_workspaces.Env.{Env}
use opencode_workspaces.World.{
  Result, ok, err, failed, M, pure, raise, ◌>>=◌, ◌>>◌, attempt, lift, require, or_fail, statement,
}
use opencode_workspaces.Database.Users.{ProvisionUserInput, list_users, provision_user}
use opencode_workspaces.Database.Workspaces.{set_workspace_configuration}
use opencode_workspaces.Database.Migrate.{migrate, migration_files}
use opencode_workspaces.Oidc.Flows.{Provider}
use opencode_workspaces.Oidc.Settings.{save}
use opencode_workspaces.Server.Pages.{is_username}

pub record UserSeed : Type 0 where
  pub username : String
  pub display_name : String
  pub email : String
  pub role : String
  pub disabled : Bool
  pub opencode_config : Bytes
  pub api_key : String

pub record OidcSeed : Type 0 where
  pub issuer : String
  pub client_id : String
  pub client_secret : String
  pub scopes : List String
  pub allowed_domains : List String
  pub admin_groups : List String
  pub auto_provision : Bool
  pub link_by_email : Bool
  pub enabled : Bool

pub record Manifest : Type 0 where
  pub version : ℤ
  pub users : List UserSeed
  pub oidc : Option OidcSeed

-- The document that the command prints.
pub record Provisioned : Type 0 where
  pub provisioned_users : ℕ
  pub oidc_configured : Bool

abbrev pub is_one : ℤ → Bool
is_one (pos (suc ℕ.zero)) = true
is_one _ = false

-- The id of the first enabled administrator, or nothing.
unfoldable pub first_admin : List User → String
first_admin [] = ""
first_admin (u ∷ us) = if is_admin u then u.id else first_admin us

abbrev pub trimmed : UserSeed → UserSeed
trimmed s = record s { username = trim_space s.username; email = trim_space s.email }

unfoldable pub is_named : UserSeed → Bool
is_named s = is_username s.username && has_char b'@' s.email

unfoldable pub has_role : UserSeed → Bool
has_role s = s.role == "admin" || s.role == "user"

abbrev pub input_of : UserSeed → ProvisionUserInput
input_of s = record {
  username = s.username;
  display_name = trim_space s.display_name;
  email = s.email;
  role = s.role;
  disabled = s.disabled;
}

abbrev pub settings_of_seed : OidcSeed → OidcSettings
settings_of_seed s = record {
  enabled = s.enabled;
  issuer = s.issuer;
  client_id = s.client_id;
  client_secret = s.client_secret;
  scopes = s.scopes;
  auto_provision = s.auto_provision;
  link_by_email = s.link_by_email;
  allowed_domains = s.allowed_domains;
  admin_groups = s.admin_groups;
  has_client_secret = false;
  configured = false;
}

abbrev pub place : ℕ → String
place index = "users[" <> (decimal index <> "]")

module _ ⦃env : Env⦄ ⦃provider : Provider⦄ where
  -- One account of the manifest, trimmed.
  unfoldable pub provision_seed : String → ℕ → UserSeed → M (Unit {0})
  provision_seed actor index s = do
    require (is_named s) (failed (place index <> " has an invalid username or email"))
    require (has_role s) (failed (place index <> " role must be admin or user"))
    user ← provision_user actor (input_of s)
    set_workspace_configuration actor user.id s.opencode_config s.api_key

  -- The accounts from the index on, and how many there are.
  unfoldable pub provision_seeds : String → ℕ → List UserSeed → M ℕ
  provision_seeds actor index [] = pure index
  provision_seeds actor index (s ∷ seeds) = do
    provision_seed actor index (trimmed s)
    provision_seeds actor (suc index) seeds

  abbrev pub provision_oidc : String → Option OidcSeed → M (Unit {0})
  provision_oidc actor none = pure tt
  provision_oidc actor (some s) = save actor (settings_of_seed s) "provisioning-command"

  -- The part of run behind the decoded manifest.
  unfoldable pub provision : Manifest → M Provisioned
  provision m = do
    require (is_one m.version) (failed "provisioning manifest version must be 1")
    users ← list_users
    let actor = first_admin users
    require (not (actor == ""))
        (failed "create the initial enabled administrator before provisioning accounts")
    provisioned ← provision_seeds actor 0 m.users
    provision_oidc actor m.oidc
    pure (record { provisioned_users = provisioned; oidc_configured = is_some m.oidc })

  -- run, from what Load returned and what the input decodes to. Open pings the database.
  unfoldable pub run : Result Config → Option Manifest → M Provisioned
  run loaded input = do
    lift loaded
    statement
    migrate migration_files
    manifest ← or_fail input (failed "decode provisioning manifest")
    provision manifest
