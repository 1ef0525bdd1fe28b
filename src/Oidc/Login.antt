-- ===== src/Oidc/Login.antt =====
-- Start and Callback of internal/oidc/oidc.go.
use opencode_workspaces.Prelude.{
  ℕ, ◌+◌, ◌*◌, String, true, not, ◌&&◌, ◌||◌, Option, none, some, ◌==◌, string_eq, bytes_eq, ltb,
  if◌then◌else◌,
}
use opencode_workspaces.Prelude.Strings.{◌<>◌}
use opencode_workspaces.Model.{User, OidcSettings, minute}
use opencode_workspaces.Env.{Env}
use opencode_workspaces.Http.{Request, Cookie, seconds, lax}
use opencode_workspaces.World.{
  Result, ok, err, not_found, failed, M, pure, raise, ◌>>=◌, ◌>>◌, attempt, lift, require, now,
  or_fail,
}
use opencode_workspaces.Auth.Sessions.{random_token}
use opencode_workspaces.Database.Identities.{
  oidc_user, link_oidc_user_by_email, provision_oidc_user,
}
use opencode_workspaces.Oidc.Names.{domain_allowed, intersects, safe_username}
use opencode_workspaces.Oidc.Flows.{Flow, Claims, Provider, Manager, encode_flow, decode_flow}
use opencode_workspaces.Oidc.Settings.{settings, trim_suffix}

abbrev pub flow_cookie : String
flow_cookie = "ocw_oidc_flow"

unfoldable pub callback_url : Manager → String
callback_url m = trim_suffix b'/' m.base <> "/platform/auth/oidc/callback"

-- The cookie that Start sets and the URL that it redirects to.
pub record Started : Type 0 where
  pub cookie : Cookie
  pub location : String

abbrev pub started_cookie : Manager → String → Cookie
started_cookie m value = record {
  name = flow_cookie;
  value = value;
  path = "/platform/auth/oidc";
  http_only = true;
  secure = m.cookie_secure;
  same_site = lax;
  max_age = seconds 600;
}

module _ ⦃env : Env⦄ ⦃provider : Provider⦄ where
  unfoldable pub start_login : Manager → M Started
  start_login m = do
    s ← settings
    require (s.enabled && s.configured) (failed "OIDC login is not enabled")
    require (provider.discover s.issuer) (failed "OIDC discovery failed")
    state ← random_token 24
    nonce ← random_token 24
    verifier ← random_token 48
    time ← now
    pure (record {
      cookie = started_cookie m (
          encode_flow m (record {
            state = state;
            nonce = nonce;
            verifier = verifier;
            expires = time + 10 * minute;
          }));
      location =
          provider.auth_url s (callback_url m) state nonce
            (env.encode_url (env.sha256 (env.bytes verifier)));
    })

  abbrev pub unexpired : ℕ → Result Flow → Result Flow
  unexpired time (err e) = err (failed "OIDC flow expired")
  unexpired time (ok f) = if ltb f.expires time then err (failed "OIDC flow expired") else ok f

  abbrev pub raw_token : Option (Option String) → Result String
  raw_token none = err (failed "OIDC token exchange")
  raw_token (some none) = err (failed "OIDC response has no ID token")
  raw_token (some (some raw)) = ok raw

  -- The claims of a login that fits its flow.
  unfoldable pub verified_claims : OidcSettings → Flow → String → M Claims
  verified_claims s f authorization_code = do
    require (s.enabled && s.configured) (failed "OIDC is disabled")
    require (provider.discover s.issuer) (failed "OIDC discovery failed")
    raw ← lift (raw_token (provider.exchange s authorization_code f.verifier))
    c ← or_fail (provider.verify s raw) (failed "ID token")
    require (c.nonce == f.nonce) (failed "OIDC nonce mismatch")
    require (not (c.subject == "" || c.email == "" || not c.email_verified))
        (failed "OIDC requires a verified email")
    require (domain_allowed c.email s.allowed_domains) (failed "email domain is not allowed")
    pure c

  unfoldable pub role_of : OidcSettings → Claims → String
  role_of s c = if intersects c.groups s.admin_groups then "admin" else "user"

  unfoldable pub provision_login : OidcSettings → Claims → String → M User
  provision_login s c remote = do
    require s.auto_provision (failed "OIDC account has not been provisioned")
    provision_oidc_user s.issuer c.subject (safe_username c.preferred_username c.email) c.name
        c.email (role_of s c) remote

  abbrev pub after_link : OidcSettings → Claims → String → Result User → M User
  after_link s c remote (ok u) = pure u
  after_link s c remote (err not_found) = provision_login s c remote
  after_link s c remote (err e) = raise e

  unfoldable pub link_or_provision : OidcSettings → Claims → String → M User
  link_or_provision s c remote =
      if s.link_by_email
      then attempt (link_oidc_user_by_email s.issuer c.subject c.email remote)
          (after_link s c remote)
      else provision_login s c remote

  abbrev pub after_lookup : OidcSettings → Claims → String → Result User → M User
  after_lookup s c remote (ok u) = pure u
  after_lookup s c remote (err not_found) = link_or_provision s c remote
  after_lookup s c remote (err e) = raise e

  unfoldable pub callback : Manager → Request → M User
  callback m r = do
    value ← or_fail (r.cookie flow_cookie) (failed "OIDC flow cookie is missing")
    time ← now
    f ← lift (unexpired time (decode_flow m value))
    require (env.bytes f.state == env.bytes (r.query "state")) (failed "OIDC state mismatch")
    s ← settings
    c ← verified_claims s f (r.query "code")
    attempt (oidc_user s.issuer c.subject) (after_lookup s c r.remote_addr)
