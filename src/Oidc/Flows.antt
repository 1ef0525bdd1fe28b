-- ===== src/Oidc/Flows.antt =====
-- The signed cookie of a login under way: encodeFlow and decodeFlow of internal/oidc/oidc.go, and
-- what the program calls of the provider and of encoding/json there.
use opencode_workspaces.Prelude.{
  ℕ, String, Bool, Option, none, some, List, [], ◌∷◌, ◌==◌, bytes_eq, if◌then◌else◌,
}
use opencode_workspaces.Prelude.Strings.{◌<>◌, split}
use opencode_workspaces.Model.{Bytes, OidcSettings}
use opencode_workspaces.Env.{Env}
use opencode_workspaces.World.{Result, ok, err, failed}

pub record Flow : Type 0 where
  pub state : String
  pub nonce : String
  pub verifier : String
  pub expires : ℕ

pub record Claims : Type 0 where
  pub subject : String
  pub email : String
  pub email_verified : Bool
  pub name : String
  pub preferred_username : String
  pub nonce : String
  pub groups : List String

-- The provider: discovery of an issuer; the URL for a login, from issuer, client, redirect, state,
-- nonce and challenge; the exchange of a code, from issuer, client, secret, code and verifier, for
-- the raw ID token, if the response has one; and the check of that token with its claims. And the
-- JSON of flows and of settings.
pub record Provider : Type 0 where
  pub discover : String → Bool
  pub auth_url : OidcSettings → String → String → String → String → String
  pub exchange : OidcSettings → String → String → Option (Option String)
  pub verify : OidcSettings → String → Option Claims
  pub flow_json : Flow → Bytes
  pub flow_of : Bytes → Option Flow
  pub settings_json : OidcSettings → Bytes
  pub settings_of : Bytes → Option OidcSettings

-- The fields of Manager that the flows and the logins read; `base` is PublicURL.String().
pub record Manager : Type 0 where
  pub signing_key : Bytes
  pub base : String
  pub cookie_secure : Bool

module _ ⦃env : Env⦄ ⦃provider : Provider⦄ where
  -- The text of the MAC of a payload.
  unfoldable pub flow_mac : Manager → String → String
  flow_mac m payload = env.encode_url (env.hmac m.signing_key (env.bytes payload))

  unfoldable pub encode_flow : Manager → Flow → String
  encode_flow m f =
      let payload = env.encode_url (provider.flow_json f) in payload <> ("." <> flow_mac m payload)

  abbrev pub parsed_flow : Option Flow → Result Flow
  parsed_flow none = err (failed "invalid flow JSON")
  parsed_flow (some f) = ok f

  abbrev pub flow_of_payload : Option Bytes → Result Flow
  flow_of_payload none = err (failed "illegal base64 data")
  flow_of_payload (some b) = parsed_flow (provider.flow_of b)

  abbrev pub flow_of_parts : Manager → List String → Result Flow
  flow_of_parts m (payload ∷ mac ∷ []) =
      if env.bytes (flow_mac m payload) == env.bytes mac
      then flow_of_payload (env.decode_url payload)
      else err (failed "invalid flow signature")
  flow_of_parts m _ = err (failed "invalid flow")

  unfoldable pub decode_flow : Manager → String → Result Flow
  decode_flow m value = flow_of_parts m (split b'.' value)
