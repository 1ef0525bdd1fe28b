-- ===== src/Oidc/Admission.antt =====
-- Which logins Callback lets through.
pub mod Signed
pub mod Linked
pub mod Stored
use opencode_workspaces.Prelude.{
  ℕ, ◌≡◌, refl, sym, ap, subst, ◌∙◌, String, Bool, true, false, not, ◌&&◌, ◌||◌, Option, none, some,
  List, [], ◌∷◌, arith, ◌==◌, bytes_eq, string_eq, str_iff, ltb, if◌then◌else◌,
}
use opencode_workspaces.Model.{Bytes, User, OidcSettings}
use opencode_workspaces.Env.{Env, BytesLaws}
use opencode_workspaces.Http.{Request}
use opencode_workspaces.World.{Error, Result, ok, err, World, M, ◌>>=◌, lift, require, or_fail}
use opencode_workspaces.World.Keeps.{ok_injective}
use opencode_workspaces.World.Steps.{bind_ok, now_ok, pure_ok, require_ok, or_fail_ok, lift_ok}
use opencode_workspaces.Database.Sound.Rules.{then_ok, else_ok}
use opencode_workspaces.Tables.{Tables}
use opencode_workspaces.Oidc.Admission.Linked.{Admits, oidc_user-Admits}
use opencode_workspaces.Oidc.Admission.Stored.{AreStored, settings-AreStored}
use opencode_workspaces.Oidc.Names.{domain_allowed}
use opencode_workspaces.Oidc.Flows.{Flow, Claims, Provider, Manager, decode_flow}
use opencode_workspaces.Oidc.Settings.{settings}
use opencode_workspaces.Oidc.Login.{callback, verified_claims, unexpired, raw_token, flow_cookie}

verified_parts : (a b c : Bool) → not (a || b || not c) ≡ true → c ≡ true
verified_parts a b c h = ground arith

both_true : (a b : Bool) → (a && b) ≡ true → a ≡ true
both_true a b h = ground arith

module _ ⦃env : Env⦄ ⦃provider : Provider⦄ where
  -- What Callback has checked of the claims.
  pub record AreVerified (s : OidcSettings) (f : Flow) (code : String) (c : Claims) : Type 0 where
    pub enabled : (s.enabled && s.configured) ≡ true
    pub raw : String
    pub exchanged : provider.exchange s code f.verifier ≡ some (some raw)
    pub verified : provider.verify s raw ≡ some c
    pub same_nonce : c.nonce ≡ f.nonce
    pub email_verified : c.email_verified ≡ true
    pub allowed : domain_allowed c.email s.allowed_domains ≡ true

  raw_token_ok :
      (o : Option (Option String)) (raw : String) → raw_token o ≡ ok raw → o ≡ some (some raw)
  raw_token_ok none raw h = absurd (ground arith)
  raw_token_ok (some none) raw h = absurd (ground arith)
  raw_token_ok (some (some t)) raw h = ap (λ x. some (some x)) (ok_injective h)

  verified_claims-AreVerified :
      (s : OidcSettings) (f : Flow) (code : String) (w w' : World) (c : Claims)
      → verified_claims s f code w ≡ (ok c, w')
      → AreVerified s f code c × (w ≡ w')
  unfolding verified_claims
  verified_claims-AreVerified s f code w w' c h =
      let (_, w₁, h₁, k₁) = bind_ok _ _ w w' c h in
      let (_, w₂, h₂, k₂) = bind_ok _ _ w₁ w' c k₁ in
      let (raw, w₃, h₃, k₃) = bind_ok _ _ w₂ w' c k₂ in
      let (d, w₄, h₄, k₄) = bind_ok _ _ w₃ w' c k₃ in
      let (_, w₅, h₅, k₅) = bind_ok _ _ w₄ w' c k₄ in
      let (_, w₆, h₆, k₆) = bind_ok _ _ w₅ w' c k₅ in
      let (_, w₇, h₇, k₇) = bind_ok _ _ w₆ w' c k₆ in
      let (same, last) = pure_ok d c w₇ w' k₇ in
      let world : w ≡ w' =
        (require_ok _ _ w w₁ tt h₁).1
        ∙ (require_ok _ _ w₁ w₂ tt h₂).1
        ∙ (lift_ok _ w₂ w₃ raw h₃).1
        ∙ (or_fail_ok _ _ w₃ w₄ d h₄).1
        ∙ (require_ok _ _ w₄ w₅ tt h₅).1
        ∙ (require_ok _ _ w₅ w₆ tt h₆).1
        ∙ (require_ok _ _ w₆ w₇ tt h₇).1
        ∙ last in
      let checked : AreVerified s f code c = subst (AreVerified s f code) same (record {
        enabled = (require_ok _ _ w w₁ tt h₁).0;
        raw = raw;
        exchanged = raw_token_ok _ raw (lift_ok _ w₂ w₃ raw h₃).0;
        verified = (or_fail_ok _ _ w₃ w₄ d h₄).0;
        same_nonce = (str_iff d.nonce f.nonce).0 (require_ok _ _ w₄ w₅ tt h₅).0;
        email_verified =
            (verified_parts (d.subject == "") (d.email == "") d.email_verified
              (require_ok _ _ w₅ w₆ tt h₆).0);
        allowed = (require_ok _ _ w₆ w₇ tt h₇).0;
      }) in
      (checked, world)

  -- The flow, the stored settings and the claims behind a login that Callback lets through to an
  -- account, with the tables before it and after it.
  pub record IsAdmitted (m : Manager) (r : Request) (time : ℕ) (u : User) (t t' : Tables)
      : Type 0 where
    pub value : String
    pub flow : Flow
    pub settings : OidcSettings
    pub claims : Claims
    pub sent : r.cookie flow_cookie ≡ some value
    pub decoded : decode_flow m value ≡ ok flow
    pub lasts : ltb flow.expires time ≡ false
    pub same_state : flow.state ≡ r.query "state"
    pub stored : AreStored settings t
    pub checked : AreVerified settings flow (r.query "code") claims
    pub account : Admits settings claims u t t'

  unexpired_ok :
      (time : ℕ) (r : Result Flow) (f : Flow)
      → unexpired time r ≡ ok f
      → (r ≡ ok f) × (ltb f.expires time ≡ false)
  unexpired_ok time (ok g) f h =
      let (lasts, same) = else_ok _ _ _ f h in
      (same, subst (λ (x : Flow). ltb x.expires time ≡ false) (ok_injective same) lasts)
  unexpired_ok time (err e) f h = absurd (ground arith)

  -- Callback returns an account only for a request with the cookie of a flow that is signed and has
  -- not expired, under the flow's state, and for claims that the provider has verified, with the
  -- flow's nonce and a verified address in a domain that the stored settings allow, while these
  -- enable logins. The account is the one that the database links to the issuer and the subject of
  -- the claims, before the call or after it, and one that is linked by the call has the address of the
  -- claims, up to lower case and blanks around it.
  pub callback-IsAdmitted :
      (m : Manager) (r : Request) (w w' : World) (u : User)
      → BytesLaws env
      → callback m r w ≡ (ok u, w')
      → IsAdmitted m r w.clock u w.tables w'.tables
  unfolding callback
  callback-IsAdmitted m r w w' u laws h =
      let (value, w₁, h₁, k₁) = bind_ok _ _ w w' u h in
      let (sent, same₁) = or_fail_ok _ _ w w₁ value h₁ in
      let (f, w₂, h₂, k₂) = bind_ok _ _ w₁ w' u (now_ok _ w₁ w' u k₁) in
      let (_, w₃, h₃, k₃) = bind_ok _ _ w₂ w' u k₂ in
      let (s, w₄, h₄, k₄) = bind_ok _ _ w₃ w' u k₃ in
      let (c, w₅, h₅, k₅) = bind_ok _ _ w₄ w' u k₄ in
      let (_, same₂) = lift_ok _ w₁ w₂ f h₂ in
      let (state, same₃) = require_ok _ _ w₂ w₃ tt h₃ in
      let before : w₃ ≡ w = sym (same₁ ∙ same₂ ∙ same₃) in
      let (checked, same₅) = verified_claims-AreVerified s f _ w₄ w₅ c h₅ in
      let (stored, kept) =
        settings-AreStored w₃ w₄ s h₄ (both_true s.enabled s.configured checked.enabled) in
      let admits = oidc_user-Admits s c r.remote_addr w₅ w' u k₅ in
      let tables₅ : w₅.tables ≡ w.tables =
        ap (λ (x : World). x.tables) (sym same₅) ∙ kept.0 ∙ ap (λ (x : World). x.tables) before in
      let (decoded, lasts) = unexpired_ok w₁.clock _ f (lift_ok _ w₁ w₂ f h₂).0 in
      record {
        value = value;
        flow = f;
        settings = s;
        claims = c;
        sent = sent;
        decoded = decoded;
        lasts = subst (λ (x : World). ltb f.expires x.clock ≡ false) (sym same₁) lasts;
        same_state = laws.injective _ _ ((bytes_eq.beq_iff _ _).0 state);
        stored = subst (λ (x : World). AreStored s x.tables) before stored;
        checked = checked;
        account = subst (λ t. Admits s c u t w'.tables) tables₅ admits;
      }
