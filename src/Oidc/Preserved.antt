-- ===== src/Oidc/Preserved.antt =====
-- Invariants of the tables under the OIDC login.
use opencode_workspaces.Prelude.{String}
use opencode_workspaces.Model.{User, OidcSettings}
use opencode_workspaces.Env.{Env}
use opencode_workspaces.Http.{Request}
use opencode_workspaces.Tables.{Tables}
use opencode_workspaces.World.{Result, ok, err, not_found}
use opencode_workspaces.World.Keeps.{
  Keeps, Keeps-bind, Keeps-attempt, Keeps-pure, Keeps-raise, Keeps-if, Keeps-lift, Keeps-require,
  Keeps-or_fail, Keeps-now, keeps_rules,
}
use opencode_workspaces.Database.Preserved.{
  Preserved, setting-Keeps, set_setting-Keeps, oidc_user-Keeps, link_oidc_user_by_email-Keeps,
  provision_oidc_user-Keeps,
}
use opencode_workspaces.Auth.Sessions.Preserved.{random_token-Keeps}
use opencode_workspaces.Oidc.Flows.{Flow, Claims, Provider, Manager}
use opencode_workspaces.Oidc.Settings.{settings, save, setting_name}
use opencode_workspaces.Oidc.Login.{
  start_login, verified_claims, provision_login, after_link, link_or_provision, after_lookup,
  callback,
}

module _ ⦃env : Env⦄ ⦃provider : Provider⦄ {P : Tables → Type 0} where
  pub settings-Keeps : Keeps P settings
  unfolding settings
  settings-Keeps = Keeps-bind _ _ (setting-Keeps setting_name) (λ d. Keeps-lift _)

  pub start_login-Keeps : (m : Manager) → Keeps P (start_login m)
  unfolding start_login
  start_login-Keeps m = search (keeps_rules, settings-Keeps, random_token-Keeps) depth 12

  verified_claims-Keeps :
      (s : OidcSettings) (f : Flow) (c : String) → Keeps P (verified_claims s f c)
  unfolding verified_claims
  verified_claims-Keeps s f c = search keeps_rules depth 12

module _ ⦃env : Env⦄ ⦃provider : Provider⦄ {P : Tables → Type 0} (p : Preserved P) where
  pub save-Keeps : (a : String) (s : OidcSettings) (x : String) → Keeps P (save a s x)
  unfolding save
  save-Keeps a s x =
      Keeps-bind _ _ (Keeps-require _ _)
        λ _. Keeps-bind _ _ (Keeps-require _ _) (λ _. set_setting-Keeps p a setting_name _ _ x)

  provision_login-Keeps :
      (s : OidcSettings) (c : Claims) (x : String) → Keeps P (provision_login s c x)
  unfolding provision_login
  provision_login-Keeps s c x =
      Keeps-bind _ _ (Keeps-require _ _) λ _. provision_oidc_user-Keeps p _ _ _ _ _ _ x

  after_link-Keeps :
      (s : OidcSettings) (c : Claims) (x : String) (r : Result User) → Keeps P (after_link s c x r)
  after_link-Keeps s c x (ok u) = Keeps-pure u
  after_link-Keeps s c x (err not_found) = provision_login-Keeps s c x
  after_link-Keeps s c x (err e) = Keeps-raise e

  link_or_provision-Keeps :
      (s : OidcSettings) (c : Claims) (x : String) → Keeps P (link_or_provision s c x)
  unfolding link_or_provision
  link_or_provision-Keeps s c x =
      Keeps-if _ _ _
        (Keeps-attempt _ _ (link_oidc_user_by_email-Keeps p _ _ _ x) (after_link-Keeps s c x))
        (provision_login-Keeps s c x)

  after_lookup-Keeps :
      (s : OidcSettings) (c : Claims) (x : String) (r : Result User)
      → Keeps P (after_lookup s c x r)
  after_lookup-Keeps s c x (ok u) = Keeps-pure u
  after_lookup-Keeps s c x (err not_found) = link_or_provision-Keeps s c x
  after_lookup-Keeps s c x (err e) = Keeps-raise e

  pub callback-Keeps : (m : Manager) (r : Request) → Keeps P (callback m r)
  unfolding callback
  callback-Keeps m r = Keeps-bind _ _ (Keeps-or_fail _ _) λ value. Keeps-bind _ _ Keeps-now λ time.
      Keeps-bind _ _ (Keeps-lift _) λ f. Keeps-bind _ _ (Keeps-require _ _) λ _.
        Keeps-bind _ _ settings-Keeps λ s.
          Keeps-bind _ _ (verified_claims-Keeps s f _)
            λ c. Keeps-attempt _ _ (oidc_user-Keeps _ _) (after_lookup-Keeps s c r.remote_addr)
