-- ===== src/Oidc/Admission/Stored.antt =====
-- The settings of the login that the database holds, when Settings has returned some that are enabled.
use opencode_workspaces.Prelude.{
  ◌≡◌, refl, sym, ap, ◌∙◌, ◌⊎◌, inl, inr, String, Bool, true, false, Option, none, some, arith,
  string_eq, if◌then◌else◌,
}
use opencode_workspaces.Model.{Bytes, OidcSettings}
use opencode_workspaces.Env.{Env}
use opencode_workspaces.Rows.{find}
use opencode_workspaces.Tables.{Tables, SettingRow}
use opencode_workspaces.World.{ok, err, failed, World, pure, ◌>>=◌, lift}
use opencode_workspaces.World.Keeps.{ok_injective}
use opencode_workspaces.World.Steps.{SameTables, bind_ok, pure_ok, lift_ok, query_ok}
use opencode_workspaces.Database.Sql.{setting_key}
use opencode_workspaces.Database.Vault.{decrypt}
use opencode_workspaces.Database.Settings.{setting, read_setting, document_of, unquoted}
use opencode_workspaces.Oidc.Flows.{Provider}
use opencode_workspaces.Oidc.Settings.{settings, decoded, described, no_settings, setting_name}

module _ ⦃env : Env⦄ where
  -- The document of a row: its value, or what its ciphertext decrypts to.
  abbrev pub HoldsDocument : SettingRow → Bytes → Type 0
  HoldsDocument r document =
      ((r.encrypted ≡ false) × (r.value ≡ document))
      ⊎ ((e : String) × (r.encrypted ≡ true)
          × (env.unquote r.value ≡ some e)
          × (decrypt e ≡ ok document))

  unquoted_ok : (o : Option String) (s : String) → unquoted o ≡ ok s → o ≡ some s
  unquoted_ok none s h = absurd (ground arith)
  unquoted_ok (some x) s h = ap some (ok_injective h)

  document_of-HoldsDocument :
      (r : SettingRow) (w w' : World) (document : Bytes)
      → document_of r w ≡ (ok document, w')
      → HoldsDocument r document × (w ≡ w')
  unfolding document_of
  document_of-HoldsDocument r w w' document h = go r.encrypted refl h
    where
      go :
          (b : Bool)
          → r.encrypted ≡ b
          → (if b
                then (lift (unquoted (env.unquote r.value)) >>= λ e. lift (decrypt e))
                else pure r.value)
              w
            ≡ (ok document, w')
          → HoldsDocument r document × (w ≡ w')
      go true e k =
          let (s, w₁, h₁, k₁) = bind_ok _ (λ e. lift (decrypt e)) w w' document k in
          let (read, same) = lift_ok _ w w₁ s h₁ in
          let (plain, same') = lift_ok _ w₁ w' document k₁ in
          (inr (s, e, unquoted_ok _ s read, plain), same ∙ same')
      go false e k = let (x, y) = pure_ok r.value document w w' k in (inl (e, x), y)

  module _ ⦃provider : Provider⦄ where
    -- The settings are those of the row of the database under the name of the login.
    pub record AreStored (s : OidcSettings) (t : Tables) : Type 0 where
      pub row : SettingRow
      pub document : Bytes
      pub stored : OidcSettings
      pub found : find setting_key setting_name t.settings ≡ some row
      pub held : HoldsDocument row document
      pub parsed : provider.settings_of document ≡ some stored
      pub same : s ≡ described stored

    decoded_ok :
        (document : Bytes) (s : OidcSettings)
        → decoded (some document) ≡ ok s
        → (x : OidcSettings) × (provider.settings_of document ≡ some x) × (s ≡ described x)
    decoded_ok document s h = go (provider.settings_of document) h
      where
        go :
            (o : Option OidcSettings)
            → elim o [ none ↦ err (failed "invalid settings JSON") | some x ↦ ok (described x) ]
              ≡ ok s
            → (x : OidcSettings) × (o ≡ some x) × (s ≡ described x)
        go none e = absurd (ground arith)
        go (some x) e = (x, refl, sym (ok_injective e))

    read-AreStored :
        (t : Tables) (o : Option SettingRow) (d : Option Bytes) (w w' : World) (s : OidcSettings)
        → find setting_key setting_name t.settings ≡ o
        → read_setting o w ≡ (ok d, w')
        → decoded d ≡ ok s
        → s.enabled ≡ true
        → AreStored s t × (w ≡ w')
    unfolding read_setting
    read-AreStored t none d w w' s e h k on =
        let (none_read, _) = pure_ok none d w w' h in
        let empty : no_settings ≡ s = ok_injective (ap decoded none_read ∙ k) in
        absurd (ground (arith, ap (λ (x : OidcSettings). x.enabled) empty))
    read-AreStored t (some r) d w w' s e h k on =
        let (document, w₁, h₁, k₁) = bind_ok (document_of r) _ w w' d h in
        let (held, same) = document_of-HoldsDocument r w w₁ document h₁ in
        let (read, same') = pure_ok (some document) d w₁ w' k₁ in
        let (x, parsed, equal) = decoded_ok document s (ap decoded read ∙ k) in
        (
          record {
            row = r;
            document = document;
            stored = x;
            found = e;
            held = held;
            parsed = parsed;
            same = equal;
          },
          same ∙ same',
        )

    pub settings-AreStored :
        (w w' : World) (s : OidcSettings)
        → settings w ≡ (ok s, w')
        → s.enabled ≡ true
        → AreStored s w.tables × SameTables w w'
    unfolding settings setting
    settings-AreStored w w' s h on =
        let (d, w₁, h₁, k₁) = bind_ok (setting setting_name) (λ d. lift (decoded d)) w w' s h in
        let (o, w₂, h₂, k₂) = bind_ok _ read_setting w w₁ d h₁ in
        let (read, same) = query_ok _ w w₂ o h₂ in
        let (known, last) = lift_ok _ w₁ w' s k₁ in
        let (stored, still) = read-AreStored w.tables o d w₂ w₁ s (ok_injective read) k₂ known on in
        let world : w₂ ≡ w' = still ∙ last in
        (
          stored,
          (
            ap (λ (x : World). x.tables) (sym world) ∙ same.0,
            ap (λ (x : World). x.clock) (sym world) ∙ same.1,
          ),
        )
