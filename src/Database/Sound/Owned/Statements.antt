-- ===== src/Database/Sound/Owned/Statements.antt =====
-- The statements on sessions, credentials, identities, configurations, settings and the audit log,
-- on a sound database.
use opencode_workspaces.Prelude.{
  ℕ, ◌≡◌, subst, String, Bool, Option, List, [], ◌∷◌, ◌++◌, arith, All-append, bytes_eq, string_eq,
}
use opencode_workspaces.Model.{Bytes}
use opencode_workspaces.Env.{Env}
use opencode_workspaces.Rows.{modify, remove, upsert}
use opencode_workspaces.Rows.Laws.{All-modify, All-remove, All-upsert}
use opencode_workspaces.Tables.{
  Tables, SessionRow, CredentialRow, IdentityRow, SettingRow, AuditRow,
}
use opencode_workspaces.World.{Result, ok}
use opencode_workspaces.Database.Sql.{
  session_key, credential_key, configuration_key, setting_key, new_audit_row, references_user,
  references_user?, new_credential_row, new_identity_row, insert_audit_row, insert_credential_row,
  upsert_credential_row, insert_identity_row,
}
use opencode_workspaces.Database.Sessions.{insert_session_row, seen}
use opencode_workspaces.Database.Workspaces.{next_configuration, upsert_configuration_row}
use opencode_workspaces.Database.Settings.{next_setting, upsert_setting_row}
use opencode_workspaces.Database.Sound.{IsSound}
use opencode_workspaces.Database.Sound.Rules.{
  with_uuid-eq-ok, references_user-eq-ok, references_user?-eq-ok, with_null_uuid-eq-ok,
}
use opencode_workspaces.World.Keeps.{ok_injective}
use opencode_workspaces.Database.Sound.Owned.{
  next_configuration-IsRevised, with_audit_events, with_configurations, with_credentials,
  with_identities, with_sessions, with_settings,
}

module _ ⦃env : Env⦄ {pending : Option String} where
  pub insert_session_row-IsSound :
      (s : SessionRow) (t t' : Tables)
      → IsSound pending t
      → insert_session_row s t ≡ ok t'
      → IsSound pending t'
  unfolding insert_session_row
  insert_session_row-IsSound s t t' v e =
      let (k, _, e₁) = with_uuid-eq-ok s.user_id _ t' e in
      let row : SessionRow = record s { user_id = k } in
      let t₁ : Tables = record t { sessions = t.sessions ++ row ∷ [] } in
      let e₂ : references_user k t (ok t₁) ≡ ok t' = ground arith in
      let (known, e₃) = references_user-eq-ok k t (ok t₁) t' e₂ in
      subst (IsSound pending) (ok_injective e₃) (
        with_sessions t (t.sessions ++ row ∷ []) v
          (All-append _ t.sessions (row ∷ []) v.sessions_owned (known, tt)))

  -- Neither the write of last_seen_at nor the deletion of a session makes one without an account.
  pub seen-IsSound :
      (time : ℕ) (token_hash : Bytes) (t : Tables)
      → IsSound pending t
      → IsSound pending
          (record t { sessions = modify session_key token_hash (seen time) t.sessions })
  seen-IsSound time token_hash t v =
      with_sessions t (modify session_key token_hash (seen time) t.sessions) v (
        All-modify session_key _ token_hash (seen time) t.sessions v.sessions_owned
          (λ s h. ground arith))

  pub remove_session-IsSound :
      (token_hash : Bytes) (t : Tables)
      → IsSound pending t
      → IsSound pending (record t { sessions = remove session_key token_hash t.sessions })
  remove_session-IsSound token_hash t v =
      with_sessions t (remove session_key token_hash t.sessions) v
        (All-remove session_key _ token_hash t.sessions v.sessions_owned)

  pub insert_credential_row-IsSound :
      (time : ℕ) (id hash : String) (t t' : Tables)
      → IsSound pending t
      → insert_credential_row time id hash t ≡ ok t'
      → IsSound pending t'
  unfolding insert_credential_row
  insert_credential_row-IsSound time id hash t t' v e =
      let (k, _, e₁) = with_uuid-eq-ok id _ t' e in
      let row : CredentialRow = new_credential_row time hash k in
      let t₁ : Tables = record t { credentials = t.credentials ++ row ∷ [] } in
      let e₂ : references_user k t (ok t₁) ≡ ok t' = ground arith in
      let (known, e₃) = references_user-eq-ok k t (ok t₁) t' e₂ in
      subst (IsSound pending) (ok_injective e₃) (
        with_credentials t (t.credentials ++ row ∷ []) v
          (All-append _ t.credentials (row ∷ []) v.credentials_owned (known, tt)))

  pub upsert_credential_row-IsSound :
      (time : ℕ) (id hash : String) (t t' : Tables)
      → IsSound pending t
      → upsert_credential_row time id hash t ≡ ok t'
      → IsSound pending t'
  unfolding upsert_credential_row
  upsert_credential_row-IsSound time id hash t t' v e =
      let (k, _, e₁) = with_uuid-eq-ok id _ t' e in
      let (known, e₂) = references_user-eq-ok k t _ t' e₁ in
      subst (IsSound pending) (ok_injective e₂) (
        with_credentials t _ v (
          All-upsert credential_key _ k (λ _. new_credential_row time hash k) t.credentials
            v.credentials_owned (λ _. known)))

  pub insert_identity_row-IsSound :
      (time : ℕ) (issuer subject id : String) (email : Option String) (t t' : Tables)
      → IsSound pending t
      → insert_identity_row time issuer subject id email t ≡ ok t'
      → IsSound pending t'
  unfolding insert_identity_row
  insert_identity_row-IsSound time issuer subject id email t t' v e =
      let (k, _, e₁) = with_uuid-eq-ok id _ t' e in
      let row : IdentityRow = new_identity_row time issuer subject k email in
      let t₁ : Tables = record t { identities = t.identities ++ row ∷ [] } in
      let e₂ : references_user k t (ok t₁) ≡ ok t' = ground arith in
      let (known, e₃) = references_user-eq-ok k t (ok t₁) t' e₂ in
      subst (IsSound pending) (ok_injective e₃) (
        with_identities t (t.identities ++ row ∷ []) v
          (All-append _ t.identities (row ∷ []) v.identities_owned (known, tt)))

  pub upsert_configuration_row-IsSound :
      (time : ℕ) (id config key : String) (t t' : Tables)
      → IsSound pending t
      → upsert_configuration_row time id config key t ≡ ok t'
      → IsSound pending t'
  unfolding upsert_configuration_row
  upsert_configuration_row-IsSound time id config key t t' v e =
      let (k, _, e₁) = with_uuid-eq-ok id _ t' e in
      let (known, e₂) = references_user-eq-ok k t _ t' e₁ in
      subst (IsSound pending) (ok_injective e₂) (
        with_configurations t _ v (
          All-upsert configuration_key _ k (next_configuration time k config key) t.configurations
            v.configurations_owned (λ o. next_configuration-IsRevised time k config key o t known)))

  pub upsert_setting_row-IsSound :
      (time : ℕ) (actor key : String) (value : Bytes) (encrypted : Bool) (t t' : Tables)
      → IsSound pending t
      → upsert_setting_row time actor key value encrypted t ≡ ok t'
      → IsSound pending t'
  unfolding upsert_setting_row
  upsert_setting_row-IsSound time actor key value encrypted t t' v e =
      let rows : Option String → List SettingRow =
        λ a. upsert setting_key key (next_setting time key value encrypted a) t.settings in
      let f : Option String → Result Tables =
        λ a. references_user? a t (ok (record t { settings = rows a })) in
      let (a, e₁) = with_null_uuid-eq-ok actor f t' e in
      subst (IsSound pending) (ok_injective (references_user?-eq-ok a t _ t' e₁))
        (with_settings t (rows a) v)

  pub insert_audit_row-IsSound :
      (id time : ℕ) (actor action target_type target_id details remote : String) (t t' : Tables)
      → IsSound pending t
      → insert_audit_row id time actor action target_type target_id details remote t ≡ ok t'
      → IsSound pending t'
  unfolding insert_audit_row
  insert_audit_row-IsSound id time actor action target_type target_id details remote t t' v e =
      let rows : Option String → List AuditRow = λ a.
        t.audit_events
        ++ new_audit_row id time action target_type target_id details remote a ∷ [] in
      let f : Option String → Result Tables =
        λ a. references_user? a t (ok (record t { audit_events = rows a })) in
      let (a, e₁) = with_null_uuid-eq-ok actor f t' e in
      subst (IsSound pending) (ok_injective (references_user?-eq-ok a t _ t' e₁))
        (with_audit_events t (rows a) v)
