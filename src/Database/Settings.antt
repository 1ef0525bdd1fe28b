-- ===== src/Database/Settings.antt =====
-- Settings and the audit log: Setting, SetSetting and AuditEvents of internal/database/database.go.
use opencode_workspaces.Prelude.{
  ℕ, zero, suc, String, Bool, Option, none, some, List, [], ◌∷◌, map, string_eq, if◌then◌else◌,
  get_or,
}
use mathlib.Core.List.{reverse}
use opencode_workspaces.Model.{Bytes, AuditEvent}
use opencode_workspaces.Env.{Env}
use opencode_workspaces.Rows.{find, upsert}
use opencode_workspaces.Tables.{Tables, SettingRow, AuditRow}
use opencode_workspaces.World.{
  Result, ok, err, failed, M, pure, ◌>>=◌, ◌>>◌, lift, now, exec, query, transaction,
}
use opencode_workspaces.Database.Sql.{setting_key, with_null_uuid, references_user?, order_by}
use opencode_workspaces.Database.Users.{audit}
use opencode_workspaces.Database.Vault.{encrypt, decrypt}

unfoldable pub event_of : AuditRow → AuditEvent
event_of r = record {
  id = r.id;
  actor_user_id = get_or r.actor_user_id "";
  action = r.action;
  target_type = r.target_type;
  target_id = get_or r.target_id "";
  details = r.details;
  remote_addr = r.remote_addr;
  created_at = r.created_at;
}

-- LIMIT $1
unfoldable pub limit {ℓ} : {A : Type ℓ} → ℕ → List A → List A
limit zero xs = []
limit (suc n) [] = []
limit (suc n) (x ∷ xs) = x ∷ limit n xs

abbrev pub unquoted : Option String → Result String
unquoted none = err (failed "invalid JSON string")
unquoted (some s) = ok s

module _ ⦃env : Env⦄ where
  -- The document of a row: its value, or what its value decrypts to.
  unfoldable pub document_of : SettingRow → M Bytes
  document_of r =
      if r.encrypted
      then (do encoded ← lift (unquoted (env.unquote r.value)); lift (decrypt encoded))
      else pure r.value

  unfoldable pub read_setting : Option SettingRow → M (Option Bytes)
  read_setting none = pure none
  read_setting (some r) = do document ← document_of r; pure (some document)

  -- Setting, up to json.Unmarshal into the target: the document, or none for no such key.
  unfoldable pub setting : String → M (Option Bytes)
  setting key = do row ← query (λ t. ok (find setting_key key t.settings)); read_setting row

  abbrev pub next_setting :
      ℕ → String → Bytes → Bool → Option String → Option SettingRow → SettingRow
  next_setting time key value encrypted actor _ = record {
    key = key;
    value = env.jsonb value;
    encrypted = encrypted;
    updated_at = time;
    updated_by = actor;
  }

  -- INSERT INTO settings … ON CONFLICT(key) DO UPDATE
  unfoldable pub upsert_setting_row : ℕ → String → String → Bytes → Bool → Tables → Result Tables
  unfolding with_null_uuid
  upsert_setting_row time actor key value encrypted t = with_null_uuid actor λ a.
      references_user? a t (
        ok (record t {
          settings = upsert setting_key key (next_setting time key value encrypted a) t.settings;
        }))

  -- The value of the row: the document, or its ciphertext as a JSON string.
  unfoldable pub stored_value : Bool → Bytes → M Bytes
  stored_value encrypted document =
      if encrypted then (do encoded ← encrypt document; pure (env.quote encoded)) else pure document

  unfoldable pub set_setting_body : String → String → Bytes → Bool → String → M (Unit {0})
  set_setting_body actor key value encrypted remote = do
    time ← now
    exec (upsert_setting_row time actor key value encrypted)
    audit actor "setting.update" "setting" key "{}" remote

  -- SetSetting, from the document that json.Marshal gave.
  unfoldable pub set_setting : String → String → Bytes → Bool → String → M (Unit {0})
  set_setting actor key document encrypted remote = do
    value ← stored_value encrypted document
    transaction (set_setting_body actor key value encrypted remote)

  -- ORDER BY created_at DESC LIMIT $1
  unfoldable pub audit_events : ℕ → M (List AuditEvent)
  audit_events n =
      query
        (λ t. ok (map event_of (limit n (reverse (order_by (λ r. r.created_at) t.audit_events)))))
