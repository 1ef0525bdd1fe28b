-- ===== src/Database/Sound/Owned.antt =====
-- The tables that refer to accounts, in a sound database.
pub mod Statements
use opencode_workspaces.Prelude.{
  ℕ, ◌≡◌, subst, String, Bool, Option, none, some, List, [], ◌∷◌, ◌++◌, arith, All, All-append,
  bytes_eq, string_eq,
}
use opencode_workspaces.Model.{Bytes}
use opencode_workspaces.Env.{Env}
use opencode_workspaces.Rows.{modify, remove, upsert}
use opencode_workspaces.Rows.Laws.{All-modify, All-remove, All-upsert}
use opencode_workspaces.Tables.{
  Tables, SessionRow, CredentialRow, IdentityRow, ConfigurationRow, SettingRow, AuditRow,
}
use opencode_workspaces.World.{Result, ok}
use opencode_workspaces.Database.Sql.{
  session_key, credential_key, configuration_key, setting_key, new_audit_row, references_user,
  references_user?, new_credential_row, new_identity_row, insert_audit_row, insert_credential_row,
  upsert_credential_row, insert_identity_row,
}
use opencode_workspaces.Database.Sessions.{insert_session_row, seen}
use opencode_workspaces.Database.Workspaces.{next_configuration, upsert_configuration_row}
use opencode_workspaces.Database.Settings.{next_setting, upsert_setting_row}
use opencode_workspaces.Database.Sound.{HasUser, IsRevised, IsSound}
use opencode_workspaces.Database.Sound.Rules.{
  with_uuid-eq-ok, references_user-eq-ok, references_user?-eq-ok, with_null_uuid-eq-ok,
}
use opencode_workspaces.World.Keeps.{ok_injective}

next_configuration-IsRevised :
    (time : ℕ) (k config key : String) (o : Option ConfigurationRow) (t : Tables)
    → HasUser t.users k
    → IsRevised t.users (next_configuration time k config key o)
next_configuration-IsRevised time k config key none t h = (h, omega arith)
next_configuration-IsRevised time k config key (some c) t h = (h, omega arith)

module _ ⦃env : Env⦄ {pending : Option String} where
  with_sessions :
      (t : Tables) (rows : List SessionRow)
      → IsSound pending t
      → All (λ s. HasUser t.users s.user_id) rows
      → IsSound pending (record t { sessions = rows })
  with_sessions t rows v h = record {
    paired = v.paired;
    distinct = v.distinct;
    apart = v.apart;
    roles = v.roles;
    states = v.states;
    sessions_owned = h;
    credentials_owned = v.credentials_owned;
    identities_owned = v.identities_owned;
    configurations_owned = v.configurations_owned;
  }

  with_credentials :
      (t : Tables) (rows : List CredentialRow)
      → IsSound pending t
      → All (λ s. HasUser t.users s.user_id) rows
      → IsSound pending (record t { credentials = rows })
  with_credentials t rows v h = record {
    paired = v.paired;
    distinct = v.distinct;
    apart = v.apart;
    roles = v.roles;
    states = v.states;
    sessions_owned = v.sessions_owned;
    credentials_owned = h;
    identities_owned = v.identities_owned;
    configurations_owned = v.configurations_owned;
  }

  with_identities :
      (t : Tables) (rows : List IdentityRow)
      → IsSound pending t
      → All (λ s. HasUser t.users s.user_id) rows
      → IsSound pending (record t { identities = rows })
  with_identities t rows v h = record {
    paired = v.paired;
    distinct = v.distinct;
    apart = v.apart;
    roles = v.roles;
    states = v.states;
    sessions_owned = v.sessions_owned;
    credentials_owned = v.credentials_owned;
    identities_owned = h;
    configurations_owned = v.configurations_owned;
  }

  with_configurations :
      (t : Tables) (rows : List ConfigurationRow)
      → IsSound pending t
      → All (IsRevised t.users) rows
      → IsSound pending (record t { configurations = rows })
  with_configurations t rows v h = record {
    paired = v.paired;
    distinct = v.distinct;
    apart = v.apart;
    roles = v.roles;
    states = v.states;
    sessions_owned = v.sessions_owned;
    credentials_owned = v.credentials_owned;
    identities_owned = v.identities_owned;
    configurations_owned = h;
  }

  with_settings :
      (t : Tables) (rows : List SettingRow)
      → IsSound pending t
      → IsSound pending (record t { settings = rows })
  with_settings t rows v = record {
    paired = v.paired;
    distinct = v.distinct;
    apart = v.apart;
    roles = v.roles;
    states = v.states;
    sessions_owned = v.sessions_owned;
    credentials_owned = v.credentials_owned;
    identities_owned = v.identities_owned;
    configurations_owned = v.configurations_owned;
  }

  with_audit_events :
      (t : Tables) (rows : List AuditRow)
      → IsSound pending t
      → IsSound pending (record t { audit_events = rows })
  with_audit_events t rows v = record {
    paired = v.paired;
    distinct = v.distinct;
    apart = v.apart;
    roles = v.roles;
    states = v.states;
    sessions_owned = v.sessions_owned;
    credentials_owned = v.credentials_owned;
    identities_owned = v.identities_owned;
    configurations_owned = v.configurations_owned;
  }
