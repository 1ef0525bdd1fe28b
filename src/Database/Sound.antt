-- ===== src/Database/Sound.antt =====
-- The integrity of the database: what the schema declares, and, beyond it, a workspace for each account.
pub mod Rules
pub mod Overlaps
pub mod Accounts
pub mod Workspaces
pub mod Owned
pub mod Methods
pub mod Calls
use opencode_workspaces.Prelude.{
  ℕ, ◌≤◌, String, ◌≡◌, Bool, true, false, ◌||◌, Option, none, some, List, [], ◌∷◌, ◌==◌, string_eq,
  some_of, All,
}
use opencode_workspaces.Env.{Env}
use opencode_workspaces.Rows.{has}
use opencode_workspaces.Tables.{
  Tables, UserRow, CredentialRow, IdentityRow, SessionRow, WorkspaceRow, ConfigurationRow,
}
use opencode_workspaces.Database.Sql.{user_key, workspace_key, is_role, is_state, clashes}

-- An account that has been inserted and waits for its workspace, inside a transaction.
abbrev pub is_pending : Option String → String → Bool
is_pending none j = false
is_pending (some k) j = k == j

abbrev pub HasUser : List UserRow → String → Type 0
HasUser users k = has user_key k users ≡ true

abbrev pub IsRevised : List UserRow → ConfigurationRow → Type 0
IsRevised users c = HasUser users c.user_id × (1 ≤ c.revision)

-- Two workspaces that the primary key and the unique index of workspaces keep apart.
abbrev pub overlaps : WorkspaceRow → WorkspaceRow → Bool
overlaps w x = x.user_id == w.user_id || x.resource_name == w.resource_name

-- No two workspaces share an account or a resource name.
abbrev pub Apart : List WorkspaceRow → Type 0
Apart [] = Unit
Apart (w ∷ rows) = (some_of (overlaps w) rows ≡ false) × Apart rows

module _ ⦃env : Env⦄ where
  -- No two accounts share an id, a username or an address, up to lower case.
  abbrev pub Distinct : List UserRow → Type 0
  Distinct [] = Unit
  Distinct (r ∷ rows) = (some_of (clashes r) rows ≡ false) × Distinct rows

  pub record IsSound (pending : Option String) (t : Tables) : Type 0 where
    pub paired :
        (j : String)
        → has user_key j t.users ≡ (is_pending pending j || has workspace_key j t.workspaces)
    pub distinct : Distinct t.users
    pub apart : Apart t.workspaces
    pub roles : All (λ r. is_role r.role ≡ true) t.users
    pub states : All (λ w. is_state w.desired_state ≡ true) t.workspaces
    pub sessions_owned : All (λ s. HasUser t.users s.user_id) t.sessions
    pub credentials_owned : All (λ c. HasUser t.users c.user_id) t.credentials
    pub identities_owned : All (λ i. HasUser t.users i.user_id) t.identities
    pub configurations_owned : All (λ c. IsRevised t.users c) t.configurations
