-- ===== src/Auth/Limiter.antt =====
-- The limit on logins: `loginLimiter` and LoginSucceeded of internal/auth/auth.go.
pub mod Window
use opencode_workspaces.Prelude.{
  ℕ, ◌+◌, ◌*◌, String, Bool, true, false, Option, none, some, List, [], ◌∷◌, ◌++◌, keep, length,
  leb, ltb, string_eq, if◌then◌else◌,
}
use opencode_workspaces.Model.{minute}
use opencode_workspaces.Rows.{find, upsert, remove}

-- The entry of a key in the map `attempts`.
pub record Entry : Type 0 where
  pub key : String
  pub times : List ℕ

abbrev pub Attempts : Type 0
Attempts = List Entry

abbrev pub entry_key : Entry → String
entry_key e = e.key

abbrev pub times_of : Option Entry → List ℕ
times_of none = []
times_of (some e) = e.times

-- l.attempts[key], which is empty for a key that is not there
unfoldable pub attempts_at : String → Attempts → List ℕ
attempts_at key attempts = times_of (find entry_key key attempts)

-- l.attempts[key] = times
unfoldable pub set_attempts : String → List ℕ → Attempts → Attempts
set_attempts key times attempts =
    upsert entry_key key (λ _. record { key = key; times = times }) attempts

-- t.After(now.Add(-10 * time.Minute))
unfoldable pub is_recent : ℕ → ℕ → Bool
is_recent now t = ltb now (t + 10 * minute)

-- The times that `allow` keeps for the key, and whether it allows the login.
unfoldable pub admit : ℕ → List ℕ → Bool × List ℕ
admit now old =
    let recent = keep (is_recent now) old in
    if leb 10 (length recent) then (false, recent) else (true, recent ++ now ∷ [])

unfoldable pub allow : ℕ → String → Attempts → Bool × Attempts
allow now key attempts =
    let (allowed, times) = admit now (attempts_at key attempts) in
    (allowed, set_attempts key times attempts)

unfoldable pub login_succeeded : String → Attempts → Attempts
login_succeeded key attempts = remove entry_key key attempts
