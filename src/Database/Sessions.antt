-- ===== src/Database/Sessions.antt =====
-- Sessions: CreateSession, Session and DeleteSession of internal/database/database.go.
use opencode_workspaces.Prelude.{
  ℕ, ◌+◌, ◌*◌, String, Option, none, some, [], ◌∷◌, ◌++◌, bytes_eq, string_eq, if◌then◌else◌, ltb,
}
use opencode_workspaces.Model.{Bytes, User, minute}
use opencode_workspaces.Env.{Env}
use opencode_workspaces.Rows.{find, has, modify, remove}
use opencode_workspaces.Tables.{Tables, UserRow, SessionRow}
use opencode_workspaces.World.{
  Result, ok, err, not_found, duplicate_key, M, pure, raise, ◌>>=◌, attempt, now, exec, query,
}
use opencode_workspaces.Database.Sql.{user_key, session_key, user_of, with_uuid, references_user}

-- What Session returns: the user, the hash of the CSRF token and the end of the session.
pub record SessionView : Type 0 where
  pub user : User
  pub csrf_hash : Bytes
  pub expires : ℕ

abbrev pub new_session_row : Bytes → Bytes → String → String → String → ℕ → ℕ → SessionRow
new_session_row token_hash csrf_hash user_id user_agent remote expires time = record {
  id_hash = token_hash;
  user_id = user_id;
  csrf_hash = csrf_hash;
  expires_at = expires;
  created_at = time;
  last_seen_at = time;
  user_agent = user_agent;
  remote_addr = remote;
}

abbrev pub join_user : SessionRow → Option UserRow → Result SessionView
join_user s none = err not_found
join_user s (some u) =
    ok (record { user = user_of u; csrf_hash = s.csrf_hash; expires = s.expires_at })

abbrev pub live_session : ℕ → Tables → Option SessionRow → Result SessionView
live_session time t none = err not_found
live_session time t (some s) =
    if ltb time s.expires_at then join_user s (find user_key s.user_id t.users) else err not_found

-- The row of sessions that the token has, while it lasts, with its user.
unfoldable pub session_row : ℕ → Bytes → Tables → Result SessionView
unfolding find user_of
session_row time token_hash t = live_session time t (find session_key token_hash t.sessions)

-- UPDATE sessions SET last_seen_at=now() WHERE … last_seen_at<now()-interval '5 minutes'
abbrev pub seen : ℕ → SessionRow → SessionRow
seen time s = if ltb (s.last_seen_at + 5 * minute) time then record s { last_seen_at = time } else s

module _ ⦃env : Env⦄ where
  -- INSERT INTO sessions
  unfoldable pub insert_session_row : SessionRow → Tables → Result Tables
  unfolding has with_uuid references_user
  insert_session_row s t = with_uuid s.user_id λ k.
      if has session_key s.id_hash t.sessions
      then err duplicate_key
      else references_user k t
          (ok (record t { sessions = t.sessions ++ record s { user_id = k } ∷ [] }))

  unfoldable pub create_session : Bytes → Bytes → String → String → String → ℕ → M (Unit {0})
  create_session token_hash csrf_hash user_id user_agent remote expires = do
    time ← now
    exec (
        insert_session_row
          (new_session_row token_hash csrf_hash user_id user_agent remote expires time))

  -- A disabled account has no session; the write of last_seen_at is not looked at.
  unfoldable pub live_view : SessionView → M (Unit {0}) → M SessionView
  live_view view touch =
      if view.user.disabled then raise not_found else attempt touch (λ _. pure view)

  unfoldable pub session : Bytes → M SessionView
  session token_hash = do
    time ← now
    view ← query (session_row time token_hash)
    live_view view (
        exec λ t. ok (record t { sessions = modify session_key token_hash (seen time) t.sessions }))

  unfoldable pub delete_session : Bytes → M (Unit {0})
  delete_session token_hash =
      exec λ t. ok (record t { sessions = remove session_key token_hash t.sessions })
