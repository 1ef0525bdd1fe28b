-- ===== src/Database/SignIn.antt =====
-- When Session returns, and with what, also after DeleteSession.
use opencode_workspaces.Prelude.{
  ℕ, ◌≡◌, ◌≢◌, refl, sym, ap, ◌∙◌, String, true, false, some, [], ◌∷◌, ◌++◌, arith, bytes_eq,
  string_eq, nat_eq, if◌then◌else◌, ltb, Option-cases, inl, inr,
}
use opencode_workspaces.Model.{Bytes}
use opencode_workspaces.Env.{Env}
use opencode_workspaces.Rows.{find, has}
use opencode_workspaces.Rows.Laws.{find-fresh, find-remove}
use opencode_workspaces.Tables.{Tables, UserRow, SessionRow}
use opencode_workspaces.World.{ok, err, not_found, World, M, ◌>>=◌, attempt}
use opencode_workspaces.World.Keeps.{ok_injective}
use opencode_workspaces.World.Steps.{bind_ok, now_ok, exec_ok, query_ok, query_runs}
use opencode_workspaces.Database.Sql.{user_key, session_key, user_of}
use opencode_workspaces.Database.Sound.Rules.{
  with_uuid-eq-ok, references_user-eq-ok, then_ok, else_ok,
}
use opencode_workspaces.Database.Sessions
use opencode_workspaces.Database.Sessions.{
  SessionView, session_row, live_session, join_user, new_session_row,
}

-- A session that lasts, of an enabled account.
pub record IsLive (time : ℕ) (token : Bytes) (t : Tables) (v : SessionView) : Type 0 where
  pub row : SessionRow
  pub account : UserRow
  pub found : find session_key token t.sessions ≡ some row
  pub lasts : ltb time row.expires_at ≡ true
  pub owned : find user_key row.user_id t.users ≡ some account
  pub enabled : account.disabled ≡ false
  pub view :
      v ≡ record { user = user_of account; csrf_hash = row.csrf_hash; expires = row.expires_at }

module _ ⦃env : Env⦄ where
  session_row-at :
      (time : ℕ) (token : Bytes) (t : Tables) (s : SessionRow) (u : UserRow)
      → find session_key token t.sessions ≡ some s
      → find user_key s.user_id t.users ≡ some u
      → session_row time token t ≡ (
          if ltb time s.expires_at
          then ok (record { user = user_of u; csrf_hash = s.csrf_hash; expires = s.expires_at })
          else err not_found)
  unfolding session_row
  session_row-at time token t s u e e' = rw (e, e') refl

  session_row-IsLive :
      (time : ℕ) (token : Bytes) (t : Tables) (v : SessionView)
      → session_row time token t ≡ ok v
      → v.user.disabled ≡ false
      → IsLive time token t v
  unfolding session_row user_of
  session_row-IsLive time token t v h d = elim (Option-cases (find session_key token t.sessions)) [
    | inl e ↦ absurd (ground arith)
    | inr (s, e) ↦ elim (Option-cases (find user_key s.user_id t.users)) [
      | inl e' ↦ absurd (ground arith)
      | inr (u, e') ↦
          let (lasts, r) = then_ok _ _ _ v (sym (session_row-at time token t s u e e') ∙ h) in
          record {
            row = s;
            account = u;
            found = e;
            lasts = lasts;
            owned = e';
            enabled = ap (λ (x : SessionView). x.user.disabled) (ok_injective r) ∙ d;
            view = sym (ok_injective r);
          }
    ]
  ]

  live-session_row :
      (time : ℕ) (token : Bytes) (t : Tables) (v : SessionView)
      → IsLive time token t v
      → (session_row time token t ≡ ok v) × (v.user.disabled ≡ false)
  unfolding user_of
  live-session_row time token t v l = (
    session_row-at time token t l.row l.account l.found l.owned ∙ rw (l.lasts, l.view) refl,
    ap (λ (x : SessionView). x.user.disabled) l.view ∙ l.enabled,
  )

  live_view_ok :
      (v v' : SessionView) (m : M (Unit {0})) (w w' : World)
      → Sessions.live_view v m w ≡ (ok v', w')
      → (v ≡ v') × (v.user.disabled ≡ false)
  unfolding Sessions.live_view attempt
  live_view_ok v v' m w w' h = ground arith

  live_view_runs :
      (v : SessionView) (m : M (Unit {0})) (w : World)
      → v.user.disabled ≡ false
      → (Sessions.live_view v m w).0 ≡ ok v
  unfolding Sessions.live_view attempt
  live_view_runs v m w h = ground arith

  -- Session returns a view only of a session that lasts and belongs to an enabled account.
  pub session-IsLive :
      (token : Bytes) (w w' : World) (v : SessionView)
      → Sessions.session token w ≡ (ok v, w')
      → IsLive w.clock token w.tables v
  unfolding Sessions.session
  session-IsLive token w w' v h =
      let (x, w₁, h₁, h₂) = bind_ok _ _ w w' v (now_ok _ w w' v h) in
      let (read, _) = query_ok (session_row w.clock token) w w₁ x h₁ in
      let (same, enabled) = live_view_ok x v _ w₁ w' h₂ in
      session_row-IsLive w.clock token w.tables v (read ∙ ap ok same)
        (ap (λ (y : SessionView). y.user.disabled) (sym same) ∙ enabled)

  -- Where the database answers, Session returns the view of every session that lasts and belongs to
  -- an enabled account.
  pub live_session_returned :
      (token : Bytes) (w : World) (v : SessionView)
      → IsLive w.clock token w.tables v
      → env.sql_fails w.sql_calls ≡ false
      → (Sessions.session token w).0 ≡ ok v
  unfolding Sessions.session ◌>>=◌
  live_session_returned token w v l run =
      let (found, enabled) = live-session_row w.clock token w.tables v l in
      rw (query_runs (session_row w.clock token) w run, found) (live_view_runs v _ _ enabled)

  -- The row that CreateSession has written.
  pub record IsCreated (row : SessionRow) (t : Tables) : Type 0 where
    pub user_id : String
    pub parsed : env.parse_uuid row.user_id ≡ some user_id
    pub stored : find session_key row.id_hash t.sessions ≡ some (record row { user_id = user_id })

  insert_session_row-Created :
      (s : SessionRow) (t t' : Tables)
      → Sessions.insert_session_row s t ≡ ok t'
      → IsCreated s t' × (t'.users ≡ t.users)
  unfolding Sessions.insert_session_row has
  insert_session_row-Created s t t' e =
      let (k, parsed, e₁) = with_uuid-eq-ok s.user_id _ t' e in
      let (fresh, e₂) = else_ok _ _ _ t' e₁ in
      let (_, e₃) = references_user-eq-ok k t _ t' e₂ in
      let new : SessionRow = record s { user_id = k } in
      let written : record t { sessions = t.sessions ++ new ∷ [] } ≡ t' = ok_injective e₃ in
      (
        record {
          user_id = k;
          parsed = parsed;
          stored =
              ap (λ (x : Tables). find session_key s.id_hash x.sessions) (sym written)
              ∙ find-fresh session_key s.id_hash t.sessions new fresh refl;
        },
        ap (λ (x : Tables). x.users) (sym written),
      )

  pub create_session_ok :
      (token csrf : Bytes) (u a x : String) (expires : ℕ) (w w' : World) (v : Unit {0})
      → Sessions.create_session token csrf u a x expires w ≡ (ok v, w')
      → IsCreated (new_session_row token csrf u a x expires w.clock) w'.tables
        × (w'.tables.users ≡ w.tables.users)
        × (w'.clock ≡ w.clock)
  unfolding Sessions.create_session
  create_session_ok token csrf u a x expires w w' v h =
      let (written, clock) = exec_ok _ w w' v (now_ok _ w w' v h) in
      let (created, users) = insert_session_row-Created _ w.tables w'.tables written in
      (created, users, clock)

  -- After DeleteSession has returned, on the tables that it left, Session returns no view for its
  -- token.
  pub deleted_session_is_gone :
      (token : Bytes) (w w' w'' : World) (v : Unit {0}) (view : SessionView)
      → Sessions.delete_session token w ≡ (ok v, w')
      → w''.tables ≡ w'.tables
      → (Sessions.session token w'').0 ≢ ok view
  unfolding Sessions.delete_session
  deleted_session_is_gone token w w' w'' v view h same run =
      let (written, _) = exec_ok _ w w' v h in
      let found =
        (session-IsLive token w'' _ view
          (ap (λ r. (r, (Sessions.session token w'').1)) run)).found in
      let kept =
        ap (λ (x : Tables). find session_key token x.sessions) (ok_injective written ∙ sym same) in
      let none_left = find-remove session_key token token w.tables.sessions in
      ground (arith, bytes_eq.beq_iff token token)
