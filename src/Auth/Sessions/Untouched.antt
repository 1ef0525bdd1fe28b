-- ===== src/Auth/Sessions/Untouched.antt =====
-- What a look at the session of a request leaves alone: everything but when sessions were last seen.
use opencode_workspaces.Prelude.{
  ℕ, ◌+◌, ◌*◌, map, [], ◌∷◌, Bool, false, ltb, ◌==◌, bytes_eq, if◌then◌else◌, Bool-cases, inl, inr,
  ◌∙◌, ◌≡◌, refl, ap, subst, String, true, Option, none, some, List,
}
use opencode_workspaces.Model.{Bytes, minute}
use opencode_workspaces.Cluster.{Cluster}
use opencode_workspaces.Env.{Env}
use opencode_workspaces.Http.{Request}
use opencode_workspaces.Tables.{Tables, SessionRow}
use opencode_workspaces.Rows.{modify}
use opencode_workspaces.Database.Sql.{session_key}
use opencode_workspaces.World.{Result, ok, err, World}
use opencode_workspaces.World.Keeps.{
  Keeps, Keeps-bind, Keeps-attempt, Keeps-pure, Keeps-raise, Keeps-if, Keeps-now, Keeps-query,
  Keeps-exec, ok_injective,
}
use opencode_workspaces.World.Leaves.{
  Leaves, Leaves-bind, Leaves-attempt, Leaves-pure, Leaves-raise, Leaves-if, Leaves-query,
  Leaves-exec, Leaves-now,
}
use opencode_workspaces.Database.Sessions.{seen, SessionView, session, live_view}
use opencode_workspaces.Auth.Sessions.{
  Manager, csrf_matches, csrf_of_cookie, csrf_of_token, csrf_valid, cookie_name, user,
  user_of_cookie, signed_session, view_user,
}

-- A session without the time at which it was last seen.
abbrev pub unseen : SessionRow → SessionRow
unseen s = record s { last_seen_at = 0 }

-- The tables agree, but for the times at which sessions were last seen.
abbrev pub Rest : Tables → Tables → Type 0
Rest t t' =
    (t' ≡ record t { sessions = t'.sessions }) × (map unseen t'.sessions ≡ map unseen t.sessions)

seen_row :
    (b : Bool) (time : ℕ) (s : SessionRow)
    → unseen (if b then record s { last_seen_at = time } else s) ≡ unseen s
seen_row true time s = refl
seen_row false time s = refl

seen-unseen :
    (k : Bytes) (time : ℕ) (rows : List SessionRow)
    → map unseen (modify session_key k (seen time) rows) ≡ map unseen rows
unfolding modify
seen-unseen k time [] = refl
seen-unseen k time (s ∷ rows) = elim (Bool-cases (s.id_hash == k)) [
  | inl here ↦
      rw (here, seen_row (ltb (s.last_seen_at + 5 * minute) time) time s, seen-unseen k time rows)
        refl
  | inr other ↦ rw (other, seen-unseen k time rows) refl
]

Rest-seen :
    (t a : Tables) (k : Bytes) (time : ℕ)
    → Rest t a
    → Rest t (record a { sessions = modify session_key k (seen time) a.sessions })
Rest-seen t a k time (p, q) = (
  ap (λ (x : Tables). record x { sessions = modify session_key k (seen time) a.sessions }) p,
  seen-unseen k time a.sessions ∙ q,
)

module _ ⦃env : Env⦄ where
  session-Rest : (t : Tables) (token : Bytes) → Keeps (Rest t) (session token)
  unfolding session live_view
  session-Rest t token = Keeps-bind _ _ Keeps-now λ time. Keeps-bind _ _ (Keeps-query _) λ v.
      Keeps-if _ _ _ (Keeps-raise _) (
        Keeps-attempt _ _
          (Keeps-exec _ (λ a b p e. subst (Rest t) (ok_injective e) (Rest-seen t a token _ p)))
          (λ _. Keeps-pure _))

  session-Leaves : (P : Cluster → Type 0) (token : Bytes) → Leaves P (session token)
  unfolding session live_view
  session-Leaves P token = Leaves-bind _ _ Leaves-now λ time. Leaves-bind _ _ (Leaves-query _) λ v.
      Leaves-if _ _ _ (Leaves-raise _) (Leaves-attempt _ _ (Leaves-exec _) (λ _. Leaves-pure _))

  csrf_matches-Rest :
      (t : Tables) (r : Request) (v : Result SessionView) → Keeps (Rest t) (csrf_matches r v)
  csrf_matches-Rest t r (ok v) = Keeps-pure _
  csrf_matches-Rest t r (err e) = Keeps-pure _

  csrf_matches-Leaves :
      (P : Cluster → Type 0) (r : Request) (v : Result SessionView) → Leaves P (csrf_matches r v)
  csrf_matches-Leaves P r (ok v) = Leaves-pure _
  csrf_matches-Leaves P r (err e) = Leaves-pure _

  csrf_of_cookie-Rest :
      (t : Tables) (m : Manager) (r : Request) (o : Option String)
      → Keeps (Rest t) (csrf_of_cookie m r o)
  unfolding csrf_of_token
  csrf_of_cookie-Rest t m r none = Keeps-pure _
  csrf_of_cookie-Rest t m r (some c) =
      Keeps-if _ _ _ (Keeps-attempt _ _ (session-Rest t _) (csrf_matches-Rest t r)) (Keeps-pure _)

  csrf_of_cookie-Leaves :
      (P : Cluster → Type 0) (m : Manager) (r : Request) (o : Option String)
      → Leaves P (csrf_of_cookie m r o)
  unfolding csrf_of_token
  csrf_of_cookie-Leaves P m r none = Leaves-pure _
  csrf_of_cookie-Leaves P m r (some c) =
      Leaves-if _ _ _ (Leaves-attempt _ _ (session-Leaves P _) (csrf_matches-Leaves P r))
        (Leaves-pure _)

  pub csrf_valid-Keeps_Rest :
      (t : Tables) (m : Manager) (r : Request) → Keeps (Rest t) (csrf_valid m r)
  unfolding csrf_valid
  csrf_valid-Keeps_Rest t m r =
      Keeps-if _ _ _ (Keeps-pure true) (csrf_of_cookie-Rest t m r (r.cookie cookie_name))

  pub csrf_valid-Rest :
      (m : Manager) (r : Request) (w : World) → Rest w.tables (csrf_valid m r w).1.tables
  csrf_valid-Rest m r w = (csrf_valid-Keeps_Rest w.tables m r).at w (refl, refl)

  pub csrf_valid-cluster :
      (m : Manager) (r : Request) (w : World) → (csrf_valid m r w).1.cluster ≡ w.cluster
  unfolding csrf_valid
  csrf_valid-cluster m r w =
      (Leaves-if {P = λ c. c ≡ w.cluster} _ _ _ (Leaves-pure true)
          (csrf_of_cookie-Leaves _ m r (r.cookie cookie_name))).at
        w refl

  view_user-Keeps : (P : Tables → Type 0) (v : Result SessionView) → Keeps P (view_user v)
  view_user-Keeps P (ok v) = Keeps-pure _
  view_user-Keeps P (err e) = Keeps-pure _

  view_user-Leaves : (P : Cluster → Type 0) (v : Result SessionView) → Leaves P (view_user v)
  view_user-Leaves P (ok v) = Leaves-pure _
  view_user-Leaves P (err e) = Leaves-pure _

  user_of_cookie-Rest :
      (t : Tables) (m : Manager) (o : Option String) → Keeps (Rest t) (user_of_cookie m o)
  unfolding signed_session
  user_of_cookie-Rest t m none = Keeps-pure _
  user_of_cookie-Rest t m (some c) =
      Keeps-if _ _ _ (Keeps-attempt _ _ (session-Rest t _) (view_user-Keeps _)) (Keeps-pure _)

  user_of_cookie-Leaves :
      (P : Cluster → Type 0) (m : Manager) (o : Option String) → Leaves P (user_of_cookie m o)
  unfolding signed_session
  user_of_cookie-Leaves P m none = Leaves-pure _
  user_of_cookie-Leaves P m (some c) =
      Leaves-if _ _ _ (Leaves-attempt _ _ (session-Leaves P _) (view_user-Leaves P)) (Leaves-pure _)

  pub user-Rest : (m : Manager) (r : Request) (w : World) → Rest w.tables (user m r w).1.tables
  unfolding user
  user-Rest m r w = (user_of_cookie-Rest w.tables m (r.cookie cookie_name)).at w (refl, refl)

  pub user-cluster : (m : Manager) (r : Request) (w : World) → (user m r w).1.cluster ≡ w.cluster
  unfolding user
  user-cluster m r w =
      (user_of_cookie-Leaves (λ c. c ≡ w.cluster) m (r.cookie cookie_name)).at w refl
