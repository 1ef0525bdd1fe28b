-- ===== src/Auth/Sessions/Preserved.antt =====
-- Invariants of the tables under sessions and passwords.
use opencode_workspaces.Prelude.{ℕ, String, true, Option, none, some}
use opencode_workspaces.Env.{Env}
use opencode_workspaces.Http.{Request}
use opencode_workspaces.Tables.{Tables}
use opencode_workspaces.World.{Result, ok, err}
use opencode_workspaces.World.Keeps.{
  Keeps, Keeps-bind, Keeps-attempt, Keeps-pure, Keeps-if, keeps_rules,
}
use opencode_workspaces.Database.Sessions.{SessionView}
use opencode_workspaces.Database.Preserved.{
  Preserved, create_session-Keeps, session-Keeps, delete_session-Keeps,
}
use opencode_workspaces.Auth.Passwords.{hash_password}
use opencode_workspaces.Auth.Sessions.{
  Manager, random_token, new_session, signed_session, view_user, user_of_cookie, user, csrf_matches,
  csrf_of_token, csrf_of_cookie, csrf_valid, delete_signed, delete_of_cookie, clear_session,
  cookie_name,
}

module _ ⦃env : Env⦄ {P : Tables → Type 0} where
  pub random_token-Keeps : (n : ℕ) → Keeps P (random_token n)
  unfolding random_token
  random_token-Keeps n = search keeps_rules

  pub hash_password-Keeps : (s : String) → Keeps P (hash_password s)
  unfolding hash_password
  hash_password-Keeps s = search keeps_rules

  view_user-Keeps : (r : Result SessionView) → Keeps P (view_user r)
  view_user-Keeps (ok v) = Keeps-pure _
  view_user-Keeps (err e) = Keeps-pure _

  csrf_matches-Keeps : (q : Request) (r : Result SessionView) → Keeps P (csrf_matches q r)
  csrf_matches-Keeps q (ok v) = Keeps-pure _
  csrf_matches-Keeps q (err e) = Keeps-pure _

module _ ⦃env : Env⦄ {P : Tables → Type 0} (p : Preserved P) where
  pub new_session-Keeps : (m : Manager) (r : Request) (u : String) → Keeps P (new_session m r u)
  unfolding new_session
  new_session-Keeps m r u = search (keeps_rules, random_token-Keeps, create_session-Keeps p)

  user_of_cookie-Keeps : (m : Manager) (o : Option String) → Keeps P (user_of_cookie m o)
  unfolding signed_session
  user_of_cookie-Keeps m none = Keeps-pure none
  user_of_cookie-Keeps m (some value) =
      Keeps-if _ _ _ (Keeps-attempt _ _ (session-Keeps p _) view_user-Keeps) (Keeps-pure none)

  pub user-Keeps : (m : Manager) (r : Request) → Keeps P (user m r)
  unfolding user
  user-Keeps m r = user_of_cookie-Keeps m (r.cookie cookie_name)

  csrf_of_cookie-Keeps :
      (m : Manager) (r : Request) (o : Option String) → Keeps P (csrf_of_cookie m r o)
  unfolding csrf_of_token
  csrf_of_cookie-Keeps m r none = Keeps-pure _
  csrf_of_cookie-Keeps m r (some value) =
      Keeps-if _ _ _ (Keeps-attempt _ _ (session-Keeps p _) (csrf_matches-Keeps r)) (Keeps-pure _)

  pub csrf_valid-Keeps : (m : Manager) (r : Request) → Keeps P (csrf_valid m r)
  unfolding csrf_valid
  csrf_valid-Keeps m r =
      Keeps-if _ _ _ (Keeps-pure true) (csrf_of_cookie-Keeps m r (r.cookie cookie_name))

  delete_of_cookie-Keeps : (m : Manager) (o : Option String) → Keeps P (delete_of_cookie m o)
  unfolding delete_signed
  delete_of_cookie-Keeps m none = Keeps-pure tt
  delete_of_cookie-Keeps m (some value) =
      Keeps-if _ _ _ (Keeps-attempt _ _ (delete_session-Keeps p _) (λ _. Keeps-pure tt))
        (Keeps-pure tt)

  pub clear_session-Keeps : (m : Manager) (r : Request) → Keeps P (clear_session m r)
  unfolding clear_session
  clear_session-Keeps m r =
      Keeps-bind _ _ (delete_of_cookie-Keeps m (r.cookie cookie_name)) (λ _. Keeps-pure _)
