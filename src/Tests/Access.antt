-- ===== src/Tests/Access.antt =====
-- Runs of the logins, passwords, sessions and the vault.
use opencode_workspaces.Prelude.{ℕ, ◌*◌, ◌≡◌, ◌≢◌, refl, true, none, some, List, [], ◌∷◌, string_eq}
use opencode_workspaces.Model.{minute}
use opencode_workspaces.World.{ok, World}
use opencode_workspaces.Database.Sql.{user_of}
use opencode_workspaces.Database.Vault.{sealed, decrypt, decrypt-sealed}
use opencode_workspaces.Database.Sessions
use opencode_workspaces.Database.Sessions.{SessionView}
use opencode_workspaces.Database.SignIn.{
  IsLive, session-IsLive, live_session_returned, deleted_session_is_gone,
}
use opencode_workspaces.Auth.Passwords.{encoded_hash, verify_password}
use opencode_workspaces.Auth.Passwords.Verify.{hashed_password_verifies, verified_password_collides}
use opencode_workspaces.Auth.Limiter.Window.{
  Event, attempted, succeeded, decisions, decisions_of, limiter_refines_memory,
}
use opencode_workspaces.Auth.Sessions.{
  NewSession, session_cookie, csrf_cookie, signed, new_session, user, csrf_valid,
}
use opencode_workspaces.Auth.Sessions.Signed.{accepted_token_is_signed}
use opencode_workspaces.Auth.Sessions.Login.{IsSignedIn, new_session_signs_in, user-IsSignedIn}
use opencode_workspaces.Http.{Request}
use opencode_workspaces.Tests.Codec.{codes}
use opencode_workspaces.Tests.Sample.{
  test_env, url_laws, std_laws, seal_laws, bytes_laws, argon_laws, ann, ann_session, some_world,
  test_manager, request_with, program,
}

decrypt-sealed_example : decrypt (sealed (4 ∷ []) (1 ∷ 2 ∷ [])) ≡ ok (1 ∷ 2 ∷ [])
decrypt-sealed_example = decrypt-sealed (4 ∷ []) (1 ∷ 2 ∷ []) url_laws seal_laws refl

hashed_password_verifies_example :
    verify_password (encoded_hash "correct horse" (3 ∷ [])) "correct horse" ≡ true
hashed_password_verifies_example =
    hashed_password_verifies "correct horse" (3 ∷ []) std_laws argon_laws

verified_password_collides_example :
    test_env.argon2id (codes "other password") (3 ∷ [])
    ≡ test_env.argon2id (codes "correct horse") (3 ∷ [])
unfolding program verify_password encoded_hash
verified_password_collides_example =
    verified_password_collides "correct horse" "other password" (3 ∷ []) std_laws refl

-- Eleven attempts within a minute, one after ten more minutes, and one after a success.
abbrev logins : List (ℕ × Event)
logins =
    (minute, attempted "a")
    ∷ (1, attempted "a")
    ∷ (1, attempted "a")
    ∷ (1, attempted "a")
    ∷ (1, attempted "a")
    ∷ (1, attempted "a")
    ∷ (1, attempted "a")
    ∷ (1, attempted "a")
    ∷ (1, attempted "a")
    ∷ (1, attempted "a")
    ∷ (1, attempted "a")
    ∷ (1, attempted "b")
    ∷ (10 * minute, attempted "a")
    ∷ (1, succeeded "a")
    ∷ (1, attempted "a")
    ∷ []

limiter_refines_memory_example : decisions 0 [] logins ≡ decisions_of 0 (λ _. []) logins
limiter_refines_memory_example = limiter_refines_memory 0 logins

accepted_token_is_signed_example : "key.ab" ≡ signed test_manager "key"
unfolding program
accepted_token_is_signed_example =
    accepted_token_is_signed test_manager "key.ab" "key" bytes_laws refl

abbrev ann_view : SessionView
unfolding user_of
ann_view = record { user = user_of ann; csrf_hash = codes "csrf"; expires = ann_session.expires_at }

ann-IsLive : IsLive some_world.clock (codes "key") some_world.tables ann_view
unfolding program
ann-IsLive = record {
  row = ann_session;
  account = ann;
  found = refl;
  lasts = refl;
  owned = refl;
  enabled = refl;
  view = refl;
}

session-IsLive_example : IsLive some_world.clock (codes "key") some_world.tables ann_view
unfolding program
session-IsLive_example =
    session-IsLive (codes "key") some_world (Sessions.session (codes "key") some_world).1 ann_view
      refl

live_session_returned_example : (Sessions.session (codes "key") some_world).0 ≡ ok ann_view
unfolding program
live_session_returned_example =
    live_session_returned (codes "key") some_world ann_view ann-IsLive refl

deleted_session_is_gone_example :
    (Sessions.session (codes "key") (Sessions.delete_session (codes "key") some_world).1).0
    ≢ ok ann_view
unfolding program
deleted_session_is_gone_example =
    deleted_session_is_gone (codes "key") some_world
      (Sessions.delete_session (codes "key") some_world).1
      (Sessions.delete_session (codes "key") some_world).1 tt ann_view refl refl

user-IsSignedIn_example :
    IsSignedIn test_manager (request_with (some "key.ab") "csrf") some_world (user_of ann)
unfolding program
user-IsSignedIn_example =
    user-IsSignedIn test_manager (request_with (some "key.ab") "csrf") some_world
      (user test_manager (request_with (some "key.ab") "csrf") some_world).1 (user_of ann)
      bytes_laws refl

-- Ann logs in: the first two random draws are the session's token and its CSRF token.
abbrev login_request : Request
login_request = request_with none ""

abbrev logged_in : NewSession
logged_in = record {
  csrf = "ab";
  cookies = session_cookie test_manager "b.ab" ∷ csrf_cookie test_manager "ab" ∷ [];
}

abbrev after_login : World
after_login = (new_session test_manager login_request "alpha" some_world).1

abbrev next_request : Request
next_request = request_with (some "b.ab") "ab"

new_session_signs_in_example :
    ((user test_manager next_request after_login).0 ≡ ok (some (user_of ann)))
    × ((csrf_valid test_manager next_request after_login).0 ≡ ok true)
unfolding program
new_session_signs_in_example =
    new_session_signs_in test_manager login_request next_request "alpha" "alpha" some_world
      after_login after_login logged_in ann url_laws refl refl refl refl refl refl refl refl refl
