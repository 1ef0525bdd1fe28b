-- ===== src/Auth/Sessions.antt =====
-- Session cookies: NewSession, ClearSession, User and CSRFValid of internal/auth/auth.go.
pub mod Signed
pub mod Login
pub mod Preserved
pub mod Untouched
use opencode_workspaces.Prelude.{
  ℕ, ◌+◌, ◌*◌, String, Bool, true, false, ◌||◌, Option, none, some, List, [], ◌∷◌, ◌==◌, string_eq,
  bytes_eq, if◌then◌else◌,
}
use opencode_workspaces.Prelude.Strings.{◌<>◌, split, trim_space}
use opencode_workspaces.Model.{Bytes, User, minute}
use opencode_workspaces.Env.{Env}
use opencode_workspaces.Http.{Request, Cookie, deleted, seconds, lax}
use opencode_workspaces.World.{Result, ok, err, M, pure, ◌>>=◌, ◌>>◌, attempt, now, random_bytes}
use opencode_workspaces.Database.Vault.{hash}
use opencode_workspaces.Database.Sessions
use opencode_workspaces.Database.Sessions.{SessionView}

abbrev pub cookie_name : String
cookie_name = "ocw_session"

abbrev pub csrf_cookie_name : String
csrf_cookie_name = "ocw_csrf"

-- Seven days.
abbrev pub session_lifetime : ℕ
session_lifetime = 7 * (24 * (60 * minute))

abbrev pub session_seconds : ℕ
session_seconds = 7 * (24 * 3600)

-- The fields of Manager that do not change; the store is the world's.
pub record Manager : Type 0 where
  pub signing_key : Bytes
  pub cookie_secure : Bool

-- What NewSession returns, and the cookies that it sets.
pub record NewSession : Type 0 where
  pub csrf : String
  pub cookies : List Cookie

abbrev pub session_cookie : Manager → String → Cookie
session_cookie m value = record {
  name = cookie_name;
  value = value;
  path = "/";
  http_only = true;
  secure = m.cookie_secure;
  same_site = lax;
  max_age = seconds session_seconds;
}

abbrev pub csrf_cookie : Manager → String → Cookie
csrf_cookie m value = record {
  name = csrf_cookie_name;
  value = value;
  path = "/platform";
  http_only = false;
  secure = m.cookie_secure;
  same_site = lax;
  max_age = seconds session_seconds;
}

abbrev pub cleared_cookies : Manager → List Cookie
cleared_cookies m =
    record (session_cookie m "") { max_age = deleted }
    ∷ record (csrf_cookie m "") { max_age = deleted }
    ∷ []

-- The first part of a list of them, as in value[0].
abbrev pub first_part : List String → String
first_part [] = ""
first_part (p ∷ ps) = p

unfoldable pub remote_addr : Request → String
remote_addr r =
    let forwarded = r.header "X-Forwarded-For" in
    if forwarded == "" then r.remote_addr else trim_space (first_part (split b',' forwarded))

-- The methods that change nothing.
unfoldable pub is_safe_method : String → Bool
is_safe_method method = method == "GET" || method == "HEAD" || method == "OPTIONS"

-- The CSRF token of the request: its header, or else its form value.
unfoldable pub provided_csrf : Request → String
provided_csrf r = let h = r.header "X-CSRF-Token" in if h == "" then r.form "csrf" else h

abbrev pub view_user : Result SessionView → M (Option User)
view_user (ok v) = pure (some v.user)
view_user (err e) = pure none

module _ ⦃env : Env⦄ where
  unfoldable pub sign : Manager → String → String
  sign m token = env.encode_url (env.hmac m.signing_key (env.bytes token))

  abbrev pub token_parts : Manager → List String → String × Bool
  token_parts m (token ∷ signature ∷ []) = (token, env.bytes signature == env.bytes (sign m token))
  token_parts m _ = ("", false)

  -- The token of a cookie, and whether it is signed.
  unfoldable pub token : Manager → String → String × Bool
  token m value = token_parts m (split b'.' value)

  unfoldable pub signed : Manager → String → String
  signed m token = token <> ("." <> sign m token)

  unfoldable pub random_token : ℕ → M String
  random_token n = do b ← random_bytes n; pure (env.encode_url b)

  unfoldable pub new_session : Manager → Request → String → M NewSession
  new_session m r user_id = do
    token ← random_token 32
    csrf ← random_token 32
    time ← now
    Sessions.create_session (hash token) (hash csrf) user_id (r.header "User-Agent") (remote_addr r)
        (time + session_lifetime)
    pure (record {
      csrf = csrf;
      cookies = session_cookie m (signed m token) ∷ csrf_cookie m csrf ∷ [];
    })

  -- The session of a token, if it is signed.
  unfoldable pub signed_session :
      String × Bool → (Result SessionView → M (Option User)) → M (Option User)
  signed_session (token, valid) next =
      if valid then attempt (Sessions.session (hash token)) next else pure none

  abbrev pub user_of_cookie : Manager → Option String → M (Option User)
  user_of_cookie m none = pure none
  user_of_cookie m (some value) = signed_session (token m value) view_user

  -- User: the account that the request is signed in to.
  unfoldable pub user : Manager → Request → M (Option User)
  user m r = user_of_cookie m (r.cookie cookie_name)

  abbrev pub csrf_matches : Request → Result SessionView → M Bool
  csrf_matches r (ok v) = pure (v.csrf_hash == hash (provided_csrf r))
  csrf_matches r (err e) = pure false

  unfoldable pub csrf_of_token : Request → String × Bool → M Bool
  csrf_of_token r (token, valid) =
      if valid then attempt (Sessions.session (hash token)) (csrf_matches r) else pure false

  abbrev pub csrf_of_cookie : Manager → Request → Option String → M Bool
  csrf_of_cookie m r none = pure false
  csrf_of_cookie m r (some value) = csrf_of_token r (token m value)

  unfoldable pub csrf_valid : Manager → Request → M Bool
  csrf_valid m r =
      if is_safe_method r.method then pure true else csrf_of_cookie m r (r.cookie cookie_name)

  unfoldable pub delete_signed : String × Bool → M (Unit {0})
  delete_signed (token, valid) =
      if valid then attempt (Sessions.delete_session (hash token)) (λ _. pure tt) else pure tt

  abbrev pub delete_of_cookie : Manager → Option String → M (Unit {0})
  delete_of_cookie m none = pure tt
  delete_of_cookie m (some value) = delete_signed (token m value)

  -- ClearSession, with the cookies that it sets.
  unfoldable pub clear_session : Manager → Request → M (List Cookie)
  clear_session m r = do delete_of_cookie m (r.cookie cookie_name); pure (cleared_cookies m)
