-- ===== src/Auth/Sessions/Login.antt =====
-- Which requests are signed in, and the session that NewSession makes.
use opencode_workspaces.Prelude.{
  ℕ, ◌+◌, ◌≡◌, refl, sym, ap, subst, ◌∙◌, String, Bool, true, false, Option, none, some, [], ◌∷◌,
  arith, ◌==◌, bytes_eq, string_eq, ltb, if◌then◌else◌,
}
use opencode_workspaces.Prelude.Strings.{has_char}
use opencode_workspaces.Model.{User}
use opencode_workspaces.Env.{Env, UrlEncodingLaws, BytesLaws}
use opencode_workspaces.Http.{Request, value_of}
use opencode_workspaces.Rows.{find}
use opencode_workspaces.Tables.{Tables, UserRow}
use opencode_workspaces.World.{Result, ok, err, World, M, pure, attempt}
use opencode_workspaces.World.Steps.{bind_ok, now_ok, pure_ok, random_bytes_ok}
use opencode_workspaces.Database.Vault.{hash}
use opencode_workspaces.Database.Sql.{user_key, user_of}
use opencode_workspaces.Database.Sessions
use opencode_workspaces.Database.Sessions.{SessionView, new_session_row}
use opencode_workspaces.Database.SignIn.{
  IsCreated, IsLive, create_session_ok, live_session_returned, session-IsLive,
}
use opencode_workspaces.Auth.Sessions.{
  Manager, NewSession, cookie_name, session_lifetime, session_cookie, csrf_cookie, token, signed,
  random_token, remote_addr, new_session, user, csrf_valid, provided_csrf, is_safe_method,
  signed_session, csrf_of_token, view_user, user_of_cookie,
}
use opencode_workspaces.Auth.Sessions.Signed.{signed_token_accepted, accepted_token_is_signed}

module _ ⦃env : Env⦄ where
  -- The tables hold the session of the two tokens, begun at the time.
  abbrev pub HasOpened : Request → String → String → String → ℕ → Tables → Type 0
  HasOpened r id token csrf time = IsCreated (
      new_session_row (hash token) (hash csrf) id (r.header "User-Agent") (remote_addr r)
        (time + session_lifetime) time)

  -- What NewSession leaves: a token without a full stop, its row, and the two cookies.
  pub record IsOpened (m : Manager) (r : Request) (id : String) (w w' : World) (s : NewSession)
      : Type 0 where
    pub token : String
    pub plain : has_char b'.' token ≡ false
    pub created : HasOpened r id token s.csrf w.clock w'.tables
    pub cookies : s.cookies ≡ session_cookie m (signed m token) ∷ csrf_cookie m s.csrf ∷ []
    pub users : w'.tables.users ≡ w.tables.users
    pub clock : w'.clock ≡ w.clock

  random_token_ok :
      (n : ℕ) (w w' : World) (t : String)
      → UrlEncodingLaws env
      → random_token n w ≡ (ok t, w')
      → (has_char b'.' t ≡ false) × (w'.tables ≡ w.tables) × (w'.clock ≡ w.clock)
  unfolding random_token
  random_token_ok n w w' t laws h =
      let (b, w₁, h₁, h₂) = bind_ok _ _ w w' t h in
      let (same, _) = random_bytes_ok n w w₁ b h₁ in
      let (text, world) = pure_ok _ t w₁ w' h₂ in
      (
        ap (has_char b'.') (sym text) ∙ laws.no_dot b,
        ap (λ (x : World). x.tables) (sym world) ∙ same.0,
        ap (λ (x : World). x.clock) (sym world) ∙ same.1,
      )

  pub new_session_ok :
      (m : Manager) (r : Request) (id : String) (w w' : World) (s : NewSession)
      → UrlEncodingLaws env
      → new_session m r id w ≡ (ok s, w')
      → IsOpened m r id w w' s
  unfolding new_session
  new_session_ok m r id w w' s laws h =
      let (t, w₁, h₁, k₁) = bind_ok _ _ w w' s h in
      let (c, w₂, h₂, k₂) = bind_ok _ _ w₁ w' s k₁ in
      let (u, w₃, h₃, k₃) = bind_ok _ _ w₂ w' s (now_ok _ w₂ w' s k₂) in
      let (plain, tables₁, clock₁) = random_token_ok 32 w w₁ t laws h₁ in
      let (_, tables₂, clock₂) = random_token_ok 32 w₁ w₂ c laws h₂ in
      let (created, users, clock₃) = create_session_ok _ _ _ _ _ _ w₂ w₃ u h₃ in
      let (made, world) = pure_ok _ s w₃ w' k₃ in
      let clock₀ = clock₂ ∙ clock₁ in
      let csrf = ap (λ (x : NewSession). x.csrf) made in
      record {
        token = t;
        plain = plain;
        created =
            subst (λ x. HasOpened r id t s.csrf w.clock x.tables) world
              (subst (λ x. HasOpened r id t s.csrf x w₃.tables) clock₀
                (subst (λ x. HasOpened r id t x w₂.clock w₃.tables) csrf created));
        cookies =
            sym (ap (λ (x : NewSession). x.cookies) made)
            ∙ ap (λ x. session_cookie m (signed m t) ∷ csrf_cookie m x ∷ []) csrf;
        users =
            ap (λ (x : World). x.tables.users) (sym world)
            ∙ users
            ∙ ap (λ (x : Tables). x.users) (tables₂ ∙ tables₁);
        clock = ap (λ (x : World). x.clock) (sym world) ∙ clock₃ ∙ clock₀;
      }

  signed_session_runs :
      (t : String) (v : SessionView) (w : World)
      → (Sessions.session (hash t) w).0 ≡ ok v
      → (signed_session (t, true) view_user w).0 ≡ ok (some v.user)
  unfolding signed_session attempt
  signed_session_runs t v w h = rw h refl

  csrf_of_token_runs :
      (r : Request) (t : String) (v : SessionView) (w : World)
      → (Sessions.session (hash t) w).0 ≡ ok v
      → (csrf_of_token r (t, true) w).0 ≡ ok (v.csrf_hash == hash (provided_csrf r))
  unfolding csrf_of_token attempt
  csrf_of_token_runs r t v w h = rw h refl

  opened-IsLive :
      (r : Request) (id token csrf k : String) (time time' : ℕ) (t : Tables) (u : UserRow)
      → HasOpened r id token csrf time t
      → env.parse_uuid id ≡ some k
      → ltb time' (time + session_lifetime) ≡ true
      → find user_key k t.users ≡ some u
      → u.disabled ≡ false
      → IsLive time'
          (hash token)
          t
          (record { user = user_of u; csrf_hash = hash csrf; expires = time + session_lifetime })
  opened-IsLive r id token csrf k time time' t u c parsed lasts owned enabled =
      let same : k ≡ c.user_id = ground arith in
      record {
        row = _;
        account = u;
        found = c.stored;
        lasts = lasts;
        owned = ap (λ x. find user_key x t.users) (sym same) ∙ owned;
        enabled = enabled;
        view = refl;
      }

  if_safe :
      (b : Bool) (m : M Bool) (w : World)
      → (m w).0 ≡ ok true
      → ((if b then pure true else m) w).0 ≡ ok true
  if_safe true m w h = refl
  if_safe false m w h = h

  -- A request that sends the cookies of a new session back, on the tables that it left and before
  -- its seven days are over, is signed in to the account, and passes the CSRF check with the token.
  pub new_session_signs_in :
      (m : Manager) (r r' : Request) (id k : String) (w w' w'' : World) (s : NewSession)
      (u : UserRow)
      → UrlEncodingLaws env
      → new_session m r id w ≡ (ok s, w')
      → env.parse_uuid id ≡ some k
      → find user_key k w.tables.users ≡ some u
      → u.disabled ≡ false
      → r'.cookie cookie_name ≡ value_of cookie_name s.cookies
      → provided_csrf r' ≡ s.csrf
      → w''.tables ≡ w'.tables
      → ltb w''.clock (w.clock + session_lifetime) ≡ true
      → env.sql_fails w''.sql_calls ≡ false
      → ((user m r' w'').0 ≡ ok (some (user_of u))) × ((csrf_valid m r' w'').0 ≡ ok true)
  unfolding user csrf_valid value_of
  new_session_signs_in m r r' id k w w' w'' s u laws opened parsed owned enabled sent given same
        lasts runs =
      let o = new_session_ok m r id w w' s laws opened in
      let sent' : r'.cookie cookie_name ≡ some (signed m o.token) =
        sent ∙ ap (value_of cookie_name) o.cookies in
      let v : SessionView = record {
        user = user_of u;
        csrf_hash = hash s.csrf;
        expires = w.clock + session_lifetime;
      } in
      let here =
        opened-IsLive r id o.token s.csrf k w.clock w''.clock w'.tables u o.created parsed lasts
          (ap (find user_key k) o.users ∙ owned) enabled in
      let live = subst (λ t. IsLive w''.clock (hash o.token) t v) (sym same) here in
      let returned = live_session_returned (hash o.token) w'' v live runs in
      (
        rw (sent', signed_token_accepted m o.token laws o.plain)
            (signed_session_runs o.token v w'' returned),
        if_safe (is_safe_method r'.method) _ w'' (
            rw (sent', signed_token_accepted m o.token laws o.plain)
              (csrf_of_token_runs r' o.token v w'' returned
                ∙ ap ok (rw (given) ((bytes_eq.beq_iff (hash s.csrf) (hash s.csrf)).1 refl)))),
      )

  -- The signed token of a request, with the live session that it stands for.
  pub record IsSignedIn (m : Manager) (r : Request) (w : World) (u : User) : Type 0 where
    pub token : String
    pub view : SessionView
    pub sent : r.cookie cookie_name ≡ some (signed m token)
    pub live : IsLive w.clock (hash token) w.tables view
    pub account : view.user ≡ u

  view_user-some :
      (r : Result SessionView × World) (u : User) (w' : World)
      → view_user r.0 r.1 ≡ (ok (some u), w')
      → (v : SessionView) × (r ≡ (ok v, r.1)) × (v.user ≡ u)
  view_user-some (ok v, w) u w' h = (v, refl, ground arith)
  view_user-some (err e, w) u w' h = absurd (ground arith)

  signed_session-some :
      (t : String) (b : Bool) (u : User) (w w' : World)
      → signed_session (t, b) view_user w ≡ (ok (some u), w')
      → (b ≡ true) × (v : SessionView) × IsLive w.clock (hash t) w.tables v × (v.user ≡ u)
  unfolding signed_session attempt
  signed_session-some t true u w w' h =
      let (v, e, same) = view_user-some (Sessions.session (hash t) w) u w' h in
      (refl, v, session-IsLive (hash t) w _ v e, same)
  signed_session-some t false u w w' h = absurd (ground arith)

  user_of_cookie-some :
      (m : Manager) (r : Request) (w w' : World) (u : User) (c : Option String)
      → BytesLaws env
      → r.cookie cookie_name ≡ c
      → user_of_cookie m c w ≡ (ok (some u), w')
      → IsSignedIn m r w u
  user_of_cookie-some m r w w' u none laws e h = absurd (ground arith)
  user_of_cookie-some m r w w' u (some value) laws e h =
      let (valid, v, live, same) =
        signed_session-some (token m value).0 (token m value).1 u w w' h in
      record {
        token = (token m value).0;
        view = v;
        sent =
            e
            ∙ ap some
                (accepted_token_is_signed m value _ laws (ap (λ b. ((token m value).0, b)) valid));
        live = live;
        account = same;
      }

  -- A request is signed in to an account only by the cookie that signs a token whose session lasts,
  -- and belongs to that account, which is enabled.
  pub user-IsSignedIn :
      (m : Manager) (r : Request) (w w' : World) (u : User)
      → BytesLaws env
      → user m r w ≡ (ok (some u), w')
      → IsSignedIn m r w u
  unfolding user
  user-IsSignedIn m r w w' u laws h =
      user_of_cookie-some m r w w' u (r.cookie cookie_name) laws refl h
