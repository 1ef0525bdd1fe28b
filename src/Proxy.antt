-- ===== src/Proxy.antt =====
-- internal/proxy/gateway.go: the way of a signed-in user's request to their workspace.
pub mod Answers
pub mod Preserved
pub mod Credentials
pub mod Touched
use opencode_workspaces.Prelude.{
  ℕ, ◌+◌, String, Bool, true, false, not, ◌&&◌, ◌||◌, Option, none, some, List, [], ◌∷◌, map, ◌==◌,
  string_eq, ltb, keep, is_some, get_or, if◌then◌else◌,
}
use opencode_workspaces.Prelude.Strings.{◌<>◌, split}
use opencode_workspaces.Model.{User, Workspace, minute}
use opencode_workspaces.Env.{Env}
use opencode_workspaces.Http.{Request}
use opencode_workspaces.Rows.{find, upsert, remove}
use opencode_workspaces.World.{
  Error, Result, ok, err, failed, World, M, pure, ◌>>=◌, ◌>>◌, attempt, now, require,
}
use opencode_workspaces.Database.Workspaces.{workspace, touch_workspace}
use opencode_workspaces.Kube.Objects.{Controller}
use opencode_workspaces.Kube.Lifecycle.{start}
use opencode_workspaces.Kube.Status
use opencode_workspaces.Kube.Status.{named_key, lookup, insert}

-- http.Header under canonical keys; several values of one key are one value with commas between them.
abbrev pub Headers : Type 0
Headers = List (String × String)

pub record Backend : Type 0 where
  pub target : String
  pub password : String

-- The part of the program's libraries that the gateway calls: url.Parse, whether it accepts an
-- address; the director of httputil.NewSingleHostReverseProxy, on headers; strings.Contains; what its
-- ReverseProxy makes of headers: the key that an element of a Connection header names, whether Te takes
-- trailers, the protocol that a request asks to switch to, whether that is printable, and the host of a
-- remote address; and whether the exchange with the workspace fails, which the state may decide.
pub record Net : Type 0 where
  pub is_url : String → Bool
  pub base_director : Headers → Headers
  pub contains : String → String → Bool
  pub named_field : String → String
  pub takes_trailers : Headers → Bool
  pub upgrade_type : Headers → String
  pub is_print : String → Bool
  pub client_ip : String → Option String
  pub exchange_fails : Backend → Headers → World → Bool

-- The maps of Gateway, which live as long as the process.
pub record Gateway : Type 0 where
  pub last_touch : List (String × ℕ)
  pub backends : List (String × Backend)

-- 503 with a text, the page that refreshes itself, the request passed on, or 502 where the exchange
-- of the request has failed.
pub data Reply : Type 0 where
  unavailable : String → Reply
  starting_page : Reply
  proxied bad_gateway : Backend → Headers → Reply

unfoldable pub del_header : String → Headers → Headers
del_header name h = remove named_key name h

unfoldable pub set_header : String → String → Headers → Headers
set_header name value h = insert name value h

-- `hopHeaders` of net/http/httputil.
abbrev pub hop_headers : List String
hop_headers =
    "Connection" ∷ "Proxy-Connection" ∷ "Keep-Alive" ∷ "Proxy-Authenticate" ∷ "Proxy-Authorization"
    ∷ "Te" ∷ "Trailer" ∷ "Transfer-Encoding" ∷ "Upgrade" ∷ []

unfoldable pub del_headers : List String → Headers → Headers
del_headers [] h = h
del_headers (name ∷ names) h = del_headers names (del_header name h)

abbrev pub forwarded_for : Option String → String → String
forwarded_for none ip = ip
forwarded_for (some prior) ip = prior <> ", " <> ip

unfoldable pub add_forwarded_for : Option String → Headers → Headers
add_forwarded_for none h = h
add_forwarded_for (some ip) h =
    set_header "X-Forwarded-For" (forwarded_for (lookup "X-Forwarded-For" h) ip) h

unfoldable pub add_upgrade : String → Headers → Headers
add_upgrade kind h =
    if kind == "" then h else set_header "Upgrade" kind (set_header "Connection" "Upgrade" h)

unfoldable pub add_trailers : Bool → Headers → Headers
add_trailers taken h = if taken then set_header "Te" "trailers" h else h

unfoldable pub add_user_agent : Headers → Headers
add_user_agent h = if is_some (lookup "User-Agent" h) then h else set_header "User-Agent" "" h

unfoldable pub forget_backend : String → Gateway → Gateway
forget_backend user_id g = record g { backends = remove named_key user_id g.backends }

module _ ⦃env : Env⦄ ⦃net : Net⦄ where
  -- The headers that the Director leaves on the request to the workspace.
  unfoldable pub directed : Backend → String → Headers → Headers
  directed b user_id h = set_header "X-Forwarded-User" user_id (
      set_header "Authorization"
        ("Basic " <> env.encode_padded (env.bytes ("opencode:" <> b.password)))
        (del_header "X-Forwarded-User" (
          del_header "X-Csrf-Token"
            (del_header "Authorization" (del_header "Cookie" (net.base_director h))))))

  -- The keys that the Connection header names.
  unfoldable pub connection_names : Headers → List String
  connection_names h =
      keep (λ name. not (name == ""))
        (map net.named_field (split b',' (get_or (lookup "Connection" h) "")))

  -- `removeHopByHopHeaders` of net/http/httputil.
  unfoldable pub without_hop_headers : Headers → Headers
  without_hop_headers h = del_headers hop_headers (del_headers (connection_names h) h)

  -- The headers of the request to the workspace: what ServeHTTP of httputil.ReverseProxy makes of
  -- those that the Director leaves, for a request with the headers `h` from the remote address.
  unfoldable pub outgoing : Backend → String → String → Headers → Headers
  outgoing b remote_addr user_id h =
      let d = directed b user_id h in
      add_user_agent (
        add_forwarded_for (net.client_ip remote_addr) (
          add_upgrade (net.upgrade_type d)
            (add_trailers (net.takes_trailers h) (without_hop_headers d))))

  abbrev pub remember_backend : Gateway → String → String × String → M (Backend × Gateway)
  remember_backend g user_id (address, password) = do
    require (net.is_url address) (failed "parse")
    let b : Backend = record { target = address; password = password }
    pure (b, record g { backends = insert user_id b g.backends })

  abbrev pub cached_backend : Controller → Gateway → String → Option Backend → M (Backend × Gateway)
  cached_backend c g user_id (some b) = pure (b, g)
  cached_backend c g user_id none = do
    resolved ← Status.backend c user_id
    remember_backend g user_id resolved

  unfoldable pub gateway_backend : Controller → Gateway → String → M (Backend × Gateway)
  gateway_backend c g user_id = cached_backend c g user_id (lookup user_id g.backends)

  -- The zero time for a user who has not been seen.
  abbrev pub last_seen : Option ℕ → ℕ
  last_seen none = 0
  last_seen (some t) = t

  unfoldable pub touch_at : ℕ → Gateway → String → M Gateway
  touch_at time g user_id =
      if ltb time (last_seen (lookup user_id g.last_touch) + minute) then pure g else (do
        touch_workspace user_id
        pure (record g { last_touch = insert user_id time g.last_touch }))

  unfoldable pub touch : Gateway → String → M Gateway
  touch g user_id = do time ← now; touch_at time g user_id

  unfoldable pub starting : Request → Reply
  starting r =
      if net.contains (r.header "Accept") "text/html" && r.method == "GET"
      then starting_page
      else unavailable "workspace is starting; retry shortly"

  -- proxy.ServeHTTP, with its ErrorHandler: a protocol that is not printable is an error as well.
  unfoldable pub exchange : Backend → Request → Headers → String → Gateway → M (Reply × Gateway)
  exchange b r h user_id g w =
      let sent = outgoing b r.remote_addr user_id h in
      if not (net.is_print (net.upgrade_type (directed b user_id h))) || net.exchange_fails b sent w
      then (ok (bad_gateway b sent, forget_backend user_id g), w)
      else (ok (proxied b sent, g), w)

  abbrev pub to_backend :
      Gateway → Request → Headers → User → Result (Backend × Gateway) → M (Reply × Gateway)
  to_backend g r h user (err e) = pure (starting r, g)
  to_backend g r h user (ok (b, g')) = do g'' ← touch g' user.id; exchange b r h user.id g''

  unfoldable pub serve_running :
      Controller → Gateway → Request → Headers → User → M (Reply × Gateway)
  serve_running c g r h user = attempt (gateway_backend c g user.id) (to_backend g r h user)

  abbrev pub serve_started :
      Controller → Gateway → Request → Headers → User → Result (Unit {0}) → M (Reply × Gateway)
  serve_started c g r h user (err e) = pure (unavailable "failed to start workspace", g)
  serve_started c g r h user (ok u) = serve_running c g r h user

  abbrev pub serve_workspace :
      Controller → Gateway → Request → Headers → User → Result Workspace → M (Reply × Gateway)
  serve_workspace c g r h user (err e) = pure (unavailable "workspace unavailable", g)
  serve_workspace c g r h user (ok w) =
      if w.desired_state == "running"
      then serve_running c g r h user
      else attempt (start c user.id) (serve_started c (forget_backend user.id g) r h user)

  -- ServeHTTP, from the request and its headers.
  unfoldable pub serve : Controller → Gateway → Request → Headers → User → M (Reply × Gateway)
  serve c g r h user = attempt (workspace user.id) (serve_workspace c g r h user)
