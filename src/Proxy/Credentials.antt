-- ===== src/Proxy/Credentials.antt =====
-- Which credentials reach a workspace.
use opencode_workspaces.Prelude.{
  ◌≡◌, refl, ◌∙◌, String, Bool, true, false, ◌||◌, Option, none, some, List, [], ◌∷◌, arith, ◌==◌,
  string_eq, if◌then◌else◌, some_of, is_some, Bool-cases, inl, inr,
}
use opencode_workspaces.Prelude.Strings.{◌<>◌}
use opencode_workspaces.Env.{Env}
use opencode_workspaces.Rows.Laws.{find-remove, find-upsert}
use opencode_workspaces.Kube.Status.{named_key, lookup, insert}
use opencode_workspaces.Proxy.{
  Headers, Net, Backend, del_header, set_header, del_headers, hop_headers, add_forwarded_for,
  add_upgrade, add_trailers, add_user_agent, connection_names, without_hop_headers, directed,
  outgoing,
}

lookup-set_header :
    (j k v : String) (h : Headers)
    → lookup j (set_header k v h) ≡ (if k == j then some v else lookup j h)
unfolding lookup set_header insert
lookup-set_header j k v h = ground (arith, find-upsert named_key j k (λ _. (k, v)) h (λ _. refl))

lookup-del_header :
    (j k : String) (h : Headers) → lookup j (del_header k h) ≡ (if k == j then none else lookup j h)
unfolding lookup del_header
lookup-del_header j k h = ground (arith, find-remove named_key j k h)

lookup-del_headers :
    (j : String) (names : List String) (h : Headers)
    → lookup j (del_headers names h)
      ≡ (if some_of (λ name. name == j) names then none else lookup j h)
unfolding del_headers
lookup-del_headers j [] h = refl
lookup-del_headers j (name ∷ names) h =
    ground (arith, lookup-del_headers j names (del_header name h), lookup-del_header j name h)

lookup-add_forwarded_for :
    (j : String) (ip : Option String) (h : Headers)
    → ("X-Forwarded-For" == j) ≡ false
    → lookup j (add_forwarded_for ip h) ≡ lookup j h
unfolding add_forwarded_for
lookup-add_forwarded_for j none h e = refl
lookup-add_forwarded_for j (some ip) h e = lookup-set_header j _ _ h ∙ rw e refl

lookup-add_upgrade :
    (j kind : String) (h : Headers)
    → ("Upgrade" == j) ≡ false
    → ("Connection" == j) ≡ false
    → lookup j (add_upgrade kind h) ≡ lookup j h
unfolding add_upgrade
lookup-add_upgrade j kind h e e' = elim (Bool-cases (kind == "")) [
  | inl empty ↦ rw empty refl
  | inr asked ↦ rw (asked, lookup-set_header, lookup-set_header, e, e') refl
]

lookup-add_trailers :
    (j : String) (taken : Bool) (h : Headers)
    → ("Te" == j) ≡ false
    → lookup j (add_trailers taken h) ≡ lookup j h
unfolding add_trailers
lookup-add_trailers j true h e = lookup-set_header j "Te" "trailers" h ∙ rw e refl
lookup-add_trailers j false h e = refl

lookup-add_user_agent :
    (j : String) (h : Headers)
    → ("User-Agent" == j) ≡ false
    → lookup j (add_user_agent h) ≡ lookup j h
unfolding add_user_agent
lookup-add_user_agent j h e = elim (Bool-cases (is_some (lookup "User-Agent" h))) [
  | inl there ↦ rw there refl
  | inr absent ↦ rw absent (lookup-set_header j "User-Agent" "" h ∙ rw e refl)
]

-- The keys that ReverseProxy itself removes or sets.
abbrev is_reserved : String → Bool
is_reserved j =
    some_of (λ name. name == j) hop_headers || ("X-Forwarded-For" == j) || ("User-Agent" == j)

-- The headers have neither cookie nor CSRF token, and of credentials and user the workspace's own and
-- the id, unless the Connection header names these.
pub record AreForwarded ⦃env : Env⦄ (b : Backend) (user_id : String) (named : String → Bool)
    (h : Headers) : Type 0 where
  pub cookie : lookup "Cookie" h ≡ none
  pub csrf : lookup "X-Csrf-Token" h ≡ none
  pub authorization : lookup "Authorization" h ≡ (
      if named "Authorization"
      then none
      else some ("Basic " <> env.encode_padded (env.bytes ("opencode:" <> b.password))))
  pub user : lookup "X-Forwarded-User" h ≡ (if named "X-Forwarded-User" then none else some user_id)

module _ ⦃env : Env⦄ ⦃net : Net⦄ where
  lookup-directed :
      (j : String) (b : Backend) (user_id : String) (h : Headers)
      → lookup j (directed b user_id h) ≡ (
          if "X-Forwarded-User" == j
          then some user_id
          else if "Authorization" == j
          then some ("Basic " <> env.encode_padded (env.bytes ("opencode:" <> b.password)))
          else if "X-Forwarded-User" == j
          then none
          else if "X-Csrf-Token" == j
          then none
          else if "Authorization" == j
          then none
          else if "Cookie" == j
          then none
          else lookup j (net.base_director h))
  unfolding directed
  lookup-directed j b user_id h =
      rw
        (
          lookup-set_header, lookup-set_header, lookup-del_header, lookup-del_header,
          lookup-del_header, lookup-del_header,
        )
        refl

  -- Whether the Connection header, as the base director leaves it, names the key.
  abbrev pub is_named : Headers → String → Bool
  is_named h j = some_of (λ name. name == j) (connection_names (net.base_director h))

  connection_names-directed :
      (b : Backend) (user_id : String) (h : Headers)
      → connection_names (directed b user_id h) ≡ connection_names (net.base_director h)
  unfolding connection_names
  connection_names-directed b user_id h = rw (lookup-directed "Connection" b user_id h) refl

  lookup-outgoing :
      (j : String) (b : Backend) (remote_addr user_id : String) (h : Headers)
      → is_reserved j ≡ false
      → lookup j (outgoing b remote_addr user_id h)
        ≡ (if is_named h j then none else lookup j (directed b user_id h))
  unfolding outgoing without_hop_headers
  lookup-outgoing j b remote_addr user_id h e =
      lookup-add_user_agent j _ (ground arith)
      ∙ lookup-add_forwarded_for j _ _ (ground arith)
      ∙ lookup-add_upgrade j _ _ (ground arith) (ground arith)
      ∙ lookup-add_trailers j _ _ (ground arith)
      ∙ rw (lookup-del_headers, lookup-del_headers, connection_names-directed b user_id h)
          (ground arith)

  -- Whatever headers the browser sends, and whatever the base director makes of them, the request
  -- to the workspace has no cookie and no CSRF token, and of credentials and user only the
  -- workspace's own and the id of the user: these it has unless a Connection header names them.
  pub outgoing-AreForwarded :
      (b : Backend) (remote_addr user_id : String) (h : Headers)
      → AreForwarded b user_id (is_named h) (outgoing b remote_addr user_id h)
  outgoing-AreForwarded b remote_addr user_id h = record {
    cookie =
        lookup-outgoing "Cookie" b remote_addr user_id h refl ∙ rw lookup-directed (ground arith);
    csrf =
        lookup-outgoing "X-Csrf-Token" b remote_addr user_id h refl
        ∙ rw lookup-directed (ground arith);
    authorization =
        lookup-outgoing "Authorization" b remote_addr user_id h refl ∙ rw lookup-directed refl;
    user =
        lookup-outgoing "X-Forwarded-User" b remote_addr user_id h refl ∙ rw lookup-directed refl;
  }
