-- ===== src/Proxy/Answers.antt =====
-- What ServeHTTP answers.
use opencode_workspaces.Prelude.{◌≡◌, String, Bool, string_eq}
use opencode_workspaces.Env.{Env}
use opencode_workspaces.World.{World, Result, ok, err}
use opencode_workspaces.Kube.Status.{lookup}
use opencode_workspaces.Prelude.{none}
use opencode_workspaces.Proxy.{Gateway, Reply, unavailable, starting_page, proxied, bad_gateway}
use opencode_workspaces.Proxy.Credentials.{AreForwarded}

module _ ⦃env : Env⦄ where
  -- A page of the gateway itself, or a request to the workspace with the headers for it.
  unfoldable pub IsAnswer : String → (String → Bool) → Reply → Type 0
  IsAnswer user_id named (unavailable message) = Unit
  IsAnswer user_id named starting_page = Unit
  IsAnswer user_id named (proxied b h) = AreForwarded b user_id named h
  IsAnswer user_id named (bad_gateway b h) = AreForwarded b user_id named h

  -- What a reply says of the backends that are remembered.
  unfoldable pub IsRemembered : String → Reply → Gateway → Type 0
  IsRemembered user_id (bad_gateway b h) g = lookup user_id g.backends ≡ none
  IsRemembered user_id reply g = Unit

  -- The handler has answered.
  unfoldable pub HasAnswered : String → (String → Bool) → Result (Reply × Gateway) → Type 0
  HasAnswered user_id named (ok (reply, g)) =
      IsAnswer user_id named reply × IsRemembered user_id reply g
  HasAnswered user_id named (err e) = ⊥
