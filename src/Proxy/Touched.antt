-- ===== src/Proxy/Touched.antt =====
-- How often the gateway writes the activity of an account.
use opencode_workspaces.Prelude.{
  ℕ, suc, ◌+◌, ◌≡◌, ◌≤◌, ◌<◌, refl, ap, ◌∙◌, String, true, false, some, List, [], ◌∷◌, arith,
  string_eq, ltb, Bool-cases, inl, inr,
}
use opencode_workspaces.Model.{minute}
use opencode_workspaces.Env.{Env}
use opencode_workspaces.Rows.Laws.{find-upsert, beq_refl}
use opencode_workspaces.Tables.{Tables}
use opencode_workspaces.World.{World, Result, ok, M, pure, ◌>>=◌, attempt, statement, exec}
use opencode_workspaces.Database.Workspaces.{touch_workspace, touch_row, set_touched}
use opencode_workspaces.Kube.Status.{named_key, value_at, lookup, insert}
use opencode_workspaces.Proxy.{Net, Gateway, last_seen, touch_at}

-- The times lie in the minute that begins at `start`.
unfoldable pub Within : ℕ → List ℕ → Type 0
Within start [] = Unit
Within start (t ∷ ts) = (start ≤ t) × (t < start + minute) × Within start ts

lookup-insert :
    {A : Type 0} (k : String) (a : A) (m : List (String × A)) → lookup k (insert k a m) ≡ some a
unfolding lookup insert
lookup-insert {A} k a m =
    ap value_at (find-upsert named_key k k (λ _. (k, a)) m (λ _. refl))
    ∙ rw (beq_refl (named_key {A = A}) k) refl

module _ ⦃env : Env⦄ ⦃net : Net⦄ where
  -- Requests of one account, at the times of the list.
  unfoldable pub touches : List ℕ → String → Gateway → M Gateway
  touches [] user_id g = pure g
  touches (t ∷ ts) user_id g = do g' ← touch_at t g user_id; touches ts user_id g'

  exec-calls : (f : Tables → Result Tables) (w : World) → (exec f w).1.sql_calls ≡ suc w.sql_calls
  unfolding exec statement ◌>>=◌
  exec-calls f w = ground arith

  touch_workspace-calls :
      (id : String) (w : World)
      → ((touch_workspace id w).0 ≡ ok tt) × ((touch_workspace id w).1.sql_calls ≡ suc w.sql_calls)
  unfolding touch_workspace attempt ◌>>=◌
  touch_workspace-calls id w = (refl, exec-calls (touch_row id (set_touched w.clock)) w)

  pub touch_at-recent :
      (t : ℕ) (g : Gateway) (id : String) (w : World)
      → ltb t (last_seen (lookup id g.last_touch) + minute) ≡ true
      → touch_at t g id w ≡ (ok g, w)
  unfolding touch_at
  touch_at-recent t g id w h = rw h refl

  touches-recent :
      (ts : List ℕ) (start : ℕ) (g : Gateway) (id : String) (w : World)
      → start ≤ last_seen (lookup id g.last_touch)
      → Within start ts
      → touches ts id g w ≡ (ok g, w)
  unfolding touches ◌>>=◌ Within
  touches-recent [] start g id w h k = refl
  touches-recent (t ∷ ts) start g id w h (k, k', ks) =
      rw (touch_at-recent t g id w (ground arith)) (touches-recent ts start g id w h ks)

  -- What a touch of an account that has not been seen for a minute does.
  pub touch_at-old :
      (t : ℕ) (g : Gateway) (id : String) (w : World)
      → ltb t (last_seen (lookup id g.last_touch) + minute) ≡ false
      → touch_at t g id w
        ≡ (ok (record g { last_touch = insert id t g.last_touch }), (touch_workspace id w).1)
  unfolding touch_at ◌>>=◌
  touch_at-old t g id w h = rw (h, (touch_workspace-calls id w).0) refl

  -- Requests of one account within a minute, in any order and any number, make one call of the
  -- database for its activity at most, whatever the database does.
  pub touch_once_a_minute :
      (ts : List ℕ) (start : ℕ) (g : Gateway) (id : String) (w : World)
      → Within start ts
      → (touches ts id g w).1.sql_calls ≤ suc w.sql_calls
  unfolding touches ◌>>=◌ Within
  touch_once_a_minute [] start g id w k = ground arith
  touch_once_a_minute (t ∷ ts) start g id w (k, k', ks) =
      elim (Bool-cases (ltb t (last_seen (lookup id g.last_touch) + minute))) [
        | inl recent ↦ rw (touch_at-recent t g id w recent) (touch_once_a_minute ts start g id w ks)
        | inr old ↦
            rw
              (
                touch_at-old t g id w old,
                touches-recent ts start (record g { last_touch = insert id t g.last_touch }) id
                    (touch_workspace id w).1 (rw (lookup-insert id t g.last_touch) k) ks,
              )
              (ground (arith, (touch_workspace-calls id w).1))
      ]
