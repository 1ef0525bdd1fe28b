-- ===== src/Server/Admin/OwnAccount.antt =====
-- updateUser under the id of the administrator who asks, where the path has the exact text of that id.
use opencode_workspaces.Prelude.{
  ◌≡◌, ◌≢◌, refl, String, Bool, true, false, not, ◌||◌, some, ◌⊎◌, inl, inr, ◌==◌, string_eq,
  str_iff, Bool-cases,
}
use opencode_workspaces.Model.{User, is_admin}
use opencode_workspaces.Env.{Env}
use opencode_workspaces.Http.{Request}
use opencode_workspaces.Tables.{Tables}
use opencode_workspaces.Auth.Sessions.Untouched.{Rest, csrf_valid-Keeps_Rest}
use opencode_workspaces.Oidc.Flows.{Provider}
use opencode_workspaces.Server.{
  Server, Response, Web, Site, Handler, next, answer, error_page, ◌>>=◌, ◌>>◌, ensure,
}
use opencode_workspaces.Server.Steps.{bind_of_next}
use opencode_workspaces.Server.Guards.{bind_answered, refusal, require_admin-refuses}
use opencode_workspaces.Server.Holds.{Holds, Holds-answer, Holds-ensure, holds_rules}
use opencode_workspaces.Server.Pages.{check_csrf, is_filled, require_admin}
use opencode_workspaces.Server.Preserved.{optional_hash-Holds}
use opencode_workspaces.Server.Refuses.{HasRefused, Refuses, Refuses-after, Refuses-ensure}
use opencode_workspaces.Server.Admin.{update_account, locks_out, is_known_role, optional_hash}

or_true : (b : Bool) → not (b || true) ≡ false
or_true true = refl
or_true false = refl

locks_out_self :
    (actor : User) (role : String) (disabled : Bool)
    → (disabled ≡ true) ⊎ (role ≢ "admin")
    → not (locks_out actor actor.id role disabled) ≡ false
unfolding locks_out
locks_out_self actor role disabled (inl d) = rw ((str_iff actor.id actor.id).1 refl, d) refl
locks_out_self actor role disabled (inr n) = elim (Bool-cases (role == "admin")) [
  | inl same ↦ absurd (n ((str_iff role "admin").0 same))
  | inr other ↦ rw ((str_iff actor.id actor.id).1 refl, other) (or_true disabled)
]

require_admin_next :
    (u : User) (site : Site) → is_admin u ≡ true → require_admin (some u) site ≡ (next u, site)
unfolding require_admin ensure ◌>>=◌
require_admin_next u site h = rw h refl

module _ ⦃env : Env⦄ ⦃provider : Provider⦄ ⦃web : Web⦄ where
  check_csrf-Rest : (t : Tables) (s : Server) (r : Request) → Holds (Rest t) (check_csrf s r)
  unfolding check_csrf
  check_csrf-Rest t s r = search (holds_rules, csrf_valid-Keeps_Rest)

  -- The handler behind the two guards, for the actor's own id.
  rest-Refuses :
      (t : Tables) (s : Server) (r : Request) (actor : User)
      (last : String → Unit {0} → Handler Response)
      → (is_filled (r.form "disabled") ≡ true) ⊎ (r.form "role" ≢ "admin")
      → Refuses (Rest t) (do
        check_csrf s r
        ensure (is_known_role (r.form "role")) (answer (error_page 400))
        hash ← optional_hash (r.form "password")
        (ensure
              (not (locks_out actor actor.id (r.form "role") (is_filled (r.form "disabled"))))
              (answer (error_page 400))
            >>= last hash))
  rest-Refuses t s r actor last h = Refuses-after _ _ (check_csrf-Rest t s r) λ _.
      Refuses-after _ _ (Holds-ensure _ _ (Holds-answer _)) λ _.
        Refuses-after _ _ (optional_hash-Holds _)
          λ hash. Refuses-ensure _ _ (last hash) (locks_out_self actor _ _ h)

  -- Under the id of their own account, an administrator who asks to disable it or for another role is
  -- refused, and of the tables only the times at which sessions were last seen may change.
  pub own_account_stays :
      (s : Server) (r : Request) (actor : User) (site : Site)
      → (is_filled (r.form "disabled") ≡ true) ⊎ (r.form "role" ≢ "admin")
      → HasRefused (Rest site.world.tables) (update_account s r (some actor) actor.id site)
  unfolding update_account
  own_account_stays s r actor site h = elim (Bool-cases (is_admin actor)) [
    | inl admin ↦
        rw (bind_of_next _ _ site site actor (require_admin_next actor site admin))
          ((rest-Refuses site.world.tables s r actor _ h).at site (refl, refl))
    | inr other ↦
        rw
          (bind_answered _ _ site site (refusal (some actor))
            (require_admin-refuses (some actor) site other))
          (record { response = refusal (some actor); outcome = refl; tables = (refl, refl) })
  ]
