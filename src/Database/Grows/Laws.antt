-- ===== src/Database/Grows/Laws.antt =====
-- Accounts, audit events and the first administrator, over histories of calls.
use opencode_workspaces.Prelude.{
  ℕ, ◌≡◌, ◌≢◌, refl, subst, ap, ◌∙◌, sym, String, Bool, true, false, not, List, [], ◌∷◌, ◌++◌,
  arith, string_eq,
}
use mathlib.Core.List.{append_assoc, append-nil}
use opencode_workspaces.Model.{User}
use opencode_workspaces.Env.{Env}
use opencode_workspaces.Rows.{has, modify}
use opencode_workspaces.Rows.Laws.{has-concat, has-modify}
use opencode_workspaces.Tables.{Tables, UserRow, AuditRow}
use opencode_workspaces.World.{
  Result, ok, err, World, M, not_found, conflict, already_bootstrapped, duplicate_key, missing,
  failed, ◌>>◌, pure, require, statement, attempt,
}
use opencode_workspaces.World.Keeps.{
  Post, ok_injective, Ensures, Ensures-bind, Ensures-exec, Ensures-query, Ensures-new_uuid,
  Ensures-now, Keeps, Keeps-statement, Keeps-require, Keeps-bind, Keeps-pure,
}
use opencode_workspaces.World.Keeps.Transactions.{
  Post_ok, Post_at, Ensures-transaction, Ensures-of_Keeps,
}
use opencode_workspaces.Database.Sql.{user_key, with_id, insert_user_row}
use opencode_workspaces.Database.Sound.Rules.{with_uuid-eq-ok}
use opencode_workspaces.Database.Users
use opencode_workspaces.Database.Users.{any_user, as_conflict}
use opencode_workspaces.Database.Calls.{Call, run}
use opencode_workspaces.Database.Grows.{Grows}
use opencode_workspaces.Database.Grows.Methods.{run-At, insert_rest-At, audit-At}

-- The audit log begins with the events `old`.
abbrev pub Extends : List AuditRow → List UserRow → List AuditRow → Type 0
Extends old users events = (rest : List AuditRow) × (events ≡ old ++ rest)

pub Extends-Grows : (old : List AuditRow) → Grows (Extends old)
Extends-Grows old = record {
  add_user = λ users events r q. q;
  change_user = λ users events k f same q. q;
  add_event = λ users events e (rest, p).
      (rest ++ e ∷ [], ap (λ es. es ++ e ∷ []) p ∙ append_assoc old rest (e ∷ []));
}

abbrev pub HasAccount : String → List UserRow → List AuditRow → Type 0
HasAccount k users events = has user_key k users ≡ true

pub HasAccount-Grows : (k : String) → Grows (HasAccount k)
HasAccount-Grows k = record {
  add_user = λ users events r q. rw (has-concat user_key k users r, q);
  change_user = λ users events j f same q. has-modify user_key f same k j users ∙ q;
  add_event = λ users events e q. q;
}

abbrev Bootstrapped : List UserRow → List AuditRow → Type 0
Bootstrapped users events = any_user users ≡ true

any_user-concat : (users : List UserRow) (r : UserRow) → any_user (users ++ r ∷ []) ≡ true
any_user-concat [] r = refl
any_user-concat (x ∷ users) r = refl

any_user-modify :
    (users : List UserRow) (k : String) (f : UserRow → UserRow)
    → any_user users ≡ true
    → any_user (modify user_key k f users) ≡ true
unfolding modify
any_user-modify [] k f h = h
any_user-modify (x ∷ users) k f h = refl

Bootstrapped-Grows : Grows Bootstrapped
Bootstrapped-Grows = record {
  add_user = λ users events r q. any_user-concat users r;
  change_user = λ users events j f same q. any_user-modify users j f q;
  add_event = λ users events e q. q;
}

abbrev AnyUser : Tables → Type 0
AnyUser t = any_user t.users ≡ true

abbrev Inserted : Unit {0} → Tables → Type 0
Inserted _ = AnyUser

module _ ⦃env : Env⦄ where
  -- No history of calls removes or changes an audit event: the log only gets longer.
  pub run_keeps_log :
      (w : World) (history : List (ℕ × Call))
      → (rest : List AuditRow) × ((run w history).tables.audit_events
          ≡ w.tables.audit_events ++ rest)
  run_keeps_log w history =
      run-At (Extends w.tables.audit_events) (Extends-Grows w.tables.audit_events) w history
        ([], sym (append-nil _))

  -- An account stays under its id, whatever the history of calls.
  pub run_keeps_account :
      (w : World) (history : List (ℕ × Call)) (k : String)
      → has user_key k w.tables.users ≡ true
      → has user_key k (run w history).tables.users ≡ true
  run_keeps_account w history k h = run-At (HasAccount k) (HasAccount-Grows k) w history h

  -- An account has been inserted by the time that insertUser returns.
  insert_user_row-Bootstrapped :
      (r : UserRow) (t t' : Tables) → insert_user_row r t ≡ ok t' → any_user t'.users ≡ true
  unfolding insert_user_row
  insert_user_row-Bootstrapped r t t' e =
      let (k, _, e₁) = with_uuid-eq-ok r.id _ t' e in
      let row : UserRow = with_id r k in
      let written : record t { users = t.users ++ row ∷ [] } ≡ t' = ground arith in
      subst (λ (x : Tables). any_user x.users ≡ true) written (any_user-concat t.users row)

  conflict-Post :
      (r : Result (Unit {0}) × World) → Post Inserted r → Post Inserted (as_conflict r.0 r.1)
  conflict-Post (ok tt, w) q = q
  conflict-Post (err duplicate_key, w) q = tt
  conflict-Post (err not_found, w) q = tt
  conflict-Post (err conflict, w) q = tt
  conflict-Post (err already_bootstrapped, w) q = tt
  conflict-Post (err missing, w) q = tt
  conflict-Post (err (failed e), w) q = tt

  conflict-Ensures :
      (m : M (Unit {0}))
      → Ensures (λ _. Unit {0}) m Inserted
      → Ensures (λ _. Unit {0}) (attempt m as_conflict) Inserted
  unfolding attempt
  conflict-Ensures m h = record { at = λ w p. conflict-Post (m w) (h.at w p) }

  keep_inserted : {A : Type 0} (m : M A) → Keeps AnyUser m → Ensures AnyUser m (λ _. AnyUser)
  keep_inserted m k = Ensures-of_Keeps m k

  insert_user_with-Ensures :
      (id : String) (time : ℕ) (u d e r h : String)
      → Ensures (λ _. Unit {0}) (Users.insert_user_with id time u d e r h) (λ _. AnyUser)
  unfolding Users.insert_user_with
  insert_user_with-Ensures id time u d e r h =
      Ensures-bind Inserted (λ _. AnyUser) _ _
        (conflict-Ensures _
          (Ensures-exec AnyUser _ (λ t t' _ x. insert_user_row-Bootstrapped _ t t' x)))
        (λ _. keep_inserted _ (insert_rest-At Bootstrapped Bootstrapped-Grows id time h _))

  insert_user-Ensures :
      (u d e r h : String) → Ensures (λ _. Unit {0}) (Users.insert_user u d e r h) (λ _. AnyUser)
  unfolding Users.insert_user
  insert_user-Ensures u d e r h =
      Ensures-bind (λ _ _. Unit {0}) (λ _. AnyUser) _ _ Ensures-new_uuid
        (λ id.
          Ensures-bind (λ _ _. Unit {0}) (λ _. AnyUser) _ _ Ensures-now
            (λ time. insert_user_with-Ensures id time u d e r h))

  audit_then-Ensures :
      (a s b c d x : String) (user : User)
      → Ensures AnyUser (do Users.audit a s b c d x; pure user) (λ _. AnyUser)
  audit_then-Ensures a s b c d x user =
      keep_inserted _ (
        Keeps-bind _ _ (audit-At Bootstrapped Bootstrapped-Grows a s b c d x)
          (λ _. Keeps-pure user))

  bootstrap_body-Ensures :
      (u d e h : String) → Ensures (λ _. Unit {0}) (Users.bootstrap_body u d e h) (λ _. AnyUser)
  unfolding Users.bootstrap_body
  bootstrap_body-Ensures u d e h =
      Ensures-bind (λ _ _. Unit {0}) (λ _. AnyUser) _ _ (Ensures-of_Keeps statement Keeps-statement)
        (λ _.
          Ensures-bind (λ _ _. Unit {0}) (λ _. AnyUser) _ _ (Ensures-query _ _ (λ _ _ _ _. tt))
            (λ taken.
              Ensures-bind (λ _ _. Unit {0}) (λ _. AnyUser) _ _
                (Ensures-of_Keeps _ (Keeps-require _ _))
                (λ _.
                  Ensures-bind (λ _. AnyUser) (λ _. AnyUser) _ _
                    (insert_user-Ensures u d e "admin" h)
                    (λ user.
                      audit_then-Ensures user.id "bootstrap.admin" "user" user.id "{}" "" user))))

  require-true :
      (taken : Bool)
      → Ensures (λ _. taken ≡ true) (require (not taken) already_bootstrapped) (λ _ _. ⊥)
  unfolding require
  require-true true = record { at = λ w p. tt }
  require-true false = record { at = λ w p. ground arith }

  -- On tables with an account, no bootstrap returns.
  bootstrap_body-blocked :
      (u d e h : String) → Ensures AnyUser (Users.bootstrap_body u d e h) (λ _ _. ⊥)
  unfolding Users.bootstrap_body
  bootstrap_body-blocked u d e h =
      Ensures-bind (λ _. AnyUser) (λ _ _. ⊥) _ _ (Ensures-of_Keeps statement Keeps-statement)
        (λ _.
          Ensures-bind (λ taken t. taken ≡ true) (λ _ _. ⊥) _ _
            (Ensures-query _ _ (λ t a p x. sym (ok_injective x) ∙ p))
            (λ taken.
              Ensures-bind (λ _ _. ⊥) (λ _ _. ⊥) _ _ (require-true taken)
                (λ _. record { at = λ w p. elim p [ ] })))

  -- Once bootstrap_admin has returned an account, it returns none in any world that a history of
  -- calls leads to.
  pub bootstrap_once :
      (w w' : World) (u d e h : String) (user : User) (history : List (ℕ × Call))
      (u' d' e' h' : String) (user' : User)
      → Users.bootstrap_admin u d e h w ≡ (ok user, w')
      → (Users.bootstrap_admin u' d' e' h' (run w' history)).0 ≢ ok user'
  unfolding Users.bootstrap_admin
  bootstrap_once w w' u d e h user history u' d' e' h' user' done =
      let first = (Ensures-transaction _ _ _ (bootstrap_body-Ensures u d e h)).at w tt in
      let any : AnyUser w'.tables = Post_at (λ _. AnyUser) _ user w' first done in
      let after = run-At Bootstrapped Bootstrapped-Grows w' history any in
      Post_ok _ _ user'
        ((Ensures-transaction _ _ _ (bootstrap_body-blocked u' d' e' h')).at (run w' history) after)
