-- ===== src/Database/Desired.antt =====
-- The desired state, from SetWorkspaceState to Workspace.
use opencode_workspaces.Prelude.{
  ℕ, ◌≡◌, refl, sym, ap, ◌∙◌, String, Bool, true, false, Option, some, [], ◌∷◌, ◌++◌, arith,
  string_eq, if◌then◌else◌, Option-cases, inl, inr,
}
use opencode_workspaces.Model.{Workspace}
use opencode_workspaces.Env.{Env}
use opencode_workspaces.Rows.{find, modify}
use opencode_workspaces.Rows.Laws.{find-modified}
use opencode_workspaces.Tables.{Tables, WorkspaceRow}
use opencode_workspaces.World.{Result, ok, World, exec}
use opencode_workspaces.World.Keeps.{
  Keeps, Keeps-exec, Ensures, Ensures-bind, Ensures-exec, Ensures-now, Keeps-now, Keeps-bind,
  Keeps-next_audit_id, ok_injective,
}
use opencode_workspaces.World.Keeps.Transactions.{Ensures-transaction, Ensures-of_Keeps, Post_at}
use opencode_workspaces.World.Steps.{query_ok}
use opencode_workspaces.Database.Sql.{
  workspace_key, insert_audit_row, references_user?, new_audit_row,
}
use opencode_workspaces.Database.Sound.Rules.{
  with_uuid-eq-ok, with_null_uuid-eq-ok, references_user?-eq-ok,
}
use opencode_workspaces.Database.Users
use opencode_workspaces.Database.Workspaces
use opencode_workspaces.Database.Workspaces.{
  set_state, set_restarted, update_workspace_row, set_workspace_state, set_workspace_state_body,
  workspace, found_workspace,
}

module _ ⦃env : Env⦄ where
  -- The row of the account with the id, and the nonce that it has.
  pub record HasDesired (id : String) (holds : WorkspaceRow → Type 0) (t : Tables) : Type 0 where
    pub key : String
    pub row : WorkspaceRow
    pub parsed : env.parse_uuid id ≡ some key
    pub found : find workspace_key key t.workspaces ≡ some row
    pub held : holds row

  insert_audit_row-workspaces :
      (n time : ℕ) (a b c d e x : String) (t t' : Tables)
      → insert_audit_row n time a b c d e x t ≡ ok t'
      → t.workspaces ≡ t'.workspaces
  unfolding insert_audit_row
  insert_audit_row-workspaces n time a b c d e x t t' h =
      let f : Option String → Result Tables = λ o. references_user? o t (
        ok (record t { audit_events = t.audit_events ++ new_audit_row n time b c d e x o ∷ [] })) in
      let (o, h₁) = with_null_uuid-eq-ok a f t' h in
      ap (λ (x : Tables). x.workspaces) (ok_injective (references_user?-eq-ok o t _ t' h₁))

  update_workspace_row-Desired :
      (id : String) (f : WorkspaceRow → WorkspaceRow) (holds : WorkspaceRow → Type 0)
      → ((r : WorkspaceRow) → (f r).user_id ≡ r.user_id)
      → ((r : WorkspaceRow) → holds (f r))
      → (t t' : Tables) → update_workspace_row id f t ≡ ok t'
      → HasDesired id holds t'
  unfolding update_workspace_row
  update_workspace_row-Desired id f holds same held t t' h =
      let (k, parsed, e) = with_uuid-eq-ok id _ t' h in
      elim (Option-cases (find workspace_key k t.workspaces)) [
        | inl absent ↦ absurd (ground arith)
        | inr (w, found) ↦
            let t₁ : Tables = record t { workspaces = modify workspace_key k f t.workspaces } in
            let written : t₁ ≡ t' = ground arith in
            record {
              key = k;
              row = f w;
              parsed = parsed;
              found =
                  ap (λ (x : Tables). find workspace_key k x.workspaces) (sym written)
                  ∙ find-modified workspace_key f k t.workspaces w same found;
              held = held w;
            }
      ]

  audit-Desired :
      (id : String) (holds : WorkspaceRow → Type 0) (a b c d e x : String)
      → Keeps (HasDesired id holds) (Users.audit a b c d e x)
  unfolding Users.audit
  audit-Desired id holds a b c d e x = Keeps-bind _ _ Keeps-now λ time.
      Keeps-bind _ _ Keeps-next_audit_id λ n. Keeps-exec _ λ t t' q h.
        let same = insert_audit_row-workspaces n time a b c d e x t t' h in
        record {
          key = q.key;
          row = q.row;
          parsed = q.parsed;
          found = ap (find workspace_key q.key) (sym same) ∙ q.found;
          held = q.held;
        }

  -- The state that the call asks for: a restart runs the workspace.
  abbrev pub asked : String → Bool → String
  asked state restart = if restart then "running" else state

  abbrev pub HasState : String → String → Tables → Type 0
  HasState id state = HasDesired id (λ r. r.desired_state ≡ state)

  update-Ensures :
      (id state : String) (restart : Bool) (time : ℕ)
      → Ensures
          (λ _. Unit {0})
          (exec (
            update_workspace_row id (if restart then set_restarted time else set_state time state)))
          (λ _. HasState id (asked state restart))
  update-Ensures id state true time = Ensures-exec _ _ λ t t' _ h.
      update_workspace_row-Desired id (set_restarted time) _ (λ _. refl) (λ _. refl) t t' h
  update-Ensures id state false time = Ensures-exec _ _ λ t t' _ h.
      update_workspace_row-Desired id (set_state time state) _ (λ _. refl) (λ _. refl) t t' h

  set_workspace_state-Ensures :
      (actor id state remote : String) (restart : Bool)
      → Ensures
          (λ _. Unit {0})
          (set_workspace_state actor id state remote restart)
          (λ _. HasState id (asked state restart))
  unfolding set_workspace_state set_workspace_state_body
  set_workspace_state-Ensures actor id state remote restart = Ensures-transaction _ _ _ (
      Ensures-bind (λ _ _. Unit {0}) _ _ _ Ensures-now
        λ time.
          Ensures-bind (λ _. HasState id (asked state restart)) _ _ _
            (update-Ensures id state restart time)
            λ _. Ensures-of_Keeps _ (audit-Desired id _ _ _ _ _ _ _))

  -- Once SetWorkspaceState has returned, Workspace returns the state that was asked for, which a
  -- restart makes running.
  pub desired_state_is_read_back :
      (actor id state remote : String) (restart : Bool) (w w' w'' : World) (u : Unit {0})
      (v : Workspace)
      → set_workspace_state actor id state remote restart w ≡ (ok u, w')
      → workspace id w' ≡ (ok v, w'')
      → v.desired_state ≡ asked state restart
  unfolding workspace Workspaces.workspace_of
  desired_state_is_read_back actor id state remote restart w w' w'' u v h k =
      let s =
        Post_at _ _ u w' ((set_workspace_state-Ensures actor id state remote restart).at w tt) h in
      let (read, _) = query_ok _ w' w'' v k in
      let (j, parsed, e) = with_uuid-eq-ok id _ v read in
      let same : s.key ≡ j = ground arith in
      let t = w'.tables in
      let row : found_workspace t (some s.row) ≡ ok v =
        ap (found_workspace t) (sym s.found)
        ∙ ap (λ x. found_workspace t (find workspace_key x t.workspaces)) same
        ∙ e in
      ap (λ (x : Workspace). x.desired_state) (sym (ok_injective row)) ∙ s.held
