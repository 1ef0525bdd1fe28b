-- ===== src/Database/Sound/Workspaces.antt =====
-- The statements that change workspaces, on a sound database.
use opencode_workspaces.Prelude.{
  ◌≡◌, ◌∙◌, subst, sym, String, true, none, List, string_eq, arith, Option-cases, inl, inr, All,
}
use opencode_workspaces.Env.{Env}
use opencode_workspaces.Rows.{find, has, modify}
use opencode_workspaces.Rows.Laws.{has-modify, All-modify}
use opencode_workspaces.Tables.{Tables, WorkspaceRow}
use opencode_workspaces.World.{ok}
use opencode_workspaces.Database.Sql.{workspace_key, is_state}
use opencode_workspaces.Database.Workspaces.{update_workspace_row, touch_row}
use opencode_workspaces.Database.Sound.{Apart, IsSound}
use opencode_workspaces.Database.Sound.Rules.{with_uuid-eq-ok}
use opencode_workspaces.Database.Sound.Overlaps.{KeepsPlace, Apart-modify}
use opencode_workspaces.World.Keeps.{ok_injective}

module _ ⦃env : Env⦄ where
  -- A change of the workspaces that keeps their users keeps the database sound.
  pub workspaces-IsSound :
      (t : Tables) (workspaces : List WorkspaceRow)
      → IsSound none t
      → ((j : String) → has workspace_key j workspaces ≡ has workspace_key j t.workspaces)
      → Apart workspaces
      → All (λ w. is_state w.desired_state ≡ true) workspaces
      → IsSound none (record t { workspaces = workspaces })
  workspaces-IsSound t workspaces v same apart states = record {
    paired = λ j. v.paired j ∙ sym (same j);
    distinct = v.distinct;
    apart = apart;
    roles = v.roles;
    states = states;
    sessions_owned = v.sessions_owned;
    credentials_owned = v.credentials_owned;
    identities_owned = v.identities_owned;
    configurations_owned = v.configurations_owned;
  }

  -- The UPDATE of a workspace to a state that does not depend on the row.
  pub update_workspace_row-IsSound :
      (id : String) (f : WorkspaceRow → WorkspaceRow) (t t' : Tables)
      → KeepsPlace f
      → ((a b : WorkspaceRow) → (f a).desired_state ≡ (f b).desired_state)
      → IsSound none t
      → update_workspace_row id f t ≡ ok t'
      → IsSound none t'
  unfolding update_workspace_row
  update_workspace_row-IsSound id f t t' same constant v e =
      let (k, _, e₁) = with_uuid-eq-ok id _ t' e in
      elim (Option-cases (find workspace_key k t.workspaces)) [
        | inl absent ↦ absurd (ground arith)
        | inr (w, found) ↦
            let valid : is_state (f w).desired_state ≡ true = ground arith in
            let t₁ : Tables = record t { workspaces = modify workspace_key k f t.workspaces } in
            let written : t₁ ≡ t' = ground arith in
            subst (IsSound none) written (
              workspaces-IsSound t (modify workspace_key k f t.workspaces) v
                (λ j. has-modify workspace_key f (λ a. (same a).0) j k t.workspaces)
                (Apart-modify k f same t.workspaces v.apart)
                (All-modify workspace_key _ k f t.workspaces v.states
                  (λ a _. rw (constant a w) valid)))
      ]

  pub touch_row-IsSound :
      (id : String) (f : WorkspaceRow → WorkspaceRow) (t t' : Tables)
      → KeepsPlace f
      → ((a : WorkspaceRow) → is_state (f a).desired_state ≡ true)
      → IsSound none t
      → touch_row id f t ≡ ok t'
      → IsSound none t'
  unfolding touch_row
  touch_row-IsSound id f t t' same valid v e =
      let (k, _, e₁) = with_uuid-eq-ok id _ t' e in
      subst (IsSound none) (ok_injective e₁) (
        workspaces-IsSound t (modify workspace_key k f t.workspaces) v
          (λ j. has-modify workspace_key f (λ a. (same a).0) j k t.workspaces)
          (Apart-modify k f same t.workspaces v.apart)
          (All-modify workspace_key _ k f t.workspaces v.states (λ a _. valid a)))
