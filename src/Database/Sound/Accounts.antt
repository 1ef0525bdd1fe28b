-- ===== src/Database/Sound/Accounts.antt =====
-- The statements on users, and the insert of a workspace, on a sound database.
pub mod Keys
use opencode_workspaces.Prelude.{
  ℕ, ◌≡◌, refl, ◌∙◌, subst, ◌⊎◌, String, Bool, true, false, ◌||◌, none, some, List, [], ◌∷◌, ◌++◌,
  ◌==◌, string_eq, some_of, arith, str_iff, Option-cases, Bool-cases, inl, inr, All, All-append,
}
use opencode_workspaces.Env.{Env}
use opencode_workspaces.Rows.{find, has, modify}
use opencode_workspaces.Rows.Laws.{find_key, has-concat, has-modify, All-weaken, All-modify}
use opencode_workspaces.Tables.{Tables, UserRow, WorkspaceRow}
use opencode_workspaces.World.{ok}
use opencode_workspaces.Database.Sql.{
  user_key, workspace_key, with_id, references_user, new_workspace_row, is_role, is_state, clashes,
  blocked, insert_user_row, update_user_row, insert_workspace_row,
}
use opencode_workspaces.Database.Sound.{is_pending, HasUser, Distinct, overlaps, IsSound}
use opencode_workspaces.Database.Sound.Rules.{
  with_uuid-eq-ok, references_user-eq-ok, clashes_comm, Distinct-concat,
}
use opencode_workspaces.Database.Sound.Overlaps.{Apart-concat}
use opencode_workspaces.World.Keeps.{ok_injective}

module _ ⦃env : Env⦄ where
  -- Below a row with the key no other row has it.
  modify_absent :
      (x : UserRow) (k : String) (f : UserRow → UserRow) (rows : List UserRow)
      → (x.id == k) ≡ true
      → some_of (clashes x) rows ≡ false
      → modify user_key k f rows ≡ rows
  unfolding modify clashes
  modify_absent x k f [] e h = refl
  modify_absent x k f (y ∷ rows) e h =
      ground (arith, modify_absent x k f rows e, str_iff x.id k, str_iff y.id k, str_iff x.id y.id)

  ids_differ : (x y : UserRow) → clashes x y ≡ false → (x.id == y.id) ≡ false
  unfolding clashes
  ids_differ x y h = ground arith

  free_of_blocked :
      (x r : UserRow) (rows : List UserRow)
      → x.id ≡ r.id
      → some_of (clashes x) rows ≡ false
      → blocked r rows ≡ false
      → some_of (clashes r) rows ≡ false
  unfolding blocked
  free_of_blocked x r [] e h b = refl
  free_of_blocked x r (y ∷ rows) e h b =
      ground
        (arith, free_of_blocked x r rows e, ids_differ x y, str_iff x.id y.id, str_iff y.id r.id)

  some_of-modify :
      (p : UserRow → Bool) (k : String) (f : UserRow → UserRow) (r : UserRow) (rows : List UserRow)
      → Distinct rows
      → find user_key k rows ≡ some r
      → some_of p rows ≡ false
      → p (f r) ≡ false
      → some_of p (modify user_key k f rows) ≡ false
  unfolding find modify
  some_of-modify p k f r [] d e h q = refl
  some_of-modify p k f r (x ∷ rows) d e h q = elim (Bool-cases (x.id == k)) [
    | inl same ↦ ground (arith, modify_absent x k f rows same d.0)
    | inr other ↦ ground (arith, some_of-modify p k f r rows d.1)
  ]

  unblocked :
      (r x : UserRow) (rows : List UserRow)
      → blocked r (x ∷ rows) ≡ false
      → (blocked r rows ≡ false) × (((x.id == r.id) ≡ true) ⊎ (clashes r x ≡ false))
  unfolding blocked
  unblocked r x rows b = ground arith

  -- An update of one account that no other account blocks keeps the accounts apart.
  Distinct-modify :
      (k : String) (f : UserRow → UserRow) (r : UserRow) (rows : List UserRow)
      → ((a : UserRow) → (f a).id ≡ a.id)
      → Distinct rows
      → find user_key k rows ≡ some r
      → blocked (f r) rows ≡ false
      → Distinct (modify user_key k f rows)
  unfolding find modify
  Distinct-modify k f r [] same d e b = tt
  Distinct-modify k f r (x ∷ rows) same d e b = elim (Bool-cases (x.id == k)) [
    | inl here ↦ ground (
      arith,
      same x,
      modify_absent x k f rows here d.0,
      free_of_blocked x (f x) rows,
      unblocked (f r) x rows,
    )
    | inr other ↦ ground (
      arith,
      same r,
      find_key user_key k rows r,
      some_of-modify (clashes x) k f r rows d.1,
      Distinct-modify k f r rows same d.1,
      unblocked (f r) x rows b,
      clashes_comm x (f r),
      str_iff x.id k,
      str_iff x.id (f r).id,
    )
  ]

  Has_user-concat :
      (rows : List UserRow) (r : UserRow) (k : String) → HasUser rows k → HasUser (rows ++ r ∷ []) k
  Has_user-concat rows r k h = rw (has-concat user_key k rows r) (ground arith)

  -- An insert leaves one account that waits for its workspace.
  pub insert_user_row-IsSound :
      (r : UserRow) (t t' : Tables)
      → IsSound none t
      → insert_user_row r t ≡ ok t'
      → IsSound (env.parse_uuid r.id) t'
  unfolding insert_user_row
  insert_user_row-IsSound r t t' v e =
      let (k, parsed, e₁) = with_uuid-eq-ok r.id _ t' e in
      let row : UserRow = with_id r k in
      let role : is_role r.role ≡ true = ground arith in
      let free : some_of (clashes row) t.users ≡ false = ground arith in
      let same : record t { users = t.users ++ row ∷ [] } ≡ t' = ground arith in
      subst (IsSound (env.parse_uuid r.id)) same (record {
        paired = λ j. rw (parsed, has-concat user_key j t.users row) (ground (arith, v.paired j));
        distinct = Distinct-concat t.users row v.distinct free;
        apart = v.apart;
        roles = All-append _ t.users (row ∷ []) v.roles (role, tt);
        states = v.states;
        sessions_owned =
            All-weaken _ _ t.sessions v.sessions_owned (λ s. Has_user-concat t.users row s.user_id);
        credentials_owned =
            All-weaken _ _ t.credentials v.credentials_owned
              (λ c. Has_user-concat t.users row c.user_id);
        identities_owned =
            All-weaken _ _ t.identities v.identities_owned
              (λ i. Has_user-concat t.users row i.user_id);
        configurations_owned =
            All-weaken _ _ t.configurations v.configurations_owned
              (λ c h. (Has_user-concat t.users row c.user_id h.0, h.1));
      })

  stopped_is_state : is_state "stopped" ≡ true
  unfolding is_state
  stopped_is_state = refl

  insert_paired :
      (id k j : String) (t : Tables)
      → HasUser t.users k
      → env.parse_uuid id ≡ some k
      → has user_key j t.users
        ≡ (is_pending (env.parse_uuid id) j || has workspace_key j t.workspaces)
      → has user_key j t.users ≡ (has workspace_key j t.workspaces || k == j)
  insert_paired id k j t known parsed h = h ∙ rw parsed (ground arith)

  -- The workspace of the account that waits for it makes the database sound again.
  pub insert_workspace_row-IsSound :
      (time : ℕ) (id resource : String) (t t' : Tables)
      → IsSound (env.parse_uuid id) t
      → insert_workspace_row time id resource t ≡ ok t'
      → IsSound none t'
  unfolding insert_workspace_row
  insert_workspace_row-IsSound time id resource t t' v e =
      let (k, parsed, e₁) = with_uuid-eq-ok id _ t' e in
      let row : WorkspaceRow = new_workspace_row time k resource in
      let t₁ : Tables = record t { workspaces = t.workspaces ++ row ∷ [] } in
      let e₂ : references_user k t (ok t₁) ≡ ok t' = ground arith in
      let free : some_of (overlaps row) t.workspaces ≡ false = ground arith in
      let (known, e₃) = references_user-eq-ok k t (ok t₁) t' e₂ in
      subst (IsSound none) (ok_injective e₃) (record {
        paired = λ j.
            rw (has-concat workspace_key j t.workspaces row)
              (insert_paired id k j t known parsed (v.paired j));
        distinct = v.distinct;
        apart = Apart-concat t.workspaces row v.apart free;
        roles = v.roles;
        states = All-append _ t.workspaces (row ∷ []) v.states (stopped_is_state, tt);
        sessions_owned = v.sessions_owned;
        credentials_owned = v.credentials_owned;
        identities_owned = v.identities_owned;
        configurations_owned = v.configurations_owned;
      })

  All-modify_found :
      (P : UserRow → Type 0) (k : String) (f : UserRow → UserRow) (r : UserRow)
      (rows : List UserRow)
      → Distinct rows
      → find user_key k rows ≡ some r
      → All P rows
      → P (f r)
      → All P (modify user_key k f rows)
  unfolding find modify
  All-modify_found P k f r [] d e h p = tt
  All-modify_found P k f r (x ∷ rows) d e h p = elim (Bool-cases (x.id == k)) [
    | inl here ↦ ground (arith, modify_absent x k f rows here d.0)
    | inr other ↦ ground (arith, All-modify_found P k f r rows d.1)
  ]

  -- A change of the accounts that keeps their ids keeps what refers to them.
  users-IsSound :
      (t : Tables) (users : List UserRow)
      → IsSound none t
      → ((j : String) → has user_key j users ≡ has user_key j t.users)
      → Distinct users
      → All (λ r. is_role r.role ≡ true) users
      → IsSound none (record t { users = users })
  users-IsSound t users v same d roles = record {
    paired = λ j. same j ∙ v.paired j;
    distinct = d;
    apart = v.apart;
    roles = roles;
    states = v.states;
    sessions_owned = All-weaken _ _ t.sessions v.sessions_owned (λ s h. same s.user_id ∙ h);
    credentials_owned =
        All-weaken _ _ t.credentials v.credentials_owned (λ c h. same c.user_id ∙ h);
    identities_owned = All-weaken _ _ t.identities v.identities_owned (λ i h. same i.user_id ∙ h);
    configurations_owned =
        All-weaken _ _ t.configurations v.configurations_owned (λ c h. (same c.user_id ∙ h.0, h.1));
  }

  -- What a successful UPDATE of users has found, checked and written.
  pub record Updated (id : String) (f : UserRow → UserRow) (t t' : Tables) : Type 0 where
    pub key : String
    pub row : UserRow
    pub parsed : env.parse_uuid id ≡ some key
    pub found : find user_key key t.users ≡ some row
    pub role : is_role (f row).role ≡ true
    pub free : blocked (f row) t.users ≡ false
    pub written : record t { users = modify user_key key f t.users } ≡ t'

  pub update_user_row-Updated :
      (id : String) (f : UserRow → UserRow) (t t' : Tables)
      → update_user_row id f t ≡ ok t'
      → Updated id f t t'
  unfolding update_user_row
  update_user_row-Updated id f t t' e =
      let (k, parsed, e₁) = with_uuid-eq-ok id _ t' e in
      elim (Option-cases (find user_key k t.users)) [
        | inl absent ↦ absurd (ground arith)
        | inr (r, found) ↦ record {
          key = k;
          row = r;
          parsed = parsed;
          found = found;
          role = ground arith;
          free = ground arith;
          written = ground arith;
        }
      ]

  pub update_user_row-IsSound :
      (id : String) (f : UserRow → UserRow) (t t' : Tables)
      → ((a : UserRow) → (f a).id ≡ a.id)
      → IsSound none t
      → update_user_row id f t ≡ ok t'
      → IsSound none t'
  update_user_row-IsSound id f t t' same v e =
      let u = update_user_row-Updated id f t t' e in
      subst (IsSound none) u.written (
        users-IsSound t (modify user_key u.key f t.users) v
          (λ j. has-modify user_key f same j u.key t.users)
          (Distinct-modify u.key f u.row t.users same v.distinct u.found u.free)
          (All-modify_found _ u.key f u.row t.users v.distinct u.found v.roles u.role))
  -- Fields by which accounts clash.
