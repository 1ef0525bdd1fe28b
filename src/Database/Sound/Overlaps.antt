-- ===== src/Database/Sound/Overlaps.antt =====
-- The workspaces that the unique indexes keep apart, under an insert and under updates.
use opencode_workspaces.Prelude.{
  ◌≡◌, refl, ◌∙◌, String, false, ◌||◌, List, [], ◌∷◌, ◌++◌, map, ◌==◌, string_eq, some_of, arith,
  str_iff, Bool-cases, inl, inr,
}
use opencode_workspaces.Rows.{modify}
use opencode_workspaces.Tables.{WorkspaceRow}
use opencode_workspaces.Database.Sql.{workspace_key}
use opencode_workspaces.Database.Sound.{overlaps, Apart}

overlaps_comm : (w x : WorkspaceRow) → overlaps w x ≡ overlaps x w
overlaps_comm w x = ground (
  arith,
  str_iff x.user_id w.user_id,
  str_iff w.user_id x.user_id,
  str_iff x.resource_name w.resource_name,
  str_iff w.resource_name x.resource_name,
)

overlaps-concat :
    (w : WorkspaceRow) (rows : List WorkspaceRow) (r : WorkspaceRow)
    → some_of (overlaps w) (rows ++ r ∷ []) ≡ (some_of (overlaps w) rows || overlaps w r)
overlaps-concat w [] r = ground arith
overlaps-concat w (x ∷ rows) r = ground (arith, overlaps-concat w rows r)

pub Apart-concat :
    (rows : List WorkspaceRow) (r : WorkspaceRow)
    → Apart rows
    → some_of (overlaps r) rows ≡ false
    → Apart (rows ++ r ∷ [])
Apart-concat [] r d h = (refl, tt)
Apart-concat (x ∷ rows) r d h =
    ground (arith, overlaps-concat x rows r, overlaps_comm r x, Apart-concat rows r d.1)

-- A row keeps what holds it apart from the others.
abbrev pub KeepsPlace : (WorkspaceRow → WorkspaceRow) → Type 0
KeepsPlace f =
    (w : WorkspaceRow) → ((f w).user_id ≡ w.user_id) × ((f w).resource_name ≡ w.resource_name)

overlaps-modify :
    (k : String) (f : WorkspaceRow → WorkspaceRow)
    → KeepsPlace f
    → (w w' : WorkspaceRow) → w'.user_id ≡ w.user_id
    → w'.resource_name ≡ w.resource_name
    → (rows : List WorkspaceRow)
    → some_of (overlaps w') (modify workspace_key k f rows) ≡ some_of (overlaps w) rows
unfolding modify
overlaps-modify k f same w w' e e' [] = refl
overlaps-modify k f same w w' e e' (x ∷ rows) =
    let rest = overlaps-modify k f same w w' e e' rows in
    elim (Bool-cases (x.user_id == k)) [
      | inl here ↦ rw (here, rest, (same x).0, (same x).1, e, e') refl
      | inr other ↦ rw (other, rest, e, e') refl
    ]

pub Apart-modify :
    (k : String) (f : WorkspaceRow → WorkspaceRow)
    → KeepsPlace f
    → (rows : List WorkspaceRow) → Apart rows
    → Apart (modify workspace_key k f rows)
unfolding modify
Apart-modify k f same [] d = tt
Apart-modify k f same (x ∷ rows) d = elim (Bool-cases (x.user_id == k)) [
  | inl here ↦ rw here (
    overlaps-modify k f same x (f x) (same x).0 (same x).1 rows ∙ d.0,
    Apart-modify k f same rows d.1,
  )
  | inr other ↦
      rw other (overlaps-modify k f same x x refl refl rows ∙ d.0, Apart-modify k f same rows d.1)
]

overlaps-map :
    (f : WorkspaceRow → WorkspaceRow)
    → KeepsPlace f
    → (w : WorkspaceRow) (rows : List WorkspaceRow)
    → some_of (overlaps (f w)) (map f rows) ≡ some_of (overlaps w) rows
overlaps-map f same w [] = refl
overlaps-map f same w (x ∷ rows) =
    rw (overlaps-map f same w rows, (same x).0, (same x).1, (same w).0, (same w).1) refl

pub Apart-map :
    (f : WorkspaceRow → WorkspaceRow)
    → KeepsPlace f
    → (rows : List WorkspaceRow) → Apart rows
    → Apart (map f rows)
Apart-map f same [] d = tt
Apart-map f same (x ∷ rows) d = (overlaps-map f same x rows ∙ d.0, Apart-map f same rows d.1)
