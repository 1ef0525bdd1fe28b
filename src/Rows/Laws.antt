-- ===== src/Rows/Laws.antt =====
-- Looking a row up after each kind of write.
use mathlib.Core.Option
use opencode_workspaces.Prelude.{
  ◌≡◌, refl, ◌∙◌, true, false, ◌||◌, List, [], ◌∷◌, ◌++◌, map, Option, none, some, arith, Eq, ◌==◌,
  if◌then◌else◌, or_else, All, is_some,
}
use opencode_workspaces.Rows.{find, modify, remove, has, upsert}

module _ {A : Type 0} {K : Type 0} ⦃e : Eq K⦄ (key : A → K) where
  -- A row that is found has the key.
  pub find_key : (k : K) (rows : List A) (r : A) → find key k rows ≡ some r → key r ≡ k
  unfolding find
  find_key k [] r h = ground arith
  find_key k (x ∷ rows) r h = ground (arith, e.beq_iff (key x) k, find_key k rows r)

  pub find-append :
      (k : K) (rows more : List A)
      → find key k (rows ++ more) ≡ or_else (find key k rows) (find key k more)
  unfolding find
  find-append k [] more = refl
  find-append k (x ∷ rows) more = ground (arith, find-append k rows more)

  -- A row under a fresh key is found under it.
  pub find-fresh :
      (k : K) (rows : List A) (r : A)
      → has key k rows ≡ false
      → key r ≡ k
      → find key k (rows ++ r ∷ []) ≡ some r
  unfolding find has
  find-fresh k [] r h same = ground (arith, e.beq_iff (key r) k)
  find-fresh k (x ∷ rows) r h same = ground (arith, find-fresh k rows r)

  pub find-modify :
      (f : A → A)
      → ((a : A) → key (f a) ≡ key a)
      → (j k : K) (rows : List A)
      → find key j (modify key k f rows)
        ≡ (if k == j then Option.map f (find key j rows) else find key j rows)
  unfolding find modify
  find-modify f same j k [] = ground arith
  find-modify f same j k (x ∷ rows) = ground (
    arith,
    same x,
    find-modify f same j k rows,
    e.beq_iff (key x) k,
    e.beq_iff (key x) j,
    e.beq_iff (key (f x)) j,
    e.beq_iff k j,
  )

  -- A row that keeps its key.
  pub find-modified :
      (f : A → A) (k : K) (rows : List A) (r : A)
      → ((a : A) → key (f a) ≡ key a)
      → find key k rows ≡ some r
      → find key k (modify key k f rows) ≡ some (f r)
  find-modified f k rows r same h =
      find-modify f same k k rows ∙ rw ((e.beq_iff k k).1 refl, h) refl

  -- A row that is replaced under its key.
  pub find-replaced :
      (f : A → A) (k : K) (rows : List A) (r : A)
      → ((a : A) → key (f a) ≡ k)
      → find key k rows ≡ some r
      → find key k (modify key k f rows) ≡ some (f r)
  unfolding find modify
  find-replaced f k [] r same h = ground arith
  find-replaced f k (x ∷ rows) r same h =
      ground
        (arith, same x, find-replaced f k rows r same, e.beq_iff (key x) k, e.beq_iff (key (f x)) k)

  -- Under another key nothing changes.
  pub find-replaced_other :
      (f : A → A) (j k : K) (rows : List A)
      → ((a : A) → key (f a) ≡ k)
      → (k == j) ≡ false
      → find key j (modify key k f rows) ≡ find key j rows
  unfolding find modify
  find-replaced_other f j k [] same h = refl
  find-replaced_other f j k (x ∷ rows) same h = ground (
    arith,
    same x,
    find-replaced_other f j k rows same h,
    e.beq_iff (key x) k,
    e.beq_iff (key x) j,
    e.beq_iff (key (f x)) j,
    e.beq_iff k j,
  )

  pub has-true :
      (k : K) (rows : List A) → has key k rows ≡ true → (r : A) × (find key k rows ≡ some r)
  unfolding has
  has-true k rows h = go (find key k rows) h
    where
      go : (o : Option A) → is_some o ≡ true → (r : A) × (o ≡ some r)
      go none h' = absurd (ground arith)
      go (some r) h' = (r, refl)

  pub find-remove :
      (j k : K) (rows : List A)
      → find key j (remove key k rows) ≡ (if k == j then none else find key j rows)
  unfolding find remove
  find-remove j k [] = ground arith
  find-remove j k (x ∷ rows) =
      ground (arith, find-remove j k rows, e.beq_iff (key x) k, e.beq_iff (key x) j, e.beq_iff k j)

  pub find-upsert :
      (j k : K) (f : Option A → A) (rows : List A)
      → ((o : Option A) → key (f o) ≡ k)
      → find key j (upsert key k f rows)
        ≡ (if k == j then some (f (find key k rows)) else find key j rows)
  unfolding find upsert
  find-upsert j k f [] same = ground (arith, same none, e.beq_iff (key (f none)) j, e.beq_iff k j)
  find-upsert j k f (x ∷ rows) same = ground (
    arith,
    same (some x),
    find-upsert j k f rows same,
    e.beq_iff (key x) k,
    e.beq_iff (key x) j,
    e.beq_iff (key (f (some x))) j,
    e.beq_iff k j,
  )

  pub beq_refl : (k : K) → (k == k) ≡ true
  beq_refl k = (e.beq_iff k k).1 refl

module _ {A : Type 0} {K : Type 0} ⦃e : Eq K⦄ (key : A → K) where
  pub has-concat :
      (k : K) (rows : List A) (r : A) → has key k (rows ++ r ∷ []) ≡ (has key k rows || key r == k)
  unfolding has find
  has-concat k [] r = ground arith
  has-concat k (x ∷ rows) r = ground (arith, has-concat k rows r)

  pub has-modify :
      (f : A → A)
      → ((a : A) → key (f a) ≡ key a)
      → (j k : K) (rows : List A) → has key j (modify key k f rows) ≡ has key j rows
  unfolding has find modify
  has-modify f same j k [] = refl
  has-modify f same j k (x ∷ rows) = ground (
    arith,
    same x,
    has-modify f same j k rows,
    e.beq_iff (key x) k,
    e.beq_iff (key x) j,
    e.beq_iff (key (f x)) j,
  )

  pub has-map :
      (f : A → A)
      → ((a : A) → key (f a) ≡ key a)
      → (j : K) (rows : List A) → has key j (map f rows) ≡ has key j rows
  unfolding has find
  has-map f same j [] = refl
  has-map f same j (x ∷ rows) =
      ground (arith, same x, has-map f same j rows, e.beq_iff (key x) j, e.beq_iff (key (f x)) j)

module _ {A : Type 0} {K : Type 0} ⦃e : Eq K⦄ (key : A → K) (P : A → Type 0) where
  pub All-modify :
      (k : K) (f : A → A) (rows : List A)
      → All P rows
      → ((a : A) → P a → P (f a))
      → All P (modify key k f rows)
  unfolding modify
  All-modify k f [] h g = tt
  All-modify k f (x ∷ rows) h g = ground (arith, g x, All-modify k f rows h.1 g)

  pub All-remove : (k : K) (rows : List A) → All P rows → All P (remove key k rows)
  unfolding remove
  All-remove k [] h = tt
  All-remove k (x ∷ rows) h = ground (arith, All-remove k rows h.1)

  pub All-upsert :
      (k : K) (f : Option A → A) (rows : List A)
      → All P rows
      → ((o : Option A) → P (f o))
      → All P (upsert key k f rows)
  unfolding upsert
  All-upsert k f [] h g = (g none, tt)
  All-upsert k f (x ∷ rows) h g = ground (arith, g (some x), All-upsert k f rows h.1 g)

pub All-map_lem :
    {A : Type 0} (P : A → Type 0) (f : A → A) (rows : List A)
    → All P rows
    → ((a : A) → P a → P (f a))
    → All P (map f rows)
All-map_lem P f [] h g = tt
All-map_lem P f (x ∷ rows) h g = (g x h.0, All-map_lem P f rows h.1 g)

-- What holds of every row of one table by way of another still holds when that one has grown.
pub All-weaken :
    {A : Type 0} (P Q : A → Type 0) (rows : List A)
    → All P rows
    → ((a : A) → P a → Q a)
    → All Q rows
All-weaken P Q [] h g = tt
All-weaken P Q (x ∷ rows) h g = (g x h.0, All-weaken P Q rows h.1 g)
