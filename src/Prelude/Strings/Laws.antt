-- ===== src/Prelude/Strings/Laws.antt =====
-- Laws of split and of the trims.
use Prim.Native.Char.{Char, code}
use Prim.Native.String.{String, [], ◌∷◌}
use mathlib.Core.Path.{◌≡◌, refl}
use mathlib.Core.Bool.{false}
use mathlib.Core.List.{List}
use native.Mathlib.Omega.{arith}
use text.Mathlib.TextLemmas.{nil-append, cons-append}
use text.Mathlib.TextEquality.{Char-path}
use mathlib.Core.Logic.{◌≢◌}
use Prim.Native.Nat.{ℕ}
use opencode_workspaces.Prelude.Strings.{◌<>◌, split, extend_head, has_char}

pub has_char-append :
    (n : ℕ) (s t : String)
    → has_char n s ≡ false
    → has_char n t ≡ false
    → has_char n (s <> t) ≡ false
unfolding has_char
has_char-append n [] t h k = rw nil-append k
has_char-append n (c ∷ s) t h k = rw cons-append (ground (arith, has_char-append n s t))

-- A text without the separator is one part.
pub split_one : (n : ℕ) (s : String) → has_char n s ≡ false → split n s ≡ List.◌∷◌ s List.[]
unfolding split has_char
split_one n [] h = refl
split_one n (c ∷ s) h = ground (arith, split_one n s)

-- Splitting a joined pair gives the pair back.
pub split_pair :
    (n : ℕ) (sep : Char) (s t : String)
    → code sep ≡ n
    → has_char n s ≡ false
    → split n (s <> (sep ∷ t)) ≡ List.◌∷◌ s (split n t)
unfolding split has_char
split_pair n sep [] t e h = rw nil-append (ground arith)
split_pair n sep (c ∷ s) t e h = rw cons-append (ground (arith, split_pair n sep s t e))

-- The same for a separator that is appended as a text.
pub split_join :
    (n : ℕ) (sep : Char) (s t : String)
    → code sep ≡ n
    → has_char n s ≡ false
    → split n (s <> ((sep ∷ []) <> t)) ≡ List.◌∷◌ s (split n t)
split_join n sep s t e h = rw (cons-append, nil-append) (split_pair n sep s t e h)

-- strings.Join(parts, sep)
abbrev pub join : Char → List String → String
join sep List.[] = []
join sep (List.◌∷◌ p List.[]) = p
join sep (List.◌∷◌ p (List.◌∷◌ q ps)) = p <> ((sep ∷ []) <> join sep (List.◌∷◌ q ps))

join-cons :
    (sep : Char) (ps : List String) → ps ≢ List.[] → join sep (List.◌∷◌ [] ps) ≡ sep ∷ join sep ps
join-cons sep List.[] h = absurd (h refl)
join-cons sep (List.◌∷◌ q ps) h = rw (nil-append, cons-append, nil-append) refl

join-extend :
    (sep c : Char) (ps : List String) → ps ≢ List.[] → join sep (extend_head c ps) ≡ c ∷ join sep ps
join-extend sep c List.[] h = absurd (h refl)
join-extend sep c (List.◌∷◌ p List.[]) h = refl
join-extend sep c (List.◌∷◌ p (List.◌∷◌ q ps)) h = rw (cons-append) refl

extend_head-ne-nil : (c : Char) (ps : List String) → extend_head c ps ≢ List.[]
extend_head-ne-nil c List.[] h = ground arith
extend_head-ne-nil c (List.◌∷◌ p ps) h = ground arith

split-ne-nil : (n : ℕ) (s : String) → split n s ≢ List.[]
unfolding split
split-ne-nil n [] h = ground arith
split-ne-nil n (c ∷ s) h = ground (arith, extend_head-ne-nil c (split n s))

-- Joining the parts of a text gives it back.
pub join-split : (n : ℕ) (sep : Char) (s : String) → code sep ≡ n → join sep (split n s) ≡ s
unfolding split
join-split n sep [] e = refl
join-split n sep (c ∷ s) e = ground (
  arith,
  join-cons sep (split n s) (split-ne-nil n s),
  join-extend sep c (split n s) (split-ne-nil n s),
  join-split n sep s e,
  Char-path c sep,
)
