-- ===== src/Prelude/Strings.antt =====
-- Go's package strings, as far as the program calls it, over code points.
-- The separators and cut sets of the program are ASCII, so that bytes and code points agree.
pub mod Laws
use Prim.Native.Nat.{ℕ, zero, suc, ◌+◌, ◌-◌, ◌≤◌}
use Prim.Native.Char.{Char, code}
use Prim.Native.String
use Prim.Native.String.{String, [], ◌∷◌, len}
use mathlib.Core.Bool.{Bool, true, false, not, ◌&&◌, ◌||◌}
use mathlib.Core.List
use text.Mathlib.Text.{◌==◌ as str_eq}
use mathlib.Core.List.{List}
use opencode_workspaces.Prelude.Tests.{leb, ◌==◌, nat_eq, if◌then◌else◌}

infixl 65 ◌<>◌
abbrev pub ◌<>◌ : String → String → String
s <> t = String.◌++◌ s t

-- `c` in front of the first part.
abbrev pub extend_head : Char → List String → List String
extend_head c List.[] = List.◌∷◌ (c ∷ []) List.[]
extend_head c (List.◌∷◌ p ps) = List.◌∷◌ (c ∷ p) ps

-- strings.Split(s, sep) for a separator of one character
unfoldable pub split : ℕ → String → List String
split sep [] = List.◌∷◌ [] List.[]
split sep (c ∷ s) =
    let rest = split sep s in if code c == sep then List.◌∷◌ [] rest else extend_head c rest

-- unicode.IsSpace
unfoldable pub is_space : ℕ → Bool
is_space n =
    (leb 9 n && leb n 13)
    || n == 32
    || n == 0x85
    || n == 0xa0
    || n == 0x1680
    || (leb 0x2000 n && leb n 0x200a)
    || n == 0x2028
    || n == 0x2029
    || n == 0x202f
    || n == 0x205f
    || n == 0x3000

-- strings.TrimLeftFunc
unfoldable pub trim_left : (ℕ → Bool) → String → String
trim_left p [] = []
trim_left p (c ∷ s) = let rest = trim_left p s in if p (code c) then rest else c ∷ s

abbrev is_empty : String → Bool
is_empty [] = true
is_empty (c ∷ s) = false

-- strings.TrimRightFunc: a character goes if it passes and nothing is left behind it.
unfoldable pub trim_right : (ℕ → Bool) → String → String
trim_right p [] = []
trim_right p (c ∷ s) =
    let rest = trim_right p s in if p (code c) && is_empty rest then [] else c ∷ rest

-- strings.TrimFunc
unfoldable pub trim : (ℕ → Bool) → String → String
unfolding trim_left trim_right
trim p s = trim_right p (trim_left p s)

unfoldable pub trim_space : String → String
unfolding trim is_space
trim_space s = trim is_space s

-- strings.ContainsRune for an ASCII character
unfoldable pub has_char : ℕ → String → Bool
has_char n [] = false
has_char n (c ∷ s) = code c == n || has_char n s

-- strings.ReplaceAll(s, c, "") for one ASCII character
unfoldable pub remove_char : ℕ → String → String
remove_char n [] = []
remove_char n (c ∷ s) = let rest = remove_char n s in if code c == n then rest else c ∷ rest

-- strings.HasPrefix
unfoldable pub has_prefix : String → String → Bool
has_prefix s [] = true
has_prefix [] (d ∷ p) = false
has_prefix (c ∷ s) (d ∷ p) = code c == code d && has_prefix s p

-- strings.HasSuffix
unfoldable pub has_suffix : String → String → Bool
unfolding has_prefix
has_suffix [] p = has_prefix [] p
has_suffix (c ∷ s) p = str_eq (c ∷ s) p || has_suffix s p

-- s[:n], on ASCII text of at least n characters
unfoldable pub prefix : ℕ → String → String
prefix zero s = []
prefix (suc n) [] = []
prefix (suc n) (c ∷ s) = c ∷ prefix n s

-- A regular expression ^[class]*$ as a test of every character.
unfoldable pub every_char : (ℕ → Bool) → String → Bool
every_char p [] = true
every_char p (c ∷ s) = p (code c) && every_char p s

-- len(s), in bytes
abbrev pub byte_len : String → ℕ
byte_len s = len s
