-- ===== src/Oidc/Names.antt =====
-- domainAllowed, intersects and safeUsername of internal/oidc/oidc.go.
pub mod Safe
use Prim.Native.Char.{Char, code}
use Prim.Native.String.{[], ◌∷◌}
use mathlib.Core.List
use opencode_workspaces.Prelude.{
  ℕ, String, Bool, true, false, not, ◌&&◌, ◌||◌, List, ◌==◌, nat_eq, string_eq, leb, ltb, some_of,
  if◌then◌else◌,
}
use opencode_workspaces.Prelude.Strings.{◌<>◌, split, trim, trim_space, byte_len}
use opencode_workspaces.Env.{Env}

-- Whether some value is among the allowed ones.
unfoldable pub intersects : List String → List String → Bool
intersects values allowed = some_of (λ v. some_of (λ a. v == a) allowed) values

-- [a-z0-9._-]
unfoldable pub is_plain : ℕ → Bool
is_plain n =
    (leb b'a' n && leb n b'z') || (leb b'0' n && leb n b'9') || n == b'.' || n == b'_' || n == b'-'

-- unsafeUsername.ReplaceAllString(s, "-"); the flag says that a hyphen stands for the run already.
unfoldable pub hyphenate : Bool → String → String
hyphenate inside [] = []
hyphenate inside (c ∷ s) =
    let kept = hyphenate false s in
    let run = hyphenate true s in
    if is_plain (code c) then c ∷ kept else if inside then run else "-" <> run

-- The characters that strings.Trim(v, "-._") cuts off.
unfoldable pub is_edge : ℕ → Bool
is_edge n = n == b'-' || n == b'.' || n == b'_'

abbrev pub first_part : List String → String
first_part List.[] = ""
first_part (List.◌∷◌ p ps) = p

abbrev pub named : String → String → String
named v email = if v == "" then first_part (split b'@' email) else v

abbrev pub lengthened : String → String
lengthened v = if ltb (byte_len v) 2 then "user-" <> v else v

module _ ⦃env : Env⦄ where
  abbrev pub domain_among : List String → List String → Bool
  domain_among (List.◌∷◌ local (List.◌∷◌ domain List.[])) allowed =
      some_of (λ d. domain == env.to_lower (trim_space d)) allowed
  domain_among _ allowed = false

  unfoldable pub domain_allowed : String → List String → Bool
  domain_allowed email List.[] = true
  domain_allowed email (List.◌∷◌ d ds) =
      domain_among (split b'@' (env.to_lower email)) (List.◌∷◌ d ds)

  unfoldable pub safe_username : String → String → String
  safe_username preferred email =
      lengthened
        (trim is_edge (hyphenate false (named (env.to_lower (trim_space preferred)) email)))
