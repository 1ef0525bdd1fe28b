-- ===== src/Oidc/Names/Safe.antt =====
-- What safeUsername makes of any name and address.
use Prim.Native.String.{[], ◌∷◌}
use Prim.Native.String.len
use text.Mathlib.TextLemmas.{nil-append, cons-append}
use opencode_workspaces.Prelude.{
  ℕ, ◌+◌, ◌≡◌, refl, String, Bool, true, false, arith, nat_eq, leb, ltb, if◌then◌else◌,
}
use opencode_workspaces.Prelude.Strings.{
  ◌<>◌, trim, trim_left, trim_right, trim_space, every_char, byte_len,
}
use opencode_workspaces.Env.{Env}
use opencode_workspaces.Oidc.Names.{is_plain, hyphenate, is_edge, lengthened, named, safe_username}

abbrev IsPlain : String → Type 0
IsPlain s = every_char is_plain s ≡ true

every_char-append :
    (p : ℕ → Bool) (s t : String)
    → every_char p s ≡ true
    → every_char p t ≡ true
    → every_char p (s <> t) ≡ true
unfolding every_char
every_char-append p [] t h k = rw nil-append k
every_char-append p (c ∷ s) t h k = rw cons-append (ground (arith, every_char-append p s t))

hyphen-IsPlain : (t : String) → IsPlain t → IsPlain ("-" <> t)
unfolding every_char is_plain
hyphen-IsPlain t h = every_char-append is_plain "-" t refl h

if-IsPlain : (b : Bool) (s t : String) → IsPlain s → IsPlain t → IsPlain (if b then s else t)
if-IsPlain true s t h k = h
if-IsPlain false s t h k = k

hyphenate-IsPlain : (inside : Bool) (s : String) → IsPlain (hyphenate inside s)
unfolding hyphenate every_char
hyphenate-IsPlain inside [] = refl
hyphenate-IsPlain true (c ∷ s) = ground (arith, hyphenate-IsPlain true s, hyphenate-IsPlain false s)
hyphenate-IsPlain false (c ∷ s) =
    ground (
      arith,
      hyphenate-IsPlain false s,
      hyphen-IsPlain (hyphenate true s) (hyphenate-IsPlain true s),
    )

trim_left-every_char :
    (p q : ℕ → Bool) (s : String) → every_char q s ≡ true → every_char q (trim_left p s) ≡ true
unfolding trim_left every_char
trim_left-every_char p q [] h = h
trim_left-every_char p q (c ∷ s) h = ground (arith, trim_left-every_char p q s)

trim_right-every_char :
    (p q : ℕ → Bool) (s : String) → every_char q s ≡ true → every_char q (trim_right p s) ≡ true
unfolding trim_right every_char
trim_right-every_char p q [] h = h
trim_right-every_char p q (c ∷ s) h = ground (arith, trim_right-every_char p q s)

lengthened-IsPlain : (v : String) → IsPlain v → IsPlain (lengthened v)
unfolding every_char is_plain
lengthened-IsPlain v h =
    if-IsPlain (ltb (byte_len v) 2) _ v (every_char-append is_plain "user-" v refl h) h

len-append : (s t : String) → byte_len (s <> t) ≡ byte_len s + byte_len t
len-append [] t = rw (nil-append, len.nil) (omega arith)
len-append (c ∷ s) t =
    rw cons-append (omega (arith, len.cons c (s <> t), len.cons c s, len-append s t))

lengthened-len : (v : String) → leb 2 (byte_len (lengthened v)) ≡ true
lengthened-len v = ground (arith, len-append "user-" v)

module _ ⦃env : Env⦄ where
  -- The name of a new account has only small letters, digits, full stops, underscores and hyphens,
  -- and at least two of them, whatever the provider says.
  pub safe_username_lem :
      (preferred email : String)
      → (every_char is_plain (safe_username preferred email) ≡ true)
        × (leb 2 (byte_len (safe_username preferred email)) ≡ true)
  unfolding safe_username trim
  safe_username_lem preferred email = (
    lengthened-IsPlain _ (
        trim_right-every_char is_edge is_plain _
          (trim_left-every_char is_edge is_plain _ (hyphenate-IsPlain false _))),
    lengthened-len
        (trim is_edge (hyphenate false (named (env.to_lower (trim_space preferred)) email))),
  )
