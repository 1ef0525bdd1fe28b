-- ===== src/Tests/Codec.antt =====
-- An encoding of byte strings as texts and its inverse, for the environment of the tests.
use Prim.Native.String.{[], ◌∷◌}
use Prim.Native.Char.{code}
use text.Mathlib.TextEquality.{Char-path}
use opencode_workspaces.Prelude.{
  ℕ, zero, suc, ◌≡◌, refl, ap, String, false, Option, none, some, List, arith, ◌==◌, nat_eq,
  if◌then◌else◌,
}
use opencode_workspaces.Prelude.Strings.{has_char}
use opencode_workspaces.Model.{Bytes}

-- A byte as so many letters a, and a letter b at its end.
abbrev encode_byte : ℕ → String → String
encode_byte zero s = "b" ∷ s
encode_byte (suc n) s = "a" ∷ encode_byte n s

abbrev pub encode_bytes : Bytes → String
encode_bytes List.[] = ""
encode_bytes (List.◌∷◌ n b) = encode_byte n (encode_bytes b)

abbrev start_byte : Option Bytes → Option Bytes
start_byte none = none
start_byte (some b) = some (List.◌∷◌ 0 b)

abbrev raise_byte : Option Bytes → Option Bytes
raise_byte none = none
raise_byte (some List.[]) = none
raise_byte (some (List.◌∷◌ n b)) = some (List.◌∷◌ (suc n) b)

abbrev pub decode_bytes : String → Option Bytes
decode_bytes [] = some List.[]
decode_bytes (c ∷ s) =
    let rest = decode_bytes s in if code c == b'b' then start_byte rest else raise_byte rest

abbrev pub codes : String → Bytes
codes [] = List.[]
codes (c ∷ s) = List.◌∷◌ (code c) (codes s)

decode-encode_byte :
    (n : ℕ) (s : String) (b : Bytes)
    → decode_bytes s ≡ some b
    → decode_bytes (encode_byte n s) ≡ some (List.◌∷◌ n b)
decode-encode_byte zero s b h = ap start_byte h
decode-encode_byte (suc n) s b h = ap raise_byte (decode-encode_byte n s b h)

pub decode-encode_bytes : (b : Bytes) → decode_bytes (encode_bytes b) ≡ some b
decode-encode_bytes List.[] = refl
decode-encode_bytes (List.◌∷◌ n b) = decode-encode_byte n (encode_bytes b) b (decode-encode_bytes b)

encode_byte-no_char :
    (k n : ℕ) (s : String)
    → (b'a' == k) ≡ false
    → (b'b' == k) ≡ false
    → has_char k s ≡ false
    → has_char k (encode_byte n s) ≡ false
unfolding has_char
encode_byte-no_char k zero s ha hb h = rw (hb) h
encode_byte-no_char k (suc n) s ha hb h = rw (ha) (encode_byte-no_char k n s ha hb h)

pub encode_bytes-no_char :
    (k : ℕ)
    → (b'a' == k) ≡ false
    → (b'b' == k) ≡ false
    → (b : Bytes) → has_char k (encode_bytes b) ≡ false
unfolding has_char
encode_bytes-no_char k ha hb List.[] = refl
encode_bytes-no_char k ha hb (List.◌∷◌ n b) =
    encode_byte-no_char k n (encode_bytes b) ha hb (encode_bytes-no_char k ha hb b)

pub codes_injective : (s t : String) → codes s ≡ codes t → s ≡ t
codes_injective [] [] h = refl
codes_injective [] (d ∷ t) h = ground arith
codes_injective (c ∷ s) [] h = ground arith
codes_injective (c ∷ s) (d ∷ t) h = ground (arith, codes_injective s t, Char-path c d)
