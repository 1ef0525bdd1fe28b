-- ===== src/Auth/Passwords/Verify.antt =====
-- What VerifyPassword accepts.
use opencode_workspaces.Prelude.{
  String, ◌≡◌, ◌∙◌, refl, sym, ap, true, some, [], ◌∷◌, arith, string_eq, bytes_eq, nat_eq,
}
use text.Mathlib.TextLemmas.{append_assoc}
use opencode_workspaces.Prelude.Strings.{◌<>◌, split, has_char}
use opencode_workspaces.Prelude.Strings.Laws.{split_one, split_join}
use opencode_workspaces.Model.{Bytes}
use opencode_workspaces.Env.{Env, StdEncodingLaws, Argon2Laws}
use opencode_workspaces.Auth.Passwords.{parameters, encoded_hash, verify_password, matches}

split-parameters :
    (rest : String)
    → split b'$' (parameters <> rest) ≡ "argon2id" ∷ "v=19" ∷ "m=65536,t=3,p=2" ∷ split b'$' rest
unfolding has_char
split-parameters rest =
    ap (split b'$') regroup
    ∙ split_join b'$' "$" "argon2id" _ refl refl
    ∙ ap (λ ps. "argon2id" ∷ ps)
        (split_join b'$' "$" "v=19" _ refl refl
          ∙ ap (λ ps. "v=19" ∷ ps) (split_join b'$' "$" "m=65536,t=3,p=2" rest refl refl))
  where
    regroup :
        parameters <> rest
        ≡ "argon2id" <> ("$" <> ("v=19" <> ("$" <> ("m=65536,t=3,p=2" <> ("$" <> rest)))))
    regroup =
        rw (← append_assoc, ← append_assoc, ← append_assoc, ← append_assoc, ← append_assoc) refl

module _ ⦃env : Env⦄ where
  parts_of_hash :
      (password : String) (salt : Bytes)
      → StdEncodingLaws env
      → split b'$' (encoded_hash password salt)
        ≡ "argon2id"
          ∷ "v=19"
          ∷ "m=65536,t=3,p=2"
          ∷ env.encode_std salt
          ∷ env.encode_std (env.argon2id (env.bytes password) salt)
          ∷ []
  unfolding encoded_hash
  parts_of_hash password salt laws =
      split-parameters _
      ∙ ap (λ ps. "argon2id" ∷ "v=19" ∷ "m=65536,t=3,p=2" ∷ ps)
          (split_join b'$' "$" (env.encode_std salt) _ refl (laws.no_dollar salt)
            ∙ ap (λ ps. env.encode_std salt ∷ ps) (split_one b'$' _ (laws.no_dollar _)))

  verify_hash :
      (password other : String) (salt : Bytes)
      → StdEncodingLaws env
      → verify_password (encoded_hash password salt) other
        ≡ matches (env.bytes other) (some salt) (some (env.argon2id (env.bytes password) salt))
  unfolding verify_password
  verify_hash password other salt laws =
      rw
        (
          parts_of_hash password salt laws,
          laws.decode_encode salt,
          laws.decode_encode (env.argon2id (env.bytes password) salt),
        )
        refl

  -- A password passes for the hash that HashPassword made of it, under any salt.
  pub hashed_password_verifies :
      (password : String) (salt : Bytes)
      → StdEncodingLaws env
      → Argon2Laws env
      → verify_password (encoded_hash password salt) password ≡ true
  hashed_password_verifies password salt laws argon =
      verify_hash password password salt laws
      ∙ ground (
        arith,
        argon.size (env.bytes password) salt,
        bytes_eq.beq_iff (env.argon2id (env.bytes password) salt)
            (env.argon2id (env.bytes password) salt),
      )

  -- A hash of another password passes only where Argon2id collides under its salt.
  pub verified_password_collides :
      (password other : String) (salt : Bytes)
      → StdEncodingLaws env
      → verify_password (encoded_hash password salt) other ≡ true
      → env.argon2id (env.bytes other) salt ≡ env.argon2id (env.bytes password) salt
  verified_password_collides password other salt laws h =
      let e = sym (verify_hash password other salt laws) ∙ h in
      ground (
        arith,
        bytes_eq.beq_iff (env.argon2id (env.bytes other) salt)
            (env.argon2id (env.bytes password) salt),
      )
