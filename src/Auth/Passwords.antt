-- ===== src/Auth/Passwords.antt =====
-- Passwords: ValidatePassword, HashPassword and VerifyPassword of internal/auth/auth.go.
pub mod Verify
use opencode_workspaces.Prelude.{
  ℕ, String, ◌≡◌, ◌<◌, Bool, true, false, not, ◌&&◌, Option, none, some, List, [], ◌∷◌, arith, ◌==◌,
  ltb, string_eq, bytes_eq, nat_eq, str_iff, if◌then◌else◌, length,
}
use opencode_workspaces.Prelude.Strings.{◌<>◌, split, byte_len}
use opencode_workspaces.Model.{Bytes}
use opencode_workspaces.Env.{Env}
use opencode_workspaces.World.{Result, ok, err, failed, M, pure, ◌>>=◌, ◌>>◌, lift, random_bytes}

unfoldable pub validate_password : String → Result (Unit {0})
validate_password password =
    if ltb (byte_len password) 12
    then err (failed "password must contain at least 12 characters")
    else if ltb 1024 (byte_len password)
    then err (failed "password is too long")
    else ok tt

-- The parameters of Argon2id in front of the salt and the hash.
abbrev pub parameters : String
parameters = "argon2id$v=19$m=65536,t=3,p=2$"

module _ ⦃env : Env⦄ where
  unfoldable pub encoded_hash : String → Bytes → String
  encoded_hash password salt =
      parameters
      <> (env.encode_std salt <> ("$" <> env.encode_std (env.argon2id (env.bytes password) salt)))

  unfoldable pub hash_password : String → M String
  hash_password password = do
    lift (validate_password password)
    salt ← random_bytes 16
    pure (encoded_hash password salt)

  abbrev pub matches : Bytes → Option Bytes → Option Bytes → Bool
  matches password none expected = false
  matches password (some salt) none = false
  matches password (some salt) (some expected) =
      length expected == 32 && env.argon2id password salt == expected

  abbrev pub verify_parts : List String → Bytes → Bool
  verify_parts (kind ∷ version ∷ costs ∷ salt ∷ expected ∷ []) password =
      kind == "argon2id" && matches password (env.decode_std salt) (env.decode_std expected)
  verify_parts _ password = false

  unfoldable pub verify_password : String → String → Bool
  unfolding split
  verify_password encoded password = verify_parts (split b'$' encoded) (env.bytes password)
