-- ===== src/Database/Vault.antt =====
-- `encrypt` and `decrypt` of internal/database/database.go: AES-GCM with the nonce in front, as text.
use opencode_workspaces.Prelude.{
  ℕ, zero, suc, String, ◌≡◌, refl, Option, none, some, [], ◌∷◌, ◌++◌, arith, length, length-append,
  ltb, if◌then◌else◌,
}
use opencode_workspaces.Model.{Bytes}
use opencode_workspaces.Env.{Env, UrlEncodingLaws, SealLaws}
use opencode_workspaces.World.{Result, ok, err, failed, M, pure, ◌>>=◌, random_bytes}

-- data[:n] and data[n:]
unfoldable pub take : ℕ → Bytes → Bytes
take zero b = []
take (suc n) [] = []
take (suc n) (x ∷ b) = x ∷ take n b

unfoldable pub drop : ℕ → Bytes → Bytes
drop zero b = b
drop (suc n) [] = []
drop (suc n) (x ∷ b) = drop n b

take_append : (a b : Bytes) → take (length a) (a ++ b) ≡ a
unfolding take
take_append [] b = refl
take_append (x ∷ a) b = rw (take_append a b)

drop_append : (a b : Bytes) → drop (length a) (a ++ b) ≡ b
unfolding drop
drop_append [] b = refl
drop_append (x ∷ a) b = drop_append a b

abbrev pub opened : Option Bytes → Result Bytes
opened none = err (failed "message authentication failed")
opened (some b) = ok b

module _ ⦃env : Env⦄ where
  -- Hash
  unfoldable pub hash : String → Bytes
  hash value = env.sha256 (env.bytes value)

  -- The text of a plain value under a nonce.
  unfoldable pub sealed : Bytes → Bytes → String
  sealed nonce plain = env.encode_url (nonce ++ env.seal nonce plain)

  unfoldable pub encrypt : Bytes → M String
  encrypt plain = do nonce ← random_bytes env.nonce_size; pure (sealed nonce plain)

  unfoldable pub decrypt_bytes : Option Bytes → Result Bytes
  unfolding take drop
  decrypt_bytes none = err (failed "illegal base64 data")
  decrypt_bytes (some d) =
      if ltb (length d) env.nonce_size
      then err (failed "encrypted setting is truncated")
      else opened (env.open_sealed (take env.nonce_size d) (drop env.nonce_size d))

  unfoldable pub decrypt : String → Result Bytes
  unfolding decrypt_bytes
  decrypt encoded = decrypt_bytes (env.decode_url encoded)

  -- What `encrypt` wrote under any nonce of the right size, `decrypt` reads back.
  pub decrypt-sealed :
      (nonce plain : Bytes)
      → UrlEncodingLaws env
      → SealLaws env
      → length nonce ≡ env.nonce_size
      → decrypt (sealed nonce plain) ≡ ok plain
  unfolding decrypt sealed
  decrypt-sealed nonce plain u s size =
      rw (u.decode_encode, decrypt_bytes)
        (rw (← size) (
          ground (
            arith,
            length-append nonce (env.seal nonce plain),
            take_append nonce (env.seal nonce plain),
            drop_append nonce (env.seal nonce plain),
            s.open_seal nonce plain,
          )))
