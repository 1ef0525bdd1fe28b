-- ===== src/Env.antt =====
-- What the program calls and does not implement: the cryptographic primitives and encodings of
-- Go's standard library, PostgreSQL's `lower` and `uuid` input, UUID and random sources, and which
-- of the calls to the database and to the Kubernetes API fail. Each is a field that a theorem may
-- instantiate as it likes; the laws that some theorems need are the records below `Env`.
use opencode_workspaces.Prelude.{ℕ, String, ◌≡◌, Bool, false, Option, some, length}
use opencode_workspaces.Prelude.Strings.{has_char}
use opencode_workspaces.Model.{Bytes}

pub record Env : Type 0 where
  -- []byte(s), and string(b)
  pub bytes : String → Bytes
  pub text : Bytes → String
  -- crypto/sha256, crypto/hmac over SHA-256 (the key first) and golang.org/x/crypto/argon2
  pub sha256 : Bytes → Bytes
  pub hmac : Bytes → Bytes → Bytes
  pub argon2id : Bytes → Bytes → Bytes
  -- base64.RawURLEncoding and base64.RawStdEncoding
  pub encode_url : Bytes → String
  pub decode_url : String → Option Bytes
  pub encode_std : Bytes → String
  pub decode_std : String → Option Bytes
  -- base64.StdEncoding
  pub encode_padded : Bytes → String
  pub decode_padded : String → Option Bytes
  -- AES-GCM: the nonce's size, Seal and Open (nonce first)
  pub nonce_size : ℕ
  pub seal : Bytes → Bytes → Bytes
  pub open_sealed : Bytes → Bytes → Option Bytes
  -- encoding/json: a string as a document and back, and whether a document is an object
  pub quote : String → Bytes
  pub unquote : Bytes → Option String
  pub is_json_object : Bytes → Bool
  -- a document in the normal form of a jsonb column
  pub jsonb : Bytes → Bytes
  -- strings.ToLower, and PostgreSQL's lower
  pub to_lower : String → String
  pub sql_lower : String → String
  -- the canonical text of a UUID, if the text is one
  pub parse_uuid : String → Option String
  -- the n-th draw from uuid.NewString, and from crypto/rand (a length first)
  pub uuid_at : ℕ → String
  pub random_at : ℕ → ℕ → Option Bytes
  -- whether the n-th call to the database, or to the Kubernetes API, fails
  pub sql_fails : ℕ → Bool
  pub api_fails : ℕ → Bool

-- The documented behaviour of RawURLEncoding: decoding inverts encoding, and the alphabet has no
-- full stop.
pub record UrlEncodingLaws (e : Env) : Type 0 where
  pub decode_encode : (b : Bytes) → e.decode_url (e.encode_url b) ≡ some b
  pub no_dot : (b : Bytes) → has_char b'.' (e.encode_url b) ≡ false

-- The same for RawStdEncoding, whose alphabet has no dollar sign.
pub record StdEncodingLaws (e : Env) : Type 0 where
  pub decode_encode : (b : Bytes) → e.decode_std (e.encode_std b) ≡ some b
  pub no_dollar : (b : Bytes) → has_char b'$' (e.encode_std b) ≡ false

-- AES-GCM opens what it sealed under the same nonce.
pub record SealLaws (e : Env) : Type 0 where
  pub open_seal : (nonce plain : Bytes) → e.open_sealed nonce (e.seal nonce plain) ≡ some plain

-- Texts with the same bytes are the same text.
pub record BytesLaws (e : Env) : Type 0 where
  pub injective : (s t : String) → e.bytes s ≡ e.bytes t → s ≡ t

-- argon2.IDKey returns as many bytes as the call asks for.
pub record Argon2Laws (e : Env) : Type 0 where
  pub size : (password salt : Bytes) → length (e.argon2id password salt) ≡ 32

-- A SHA-256 digest has 32 bytes.
pub record DigestLaws (e : Env) : Type 0 where
  pub size : (b : Bytes) → length (e.sha256 b) ≡ 32

-- A jsonb column keeps the string that a document stands for.
pub record QuoteLaws (e : Env) : Type 0 where
  pub unquote_quote : (s : String) → e.unquote (e.jsonb (e.quote s)) ≡ some s

-- PostgreSQL's uuid type: input accepts the canonical text that output gives, and uuid.NewString
-- returns it.
pub record UuidLaws (e : Env) : Type 0 where
  pub canonical : (s k : String) → e.parse_uuid s ≡ some k → e.parse_uuid k ≡ some k
  pub drawn : (n : ℕ) → e.parse_uuid (e.uuid_at n) ≡ some (e.uuid_at n)
