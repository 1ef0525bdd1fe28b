-- ===== src/Auth/Sessions/Signed.antt =====
-- Which cookies `token` accepts.
use opencode_workspaces.Prelude.{
  String, ◌≡◌, refl, sym, ap, ◌∙◌, true, false, List, [], ◌∷◌, arith, bytes_eq,
}
use opencode_workspaces.Prelude.Strings.{split, has_char}
use opencode_workspaces.Prelude.Strings.Laws.{split_one, split_join, join, join-split}
use opencode_workspaces.Env.{Env, UrlEncodingLaws, BytesLaws}
use opencode_workspaces.Auth.Sessions.{Manager, sign, token, token_parts, signed}

module _ ⦃env : Env⦄ where
  -- The cookie that NewSession makes is accepted, for its token.
  pub signed_token_accepted :
      (m : Manager) (t : String)
      → UrlEncodingLaws env
      → has_char b'.' t ≡ false
      → token m (signed m t) ≡ (t, true)
  unfolding token signed sign
  signed_token_accepted m t laws h =
      rw
        (
          split_join b'.' "." t _ refl h,
          split_one b'.' (sign m t) (laws.no_dot (env.hmac m.signing_key (env.bytes t))),
        )
        (ground (arith, bytes_eq.beq_iff (env.bytes (sign m t)) (env.bytes (sign m t))))

  parts_signed :
      (m : Manager) (t : String) (parts : List String)
      → BytesLaws env
      → token_parts m parts ≡ (t, true)
      → parts ≡ t ∷ sign m t ∷ []
  parts_signed m t [] laws h = ground arith
  parts_signed m t (a ∷ []) laws h = ground arith
  parts_signed m t (a ∷ b ∷ []) laws h =
      ground
        (arith, bytes_eq.beq_iff (env.bytes b) (env.bytes (sign m a)), laws.injective b (sign m a))
  parts_signed m t (a ∷ b ∷ c ∷ ps) laws h = ground arith

  -- A cookie that token accepts is a token with the signature of the manager.
  pub accepted_token_is_signed :
      (m : Manager) (value t : String)
      → BytesLaws env
      → token m value ≡ (t, true)
      → value ≡ signed m t
  unfolding token signed
  accepted_token_is_signed m value t laws h =
      let parts = parts_signed m t (split b'.' value) laws h in
      sym (join-split b'.' "." value refl) ∙ ap (join ".") parts
