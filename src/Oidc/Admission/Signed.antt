-- ===== src/Oidc/Admission/Signed.antt =====
-- Which flow cookies are accepted.
use opencode_workspaces.Prelude.{
  ◌≡◌, refl, sym, ap, ◌∙◌, String, some, List, [], ◌∷◌, arith, bytes_eq,
}
use opencode_workspaces.Prelude.Strings.{◌<>◌, split}
use opencode_workspaces.Prelude.Strings.Laws.{split_one, split_join, join, join-split}
use opencode_workspaces.Env.{Env, UrlEncodingLaws, BytesLaws}
use opencode_workspaces.World.{ok}
use opencode_workspaces.Database.Sound.Rules.{then_ok}
use opencode_workspaces.Oidc.Flows.{
  Flow, Provider, Manager, flow_mac, encode_flow, decode_flow, flow_of_parts,
}

module _ ⦃env : Env⦄ ⦃provider : Provider⦄ where
  -- decodeFlow reads back a flow that encodeFlow wrote under the same key, if JSON keeps the flow.
  pub decode_flow-encode_flow :
      (m : Manager) (f : Flow)
      → UrlEncodingLaws env
      → provider.flow_of (provider.flow_json f) ≡ some f
      → decode_flow m (encode_flow m f) ≡ ok f
  unfolding decode_flow encode_flow flow_mac
  decode_flow-encode_flow m f laws json =
      let payload = env.encode_url (provider.flow_json f) in
      rw
        (
          split_join b'.' "." payload _ refl (laws.no_dot _),
          split_one b'.' (flow_mac m payload) (laws.no_dot _),
        )
        (rw
          (
            (bytes_eq.beq_iff (env.bytes (flow_mac m payload)) (env.bytes (flow_mac m payload))).1
                refl,
            laws.decode_encode (provider.flow_json f),
            json,
          )
          refl)

  parts_signed :
      (m : Manager) (parts : List String) (f : Flow)
      → BytesLaws env
      → flow_of_parts m parts ≡ ok f
      → (payload : String) × (parts ≡ payload ∷ flow_mac m payload ∷ [])
  parts_signed m [] f laws h = absurd (ground arith)
  parts_signed m (a ∷ []) f laws h = absurd (ground arith)
  parts_signed m (a ∷ b ∷ []) f laws h = (
    a,
    let (same, _) = then_ok _ _ _ f h in
        ap (λ x. a ∷ x ∷ []) (sym (laws.injective _ b ((bytes_eq.beq_iff _ _).0 same))),
  )
  parts_signed m (a ∷ b ∷ c ∷ ps) f laws h = absurd (ground arith)

  -- A flow cookie that decodeFlow accepts is a payload with its MAC.
  pub decoded_flow_is_signed :
      (m : Manager) (value : String) (f : Flow)
      → BytesLaws env
      → decode_flow m value ≡ ok f
      → (payload : String) × (value ≡ payload <> ("." <> flow_mac m payload))
  unfolding decode_flow
  decoded_flow_is_signed m value f laws h =
      let (payload, parts) = parts_signed m (split b'.' value) f laws h in
      (payload, sym (join-split b'.' "." value refl) ∙ ap (join ".") parts)
