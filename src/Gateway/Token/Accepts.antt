-- ===== src/Gateway/Token/Accepts.antt =====
-- `verifyWsToken` accepts the tokens of Spec and no others.
use mathlib.Core.Path.{subst}
use agrocylo_pip.Prelude.{All, List, String, [], ap, not, refl, ℕ, ◌↔◌, ◌∙◌, ◌∷◌, ◌≡◌, ◌≢◌}
use agrocylo_pip.Prelude.Text.{
  Lacks, is_blank, joined, joined-split, split, split-Lack, split-Lacks, split-concat,
}
use agrocylo_pip.Gateway.Token.{
  Platform, WsAuthClaims, check_header, decode_json, invalid_signature, is_signed_by,
  malformed_payload, missing_token, not_configured, ok, throw_unless, verify_parts, verify_ws_token,
}
use agrocylo_pip.Gateway.Token.Spec.{IsToken}
use agrocylo_pip.Gateway.Token.Checks.{
  bind-eq-ok, check_header_iff, claims_of_complete, claims_of_sound, is_blank-eq-false,
  is_signed_by_iff, not-true, or_throw-eq-ok, throw_unless-eq-ok,
}

module _ (platform : Platform) (secret : String) (now : ℕ) (claims : WsAuthClaims) where
  verify_parts_sound :
      (parts : List String)
      → verify_parts platform secret now parts ≡ ok claims
      → All (Lacks b'.') parts
      → IsToken platform secret (joined "." parts) now claims
  unfolding verify_parts
  verify_parts_sound (header ∷ payload ∷ signature ∷ []) h (lacks₁, (lacks₂, (lacks₃, _))) =
      let (_, checked, h₁) = bind-eq-ok (check_header platform header) _ h in
      let (header_value, header_json, algorithm) = (check_header_iff platform header).0 checked in
      let (_, authentic, h₂) =
        bind-eq-ok
          (throw_unless (is_signed_by platform secret header payload signature) invalid_signature) _
          h₁ in
      let (content, parsed, h₃) =
        bind-eq-ok (decode_json platform payload malformed_payload) _ h₂ in
      record {
        header = header;
        payload = payload;
        signature = signature;
        header_value = header_value;
        content = content;
        compact = refl;
        header_plain = lacks₁;
        payload_plain = lacks₂;
        signature_plain = lacks₃;
        header_json = header_json;
        algorithm = algorithm;
        signed =
            (is_signed_by_iff platform secret header payload signature).0
              (throw_unless-eq-ok _ _ authentic);
        payload_json = or_throw-eq-ok _ _ parsed;
        carries = claims_of_sound platform now content claims h₃;
      }
  verify_parts_sound (_ ∷ _ ∷ _ ∷ _ ∷ _) h lacks = cc
  verify_parts_sound (_ ∷ _ ∷ []) h lacks = cc
  verify_parts_sound (_ ∷ []) h lacks = cc
  verify_parts_sound [] h lacks = cc

  verify_parts_complete :
      {token : String} (t : IsToken platform secret token now claims)
      → verify_parts platform secret now (t.header ∷ t.payload ∷ t.signature ∷ []) ≡ ok claims
  unfolding verify_parts decode_json
  verify_parts_complete t =
      rw ((check_header_iff platform t.header).1 (t.header_value, t.header_json, t.algorithm)) (
        rw ((is_signed_by_iff platform secret t.header t.payload t.signature).1 t.signed)
          (rw t.payload_json (claims_of_complete platform now t.content claims t.carries)))

  split_token :
      {token : String} (t : IsToken platform secret token now claims)
      → split b'.' token ≡ t.header ∷ t.payload ∷ t.signature ∷ []
  split_token t = rw (← t.compact) (
      split-concat "." t.header _ t.header_plain
      ∙ ap (◌∷◌ t.header) (
          split-concat "." t.payload _ t.payload_plain
          ∙ ap (◌∷◌ t.payload) (split-Lacks b'.' t.signature t.signature_plain)))

  token-ne-nil : {token : String} → IsToken platform secret token now claims → token ≢ ""
  unfolding split
  token-ne-nil t blank = cc (ap (split b'.') blank, split_token t)

  -- Where a secret is configured, exactly the compact tokens that are signed by it, in HS256,
  -- with a named subject and not expired, are accepted, with the claims that they carry; where
  -- none is, no token is.
  pub verify_ws_token_iff :
      (token : String)
      → (verify_ws_token platform token secret now ≡ ok claims)
        ↔ ((secret ≢ "") × IsToken platform secret token now claims)
  unfolding verify_ws_token
  verify_ws_token_iff token = (
    λ h.
        let (_, configured, h₁) =
          bind-eq-ok (throw_unless (not (is_blank secret)) not_configured) _ h in
        let (_, given, h₂) = bind-eq-ok (throw_unless (not (is_blank token)) missing_token) _ h₁ in
        (
          (is_blank-eq-false secret).0 (not-true (throw_unless-eq-ok _ _ configured)),
          subst (λ s. IsToken platform secret s now claims) (joined-split "." token)
              (verify_parts_sound (split b'.' token) h₂ (split-Lack "." token)),
        ),
    λ (configured, t). rw ((is_blank-eq-false secret).1 configured) (
        rw ((is_blank-eq-false token).1 (token-ne-nil t))
          (rw (split_token t) (verify_parts_complete t))),
  )
