-- ===== src/Gateway/Token/Spec.antt =====
-- What a token of websocket/ws-auth.ts is, as the comment above `verifyWsToken` describes it.
use agrocylo_pip.Prelude.{String, false, some, ℕ, ◌*◌, ◌<◌, ◌≡◌, ◌≢◌}
use agrocylo_pip.Prelude.Int.{negsuc, pos}
use agrocylo_pip.Prelude.Text.{Lacks, concat}
use agrocylo_pip.Js.{Value, int, number, other, string}
use agrocylo_pip.Gateway.Token.{
  Platform, WsAuthClaims, base64_url_decode, number_of, ok, property_of, scopes_of,
}

-- A claim that is a number of seconds lies ahead.
abbrev pub IsLive : Platform → ℕ → Value → Type 0
IsLive platform now (number (int (pos z))) = now < z * 1000
IsLive platform now (number (int (negsuc z))) = ⊥
IsLive platform now (number (other s)) = platform.is_reached s now ≡ false
IsLive platform now v = Unit

-- The claims are those of a parsed payload, which has not expired.
pub record Carries (platform : Platform) (now : ℕ) (content : Value) (claims : WsAuthClaims)
    : Type 0 where
  pub exp : Value
  pub scopes : Value
  pub scope : Value
  pub subject : property_of "sub" content ≡ ok (string claims.sub)
  pub named : claims.sub ≢ ""
  pub exp_claim : property_of "exp" content ≡ ok exp
  pub live : IsLive platform now exp
  pub exp_kept : number_of exp ≡ claims.exp
  pub scopes_claim : property_of "scopes" content ≡ ok scopes
  pub scope_claim : property_of "scope" content ≡ ok scope
  pub granted : scopes_of scopes scope ≡ claims.scopes

-- A compact JWT, `header.payload.signature`, signed by the secret, that carries the claims
pub record IsToken (platform : Platform) (secret token : String) (now : ℕ) (claims : WsAuthClaims)
    : Type 0 where
  pub header : String
  pub payload : String
  pub signature : String
  pub header_value : Value
  pub content : Value
  pub compact : concat header (concat "." (concat payload (concat "." signature))) ≡ token
  pub header_plain : Lacks b'.' header
  pub payload_plain : Lacks b'.' payload
  pub signature_plain : Lacks b'.' signature
  pub header_json :
      platform.parse_json (platform.utf8 (base64_url_decode platform header)) ≡ some header_value
  pub algorithm : property_of "alg" header_value ≡ ok (string "HS256")
  pub signed :
      base64_url_decode platform signature
      ≡ platform.hmac_sha256 secret (concat header (concat "." payload))
  pub payload_json :
      platform.parse_json (platform.utf8 (base64_url_decode platform payload)) ≡ some content
  pub carries : Carries platform now content claims
