-- ===== src/Gateway/Token.antt =====
-- websocket/ws-auth.ts: HS256 tokens, and where a handshake carries one. Node's Buffer, crypto and
-- JSON are parameters (`Platform`), and so is the comparison of a time with a number that is not
-- integral. A thrown `WsTokenError` is named after its message.
pub mod Spec
pub mod Checks
pub mod Accepts
use agrocylo_pip.Prelude.{
  Bool, List, Option, String, [], false, if◌then◌else◌, leb, length, none, not, some, str_eq, true,
  ℕ, ◌&&◌, ◌*◌, ◌+◌, ◌/◌, ◌==◌, ◌↔◌, ◌∷◌, ◌≡◌,
}
use agrocylo_pip.Prelude.Int.{negsuc, pos}
use agrocylo_pip.Prelude.Text.{concat, is_blank, replace, split}
use agrocylo_pip.Js.{
  Number, Value, Values, array, cons, int, member, nil, null, number, object, other, string,
  undefined,
}

pub data TokenError : Type 0 where
  not_configured missing_token malformed_token malformed_header : TokenError
  unsupported_algorithm invalid_signature malformed_payload missing_sub expired : TokenError
  -- The `TypeError` of a property of `null`
  null_property : TokenError

pub data Verified {ℓ} (A : Type ℓ) : Type ℓ where
  ok : A → Verified A
  thrown : TokenError → Verified A

infixl 5 ◌>>=◌ ◌>>◌
abbrev pub ◌>>=◌ {ℓ κ} : {A : Type ℓ} {B : Type κ} → Verified A → (A → Verified B) → Verified B
ok a >>= rest = rest a
thrown x >>= rest = thrown x

abbrev pub ◌>>◌ {ℓ} : {B : Type ℓ} → Verified (Unit {0}) → Verified B → Verified B
step >> rest = step >>= λ _. rest

abbrev pub throw_unless : Bool → TokenError → Verified (Unit {0})
throw_unless true x = ok tt
throw_unless false x = thrown x

abbrev pub or_throw {ℓ} : {A : Type ℓ} → Option A → TokenError → Verified A
or_throw none x = thrown x
or_throw (some a) x = ok a

-- `Buffer.from(s, 'base64')`, `toString('utf8')`, `JSON.parse`, HMAC-SHA256 of a text by a secret,
-- and `timingSafeEqual`, which Node documents as equality of buffers of one length
pub record Platform : Type 0 where
  pub from_base64 : String → List ℕ
  pub utf8 : List ℕ → String
  pub parse_json : String → Option Value
  pub hmac_sha256 : (secret text : String) → List ℕ
  pub timing_safe_equal : List ℕ → List ℕ → Bool
  pub is_reached : (seconds : String) (now : ℕ) → Bool
  pub timing_safe_equal_iff :
      (a b : List ℕ) → length a ≡ length b → (timing_safe_equal a b ≡ true) ↔ (a ≡ b)

pub record WsAuthClaims : Type 0 where
  pub sub : String
  pub scopes : List String
  pub exp : Option Number

-- `v.k`, where the property is not one of a prototype
abbrev pub property_of : String → Value → Verified Value
property_of k null = thrown null_property
property_of k (object ps) = ok (member k ps)
property_of k v = ok undefined

abbrev pub text_of : Value → Option String
text_of (string s) = some s
text_of v = none

abbrev pub number_of : Value → Option Number
number_of (number n) = some n
number_of v = none

abbrev pub equals_text : String → Value → Bool
equals_text s (string t) = str_eq t s
equals_text s v = false

-- `typeof sub !== 'string' || sub.length === 0`
abbrev pub subject_of : Value → Option String
subject_of (string s) = if is_blank s then none else some s
subject_of v = none

-- `array.filter((s) => typeof s === 'string')`
abbrev pub texts_of : Values → List String
texts_of nil = []
texts_of (cons (string s) vs) = s ∷ texts_of vs
texts_of (cons v vs) = texts_of vs

-- `filter((s) => s.length > 0)`
abbrev pub drop_blanks : List String → List String
drop_blanks [] = []
drop_blanks (s ∷ ss) = let rest = drop_blanks ss in if is_blank s then rest else s ∷ rest

-- The scopes of the claims `scopes` and `scope`
unfoldable pub scopes_of : (scopes scope : Value) → List String
unfolding split
scopes_of (array vs) scope = texts_of vs
scopes_of scopes (string s) = drop_blanks (split b' ' s)
scopes_of scopes scope = []

-- `input.replace(/-/g, '+').replace(/_/g, '/')`
unfoldable pub base64_of_url : String → String
unfolding replace
base64_of_url s = replace b'_' "/" (replace b'-' "+" s)

module _ (platform : Platform) where
  open platform use {from_base64, utf8, parse_json, hmac_sha256, timing_safe_equal, is_reached}

  unfoldable pub base64_url_decode : String → List ℕ
  unfolding base64_of_url
  base64_url_decode s = from_base64 (base64_of_url s)

  -- `typeof exp === 'number' && Date.now() >= exp * 1000`; the time is below 2^53.
  unfoldable pub has_passed : ℕ → Value → Bool
  has_passed now (number (int (pos z))) = leb (z * 1000) now
  has_passed now (number (int (negsuc z))) = true
  has_passed now (number (other s)) = is_reached s now
  has_passed now v = false

  unfoldable pub decode_json : String → TokenError → Verified Value
  decode_json part x = or_throw (parse_json (utf8 (base64_url_decode part))) x

  unfoldable pub check_header : String → Verified (Unit {0})
  unfolding decode_json
  check_header part = do
    header ← decode_json part malformed_header
    alg ← property_of "alg" header
    throw_unless (equals_text "HS256" alg) unsupported_algorithm

  unfoldable pub is_signed_by : String → String → String → String → Bool
  is_signed_by secret header payload signature =
      let expected = hmac_sha256 secret (concat header (concat "." payload)) in
      let provided = base64_url_decode signature in
      length expected == length provided && timing_safe_equal expected provided

  -- The claims of a payload that was parsed
  unfoldable pub claims_of : ℕ → Value → Verified WsAuthClaims
  unfolding has_passed scopes_of
  claims_of now payload = do
    sub_claim ← property_of "sub" payload
    sub ← or_throw (subject_of sub_claim) missing_sub
    exp ← property_of "exp" payload
    throw_unless (not (has_passed now exp)) expired
    scopes ← property_of "scopes" payload
    scope ← property_of "scope" payload
    ok (record { sub = sub; scopes = scopes_of scopes scope; exp = number_of exp })

  unfoldable pub verify_parts : String → ℕ → List String → Verified WsAuthClaims
  unfolding check_header is_signed_by claims_of
  verify_parts secret now (header ∷ payload ∷ signature ∷ []) = do
    check_header header
    throw_unless (is_signed_by secret header payload signature) invalid_signature
    content ← decode_json payload malformed_payload
    claims_of now content
  verify_parts secret now _ = thrown malformed_token

  -- `verifyWsToken` at the time `now`, in milliseconds
  unfoldable pub verify_ws_token : String → String → ℕ → Verified WsAuthClaims
  unfolding verify_parts split base64_url_decode
  verify_ws_token token secret now = do
    throw_unless (not (is_blank secret)) not_configured
    throw_unless (not (is_blank token)) missing_token
    verify_parts secret now (split b'.' token)
