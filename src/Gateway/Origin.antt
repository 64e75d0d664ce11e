-- ===== src/Gateway/Origin.antt =====
-- Which connections are let in by their Origin header: `createWebSocketGatewayOptions` of
-- websocket/campaign-events.gateway.ts, and websocket/cors-socket-io.adapter.ts, which setup-app.ts
-- installs. An error given to the callback is the text of its first argument.
use agrocylo_pip.Prelude.{
  Bool, Bool-cases, IsListed, List, Option, String, ap, arith, false, inl, inr, none, refl, some,
  true, ◌||◌, ◌↔◌, ◌≡◌, ◌⊎◌,
}
use agrocylo_pip.Prelude.Text.{IsListed-has, has, has-IsListed, is_blank}

-- `request.headers.origin`: missing, or a text
abbrev pub Origin : Type 0
Origin = Option String

-- `callback(error, success)`
pub record Answer : Type 0 where
  pub error : Option String
  pub success : Bool

-- The options of a Socket.IO server that the program sets
pub record ServerOptions : Type 0 where
  pub cors_origin : List String
  pub credentials : Bool
  pub allow_request : Origin → Answer

abbrev is_listed : List String → Origin → Bool
is_listed allowed none = false
is_listed allowed (some o) = has allowed o

abbrev no_origin : Origin → Bool
no_origin none = true
no_origin (some o) = is_blank o

abbrev answer : String → Bool → Answer
answer reason true = record { error = none; success = true }
answer reason false = record { error = some reason; success = false }

unfoldable pub create_web_socket_gateway_options : List String → ServerOptions
unfolding has
create_web_socket_gateway_options allowed = record {
  cors_origin = allowed;
  credentials = true;
  allow_request = λ origin. answer "Origin not allowed" (is_listed allowed origin);
}

-- `createIOServer`: `{ ...options, cors, allowRequest }`
unfoldable pub create_io_server : List String → ServerOptions → ServerOptions
unfolding has
create_io_server allowed options = record options {
  cors_origin = allowed;
  credentials = true;
  allow_request = λ origin.
      answer "Origin not allowed by WebSocket CORS policy"
        (no_origin origin || is_listed allowed origin);
}

abbrev pub IsOneOf : List String → Origin → Type 0
IsOneOf allowed none = ⊥
IsOneOf allowed (some o) = IsListed o allowed

abbrev pub IsMissing : Origin → Type 0
IsMissing none = Unit
IsMissing (some o) = o ≡ ""

answer_success : (reason : String) (b : Bool) → (answer reason b).success ≡ b
answer_success reason true = refl
answer_success reason false = refl

is_listed_iff :
    (allowed : List String) (origin : Origin)
    → (is_listed allowed origin ≡ true) ↔ IsOneOf allowed origin
is_listed_iff allowed none = (λ h. cc, λ h. absurd h)
is_listed_iff allowed (some o) = (has-IsListed allowed o, IsListed-has allowed o)

no_origin_iff : (origin : Origin) → (no_origin origin ≡ true) ↔ IsMissing origin
no_origin_iff none = (λ h. tt, λ h. refl)
no_origin_iff (some String.[]) = (λ h. refl, λ h. refl)
no_origin_iff (some (String.◌∷◌ c s)) = (λ h. cc, λ h. cc (ap is_blank h))

-- The gateway's own options let a request in exactly when its Origin header is a configured one; the
-- server that the adapter makes of these, or of any other options, also lets it in where the header
-- is missing or empty, and in no other case.
pub origin_checks :
    (allowed : List String) (options : ServerOptions) (origin : Origin)
    → ((((create_web_socket_gateway_options allowed).allow_request origin).success ≡ true)
        ↔ IsOneOf allowed origin)
      × ((((create_io_server allowed options).allow_request origin).success ≡ true)
          ↔ (IsMissing origin ⊎ IsOneOf allowed origin))
unfolding create_web_socket_gateway_options create_io_server
origin_checks allowed options origin =
    let listed = is_listed_iff allowed origin in
    let missing = no_origin_iff origin in
    (
      rw answer_success listed,
      rw answer_success (
        λ h. elim (Bool-cases (no_origin origin)) [
          | inl e ↦ inl (missing.0 e)
          | inr e ↦ inr (listed.0 (rw e at h))
        ],
        λ c. elim c [ inl e ↦ rw (missing.1 e) refl | inr e ↦ rw (listed.1 e) (ground arith) ],
      ),
    )
