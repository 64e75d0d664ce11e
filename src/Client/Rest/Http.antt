-- ===== src/Client/Rest/Http.antt =====
-- lib/api/config.ts, errors.ts and http.ts: a GET request of the backend. `fetch` with its timer and the
-- parsing of JSON are a parameter, `Network`.
use Prim.Native.Char.{code}
use agrocylo_pip.Prelude.{
  Bool, List, Option, String, [], false, if◌then◌else◌, none, some, true, ℕ, ◌&&◌, ◌==◌, ◌||◌, ◌∷◌,
}
use agrocylo_pip.Prelude.Decimal.{print_ℕ}
use agrocylo_pip.Prelude.Text.{concat, is_blank, trim}
use agrocylo_pip.Client.Failures.{lower}

pub data ApiErrorKind : Type 0 where
  network : ApiErrorKind
  timeout : ApiErrorKind
  http : ApiErrorKind
  parse : ApiErrorKind

-- `ApiError`; a cause is its text.
pub record ApiError : Type 0 where
  pub message : String
  pub kind : ApiErrorKind
  pub endpoint : String
  pub status : Option ℕ
  pub cause : Option String

-- `import.meta.env`
pub record Env : Type 0 where
  pub backend_api_url : Option String
  pub use_backend_api : Option String

abbrev default_backend_api_url : String
default_backend_api_url = "http://localhost:3000"

abbrev default_request_timeout_ms : ℕ
default_request_timeout_ms = 8000

-- `base.replace(/\/+$/, '')`
abbrev without_end_slashes : String → String
without_end_slashes String.[] = ""
without_end_slashes (String.◌∷◌ c s) =
    let rest = without_end_slashes s in
    if code c == b'/' && is_blank rest then "" else String.◌∷◌ c rest

abbrev base_of : Option String → String
base_of none = default_backend_api_url
base_of (some url) = let raw = trim url in if is_blank raw then default_backend_api_url else raw

unfoldable pub backend_api_base_url : Env → String
backend_api_base_url env = without_end_slashes (base_of env.backend_api_url)

-- `flag.toLowerCase() === word`, for a word of small ASCII letters and digits
abbrev is_lowered : (flag word : String) → Bool
is_lowered String.[] word = is_blank word
is_lowered (String.◌∷◌ c s) String.[] = false
is_lowered (String.◌∷◌ c s) (String.◌∷◌ d t) = lower (code c) == code d && is_lowered s t

abbrev says_yes : Option String → Bool
says_yes none = false
says_yes (some s) =
    let flag = trim s in is_lowered flag "true" || is_lowered flag "1" || is_lowered flag "yes"

unfoldable pub is_backend_api_enabled : Env → Bool
is_backend_api_enabled env = says_yes env.use_backend_api

-- `response.json()`
pub data Body (Json : Type 0) : Type 0 where
  parsed : Json → Body Json
  unparsed : (cause : String) → Body Json

pub record Response (Json : Type 0) : Type 0 where
  pub is_ok : Bool
  pub status : ℕ
  pub status_text : String
  pub body : Body Json

-- Where `fetch` throws, it is known whether the controller was aborted.
pub data Fetched (Json : Type 0) : Type 0 where
  responded : Response Json → Fetched Json
  unreached : (cause : String) (aborted : Bool) → Fetched Json

-- `fetch` with a controller that is aborted after a time, or with the caller's signal
pub record Network : Type 1 where
  pub World : Type 0
  pub Json : Type 0
  pub Signal : Type 0
  pub fetch :
      (url : String) (timeout_ms : ℕ) (signal : Option Signal) → World → Fetched Json × World

pub data Result (A : Type 0) : Type 0 where
  returned : A → Result A
  threw : ApiError → Result A

abbrev pub text_of : List String → String
text_of [] = ""
text_of (s ∷ ss) = concat s (text_of ss)

abbrev pub unreached_error :
    (aborted : Bool) (endpoint : String) (timeout_ms : ℕ) (cause : String) → ApiError
unreached_error true endpoint ms cause = record {
  message = text_of ("Request to " ∷ endpoint ∷ " timed out after " ∷ print_ℕ ms ∷ "ms" ∷ []);
  kind = timeout;
  endpoint = endpoint;
  status = none;
  cause = some cause;
}
unreached_error false endpoint ms cause = record {
  message = text_of ("Network request to " ∷ endpoint ∷ " failed — backend unreachable" ∷ []);
  kind = network;
  endpoint = endpoint;
  status = none;
  cause = some cause;
}

abbrev http_error : (endpoint : String) (status : ℕ) (status_text : String) → ApiError
http_error endpoint status text = record {
  message = text_of (
      "Backend responded "
      ∷ print_ℕ status
      ∷ " "
      ∷ text
      ∷ " for "
      ∷ endpoint
      ∷ (if status == 404 then " — endpoint not implemented yet?" else "")
      ∷ []);
  kind = http;
  endpoint = endpoint;
  status = some status;
  cause = none;
}

abbrev parse_error : (endpoint cause : String) → ApiError
parse_error endpoint cause = record {
  message = concat "Failed to parse JSON response from " endpoint;
  kind = parse;
  endpoint = endpoint;
  status = none;
  cause = some cause;
}

abbrev pub read_body : {Json : Type 0} → (endpoint : String) → Body Json → Result Json
read_body endpoint (parsed j) = returned j
read_body endpoint (unparsed cause) = threw (parse_error endpoint cause)

abbrev pub read_response :
    {Json : Type 0} → (endpoint : String) (timeout_ms : ℕ) → Fetched Json → Result Json
read_response endpoint ms (unreached cause aborted) =
    threw (unreached_error aborted endpoint ms cause)
read_response endpoint ms (responded r) =
    if r.is_ok
    then read_body endpoint r.body
    else threw (http_error endpoint r.status r.status_text)

-- `path.startsWith('/') ? path : '/' + path`
abbrev pub endpoint_of : (path : String) → String
endpoint_of String.[] = "/"
endpoint_of (String.◌∷◌ c s) =
    if code c == b'/' then String.◌∷◌ c s else concat "/" (String.◌∷◌ c s)

module _ (net : Network) where
  pub record FetchOptions : Type 0 where
    pub signal : Option net.Signal
    pub timeout_ms : Option ℕ

  abbrev or_default : Option ℕ → ℕ
  or_default none = default_request_timeout_ms
  or_default (some ms) = ms

  unfoldable pub api_fetch :
      Env → (path : String) → FetchOptions → net.World → Result net.Json × net.World
  unfolding backend_api_base_url
  api_fetch env path options w =
      let ms = or_default options.timeout_ms in
      let endpoint = endpoint_of path in
      let a = net.fetch (concat (backend_api_base_url env) endpoint) ms options.signal w in
      (read_response endpoint ms a.0, a.1)
