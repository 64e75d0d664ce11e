-- ===== src/Client/Rest/Rejections.antt =====
-- How the requests of the client end.
use mathlib.Core.Path.{subst}
use agrocylo_pip.Prelude.{
  Bool, Bool-cases, Option, String, false, inl, inr, none, refl, some, true, ℕ, ◌≡◌, ◌⊎◌,
}
use agrocylo_pip.Client.Rest.Http.{
  ApiError, ApiErrorKind, Body, Env, FetchOptions, Fetched, Network, Result, api_fetch, endpoint_of,
  http, is_backend_api_enabled, parsed, read_body, read_response, responded, returned, threw,
  unparsed, unreached,
}
use agrocylo_pip.Client.Rest.Calls.{
  Dto, Request, RequestOptions, allows, campaign_of, fall_back, get, get_campaign,
  get_campaign_investments, get_campaign_orders, get_campaigns, get_investments_by_user, get_order,
  get_transactions_by_user, get_user, local_of, locally, order_of, path_of, require_found,
  resolve_with, user_of,
}

abbrev is_http : ApiErrorKind → Bool
is_http http = true
is_http k = false

abbrev has_status : Option ℕ → Bool
has_status none = false
has_status (some n) = true

-- An error tells of a request: it has a status exactly where its kind is `http`.
pub record TellsOf (endpoint : String) (e : ApiError) : Type 0 where
  pub of_request : e.endpoint ≡ endpoint
  pub with_status : has_status e.status ≡ is_http e.kind

abbrev AnswersFor : {A : Type 0} → (ApiError → Type 0) → Result A → Type 0
AnswersFor P (returned a) = Unit {0}
AnswersFor P (threw e) = P e

AnswersFor-threw :
    {A : Type 0} (P : ApiError → Type 0) (a : Result A) (e : ApiError)
    → a ≡ threw e
    → AnswersFor P a
    → P e
AnswersFor-threw P (returned a) e same h = cc same
AnswersFor-threw P (threw x) e same h = subst (AnswersFor P) same h

read_body-TellsOf :
    {Json : Type 0} (endpoint : String) (b : Body Json)
    → AnswersFor (TellsOf endpoint) (read_body endpoint b)
read_body-TellsOf endpoint (parsed j) = tt
read_body-TellsOf endpoint (unparsed cause) = record { of_request = refl; with_status = refl }

read_response-TellsOf :
    {Json : Type 0} (endpoint : String) (ms : ℕ) (f : Fetched Json)
    → AnswersFor (TellsOf endpoint) (read_response endpoint ms f)
read_response-TellsOf endpoint ms (unreached cause true) = record {
  of_request = refl;
  with_status = refl;
}
read_response-TellsOf endpoint ms (unreached cause false) = record {
  of_request = refl;
  with_status = refl;
}
read_response-TellsOf endpoint ms (responded r) = elim (Bool-cases r.is_ok) [
  | inl fine ↦ rw fine (read_body-TellsOf endpoint r.body)
  | inr bad ↦ rw bad (record { of_request = refl; with_status = refl })
]

-- A path of the client begins with a slash.
endpoint_of-path_of : (r : Request) → endpoint_of (path_of r) ≡ path_of r
unfolding path_of
endpoint_of-path_of get_campaigns = refl
endpoint_of-path_of (get_campaign id) = refl
endpoint_of-path_of (get_campaign_investments id) = refl
endpoint_of-path_of (get_campaign_orders id) = refl
endpoint_of-path_of (get_order id) = refl
endpoint_of-path_of (get_user address) = refl
endpoint_of-path_of (get_investments_by_user address) = refl
endpoint_of-path_of (get_transactions_by_user address) = refl

-- No record is there: only a request of one record can miss it.
pub record IsMissing (r : Request) (e : ApiError) : Type 0 where
  pub not_here : local_of r ≡ threw e
  pub status_404 : e.status ≡ some 404
  pub kind_http : e.kind ≡ http
  pub asked : e.endpoint ≡ path_of r

require_found-IsMissing :
    {A : Type 0} (r : Request) (dto : A → Dto) (o : Option A)
    → local_of r ≡ require_found dto o (path_of r)
    → AnswersFor (IsMissing r) (require_found dto o (path_of r))
require_found-IsMissing r dto (some a) same = tt
require_found-IsMissing r dto none same = record {
  not_here = same;
  status_404 = refl;
  kind_http = refl;
  asked = refl;
}

local_of-IsMissing : (r : Request) → AnswersFor (IsMissing r) (local_of r)
unfolding local_of
local_of-IsMissing get_campaigns = tt
local_of-IsMissing (get_campaign id) = require_found-IsMissing (get_campaign id) campaign_of _ refl
local_of-IsMissing (get_campaign_investments id) = tt
local_of-IsMissing (get_campaign_orders id) = tt
local_of-IsMissing (get_order id) = require_found-IsMissing (get_order id) order_of _ refl
local_of-IsMissing (get_user address) = require_found-IsMissing (get_user address) user_of _ refl
local_of-IsMissing (get_investments_by_user address) = tt
local_of-IsMissing (get_transactions_by_user address) = tt

module _ (net : Network) (env : Env) where
  -- Why a request rejects
  pub record IsRefused (r : Request) (options : RequestOptions net) (w : net.World) (e : ApiError)
      : Type 0 where
    pub enabled : is_backend_api_enabled env ≡ true
    pub no_fallback : allows net options.fallback ≡ false
    pub thrown : (api_fetch net env (path_of r) options.fetch_options w).0 ≡ threw e
    pub told : TellsOf (path_of r) e

  api_fetch-TellsOf :
      (r : Request) (o : FetchOptions net) (w : net.World)
      → AnswersFor (TellsOf (path_of r)) (api_fetch net env (path_of r) o w).0
  unfolding api_fetch
  api_fetch-TellsOf r o w =
      subst (λ ep. AnswersFor (TellsOf ep) (api_fetch net env (path_of r) o w).0)
        (endpoint_of-path_of r) (read_response-TellsOf (endpoint_of (path_of r)) _ _)

  abbrev Why : (r : Request) → RequestOptions net → net.World → ApiError → Type 0
  Why r options w e = IsRefused r options w e ⊎ IsMissing r e

  locally-Why :
      (r : Request) (options : RequestOptions net) (w : net.World) (here : Result Dto)
      → AnswersFor (IsMissing r) here
      → AnswersFor (Why r options w) (locally net here)
  locally-Why r options w (returned d) h = tt
  locally-Why r options w (threw e) h = inr h

  fall_back-Why :
      (r : Request) (options : RequestOptions net) (w : net.World) (a : Result net.Json)
      (allow : Bool)
      → is_backend_api_enabled env ≡ true
      → (api_fetch net env (path_of r) options.fetch_options w).0 ≡ a
      → allows net options.fallback ≡ allow
      → AnswersFor (TellsOf (path_of r)) a
      → AnswersFor (Why r options w) (fall_back net a (local_of r) allow)
  fall_back-Why r options w (returned j) allow on same given h = tt
  fall_back-Why r options w (threw e) true on same given h =
      locally-Why r options w (local_of r) (local_of-IsMissing r)
  fall_back-Why r options w (threw e) false on same given h =
      inl (record { enabled = on; no_fallback = given; thrown = same; told = h })

  get-Why :
      (r : Request) (options : RequestOptions net) (w : net.World)
      → AnswersFor (Why r options w) (get net env r options w).0
  unfolding get resolve_with
  get-Why r options w = elim (Bool-cases (is_backend_api_enabled env)) [
    | inr off ↦ rw off (locally-Why r options w (local_of r) (local_of-IsMissing r))
    | inl on ↦
        rw on
          (fall_back-Why r options w _ _ on refl refl (api_fetch-TellsOf r options.fetch_options w))
  ]

  -- A request rejects in two cases only: where the backend is enabled, the fallback is off and the fetch
  -- failed, with the error of the fetch, which tells of the request and has a status exactly if it is of
  -- the kind `http`; or with a status of 404 where it asks for one record that is not among the local
  -- ones.
  pub rejections :
      (r : Request) (options : RequestOptions net) (w : net.World) (e : ApiError)
      → (get net env r options w).0 ≡ threw e
      → IsRefused r options w e ⊎ IsMissing r e
  rejections r options w e rejected =
      AnswersFor-threw (Why r options w) (get net env r options w).0 e rejected
        (get-Why r options w)
