-- ===== src/Client/Rest/Calls.antt =====
-- lib/api/client.ts: the requests of the client, each with its local records. The warning that the
-- console is given before local records are used is left out.
use agrocylo_pip.Prelude.{Bool, List, Option, String, false, if◌then◌else◌, none, not, some, true}
use agrocylo_pip.Prelude.Text.{concat}
use agrocylo_pip.Client.Rest.Types.{Campaign, Investment, Order, Transaction, User}
use agrocylo_pip.Client.Rest.Local.{
  campaign_investments, campaign_orders, campaigns, investments_by_user, local_campaign,
  local_order, local_user, transactions_by_user,
}
use agrocylo_pip.Client.Rest.Uri.{encode_uri_component}
use agrocylo_pip.Client.Rest.Http.{
  ApiError, Env, FetchOptions, Network, Result, api_fetch, http, is_backend_api_enabled, returned,
  threw,
}

-- The functions, from getCampaigns to getTransactionsByUser, with their first argument
pub data Request : Type 0 where
  get_campaigns : Request
  get_campaign : (id : String) → Request
  get_campaign_investments : (campaign_id : String) → Request
  get_campaign_orders : (campaign_id : String) → Request
  get_order : (id : String) → Request
  get_user : (address : String) → Request
  get_investments_by_user : (address : String) → Request
  get_transactions_by_user : (address : String) → Request

-- What they have locally
pub data Dto : Type 0 where
  campaign_list : List Campaign → Dto
  campaign_of : Campaign → Dto
  investment_list : List Investment → Dto
  order_list : List Order → Dto
  order_of : Order → Dto
  user_of : User → Dto
  transaction_list : List Transaction → Dto

unfoldable pub path_of : Request → String
path_of get_campaigns = "/campaigns"
path_of (get_campaign id) = concat "/campaigns/" (encode_uri_component id)
path_of (get_campaign_investments id) =
    concat "/campaigns/" (concat (encode_uri_component id) "/investments")
path_of (get_campaign_orders id) = concat "/campaigns/" (concat (encode_uri_component id) "/orders")
path_of (get_order id) = concat "/orders/" (encode_uri_component id)
path_of (get_user address) = concat "/users/" (encode_uri_component address)
path_of (get_investments_by_user address) =
    concat "/users/" (concat (encode_uri_component address) "/investments")
path_of (get_transactions_by_user address) =
    concat "/users/" (concat (encode_uri_component address) "/transactions")

abbrev pub not_found : (endpoint : String) → ApiError
not_found endpoint = record {
  message = concat "No record found for " endpoint;
  kind = http;
  endpoint = endpoint;
  status = some 404;
  cause = none;
}

abbrev pub require_found : {A : Type 0} → (A → Dto) → Option A → (endpoint : String) → Result Dto
require_found dto none endpoint = threw (not_found endpoint)
require_found dto (some a) endpoint = returned (dto a)

-- `localFn`
unfoldable pub local_of : Request → Result Dto
unfolding path_of
local_of get_campaigns = returned (campaign_list campaigns)
local_of (get_campaign id) =
    require_found campaign_of (local_campaign id) (path_of (get_campaign id))
local_of (get_campaign_investments id) = returned (investment_list (campaign_investments id))
local_of (get_campaign_orders id) = returned (order_list (campaign_orders id))
local_of (get_order id) = require_found order_of (local_order id) (path_of (get_order id))
local_of (get_user address) =
    require_found user_of (local_user address) (path_of (get_user address))
local_of (get_investments_by_user address) =
    returned (investment_list (investments_by_user address))
local_of (get_transactions_by_user address) =
    returned (transaction_list (transactions_by_user address))

-- A response's JSON is taken for the records without a check.
pub data Value (Json : Type 0) : Type 0 where
  from_backend : Json → Value Json
  from_local : Dto → Value Json

module _ (net : Network) where
  pub record RequestOptions : Type 0 where
    pub fetch_options : FetchOptions net
    pub fallback : Option Bool

  abbrev Attempt : Type 0
  Attempt = net.World → Result net.Json × net.World

  abbrev pub locally : Result Dto → Result (Value net.Json)
  locally (returned d) = returned (from_local d)
  locally (threw e) = threw e

  abbrev pub fall_back : Result net.Json → Result Dto → (allow : Bool) → Result (Value net.Json)
  fall_back (returned j) here allow = returned (from_backend j)
  fall_back (threw e) here true = locally here
  fall_back (threw e) here false = threw e

  unfoldable pub resolve_with :
      Env
      → Attempt
      → (here : Result Dto) → (allow_fallback : Bool) → net.World
      → Result (Value net.Json) × net.World
  resolve_with env attempt here allow w =
      if not (is_backend_api_enabled env)
      then (locally here, w)
      else let a = attempt w in (fall_back a.0 here allow, a.1)

  -- `fallback = true`
  abbrev pub allows : Option Bool → Bool
  allows none = true
  allows (some b) = b

  unfoldable pub get :
      Env → Request → RequestOptions → net.World → Result (Value net.Json) × net.World
  unfolding resolve_with local_of
  get env r options w =
      resolve_with env (api_fetch net env (path_of r) options.fetch_options) (local_of r)
        (allows options.fallback) w
