-- ===== src/Client/Rest/Tests.antt =====
-- A backend that is down, and one that has what is asked for.
use agrocylo_pip.Prelude.{List, String, [], ap, false, none, refl, some, ◌∷◌, ◌≡◌, ◌⊎◌}
use agrocylo_pip.Prelude.Text.{trim}
use agrocylo_pip.Client.Rest.Uri.{encode_uri_component}
use agrocylo_pip.Client.Rest.Http.{
  ApiError, Env, Fetched, Network, api_fetch, is_backend_api_enabled, threw, unreached,
  unreached_error,
}
use agrocylo_pip.Client.Rest.Calls.{
  RequestOptions, get, get_campaign, get_campaign_orders, get_user, not_found, path_of,
}
use agrocylo_pip.Client.Rest.Paths.{count, path_shaped, segments}
use agrocylo_pip.Client.Rest.Rejections.{IsMissing, IsRefused, rejections}
use agrocylo_pip.Client.Rest.Served.{IsServed, served}

-- The world is the list of the addresses that were fetched.
abbrev answering : (String → Fetched String) → Network
answering reply = record {
  World = List String;
  Json = String;
  Signal = Unit {0};
  fetch = λ url ms signal w. (reply url, url ∷ w);
}

abbrev down : Network
down = answering (λ url. unreached "ECONNREFUSED" false)

abbrev with_backend : Env
with_backend = record {
  backend_api_url = some " https://api.agrocylo// ";
  use_backend_api = some "Yes";
}

abbrev strict : RequestOptions down
strict = record {
  fetch_options = record { signal = none; timeout_ms = none };
  fallback = some false;
}

abbrev lenient : RequestOptions down
lenient = record { fetch_options = record { signal = none; timeout_ms = none }; fallback = none }

abbrev outage : (endpoint : String) → ApiError
outage endpoint = unreached_error false endpoint 8000 "ECONNREFUSED"

outage_is_told :
    get down with_backend (get_campaign "camp-101") strict []
    ≡ (threw (outage "/campaigns/camp-101"), "https://api.agrocylo/campaigns/camp-101" ∷ [])
unfolding get is_backend_api_enabled trim api_fetch path_of encode_uri_component
outage_is_told = refl

rejections_example :
    IsRefused down with_backend (get_campaign "camp-101") strict [] (outage "/campaigns/camp-101")
    ⊎ IsMissing (get_campaign "camp-101") (outage "/campaigns/camp-101")
rejections_example =
    rejections down with_backend (get_campaign "camp-101") strict [] (outage "/campaigns/camp-101")
      (ap (λ a. a.0) outage_is_told)

served_example :
    IsServed down with_backend
      (get_user "GNOBODY")
      (get down with_backend (get_user "GNOBODY") lenient []).0
    × (is_backend_api_enabled with_backend ≡ false
        → (get down with_backend (get_user "GNOBODY") lenient []).1 ≡ [])
served_example = served down with_backend (get_user "GNOBODY") lenient []

-- With the fallback, and also with the backend turned off, a record that is not local is missed.
abbrev without_backend : Env
without_backend = record { backend_api_url = none; use_backend_api = none }

missed :
    (get down with_backend (get_user "GNOBODY") lenient []).0 ≡ threw (not_found "/users/GNOBODY")
    × (get down without_backend (get_user "GNOBODY") lenient []
        ≡ (threw (not_found "/users/GNOBODY"), []))
unfolding get is_backend_api_enabled trim api_fetch path_of encode_uri_component
missed = (refl, refl)

path_shaped_example :
    (segments (path_of (get_campaign_orders "../x?y#é"))
      ≡ "" ∷ "campaigns" ∷ encode_uri_component "../x?y#é" ∷ "orders" ∷ [])
    × (count b'?' (path_of (get_campaign_orders "../x?y#é")) ≡ 0)
    × (count b'#' (path_of (get_campaign_orders "../x?y#é")) ≡ 0)
path_shaped_example = path_shaped (get_campaign_orders "../x?y#é")

encoded : encode_uri_component "a/é€" ≡ "a%2F%C3%A9%E2%82%AC"
unfolding encode_uri_component
encoded = refl
