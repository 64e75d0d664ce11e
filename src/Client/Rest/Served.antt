-- ===== src/Client/Rest/Served.antt =====
-- What is served of the local records.
use mathlib.Core.Option.{some-injective}
use agrocylo_pip.Prelude.{
  All, Bool, Bool-cases, List, Option, String, [], ap, eq_iff, false, filter_by, find_by, inl, inr,
  none, refl, some, str_eq, true, ◌∷◌, ◌≡◌,
}
use agrocylo_pip.Client.Rest.Local.{
  users, campaigns, investments, is_some_of, local_campaign, local_order, local_user, orders,
  transactions,
}
use agrocylo_pip.Client.Rest.Http.{Env, Network, Result, is_backend_api_enabled, returned, threw}
use agrocylo_pip.Client.Rest.Calls.{
  Dto, Request, RequestOptions, Value, campaign_list, campaign_of, fall_back, from_backend,
  from_local, get, get_campaign, get_campaign_investments, get_campaign_orders, get_campaigns,
  get_investments_by_user, get_order, get_transactions_by_user, get_user, investment_list, local_of,
  locally, order_list, order_of, require_found, resolve_with, transaction_list, user_of,
}

-- What a request asks for
abbrev pub Matches : Request → Dto → Type 0
Matches get_campaigns (campaign_list cs) = cs ≡ campaigns
Matches (get_campaign id) (campaign_of c) = c.id ≡ id
Matches (get_campaign_investments id) (investment_list is) = All (λ i. i.campaign_id ≡ id) is
Matches (get_campaign_orders id) (order_list os) = All (λ o. o.campaign_id ≡ some id) os
Matches (get_order id) (order_of o) = o.id ≡ id
Matches (get_user address) (user_of u) = u.address ≡ address
Matches (get_investments_by_user address) (investment_list is) = All (λ i. i.investor ≡ address) is
Matches (get_transactions_by_user address) (transaction_list ts) =
    All (λ t. t.user_id ≡ some address) ts
Matches r d = ⊥

find_by-holds :
    {A : Type 0} (p : A → Bool) (xs : List A) (a : A) → find_by p xs ≡ some a → p a ≡ true
find_by-holds p [] a h = cc h
find_by-holds p (x ∷ xs) a h = elim (Bool-cases (p x)) [
  | inl holds ↦ rw (← some-injective _ _ (rw holds at h)) holds
  | inr fails ↦ find_by-holds p xs a (rw fails at h)
]

filter_by-All :
    {A : Type 0} (p : A → Bool) (P : A → Type 0) (xs : List A)
    → ((a : A) → p a ≡ true → P a)
    → All P (filter_by p xs)
filter_by-All p P [] h = tt
filter_by-All p P (x ∷ xs) h = elim (Bool-cases (p x)) [
  | inl holds ↦ rw holds (h x holds, filter_by-All p P xs h)
  | inr fails ↦ rw fails (filter_by-All p P xs h)
]

is_some_of_lem : (s : String) (o : Option String) → is_some_of s o ≡ true → o ≡ some s
is_some_of_lem s none h = cc h
is_some_of_lem s (some t) h = ap some ((eq_iff t s).0 h)

abbrev MatchesAny : Request → Result Dto → Type 0
MatchesAny r (returned d) = Matches r d
MatchesAny r (threw e) = Unit {0}

require_found-Matches :
    {A : Type 0} (r : Request) (dto : A → Dto) (o : Option A) (endpoint : String)
    → ((a : A) → o ≡ some a → Matches r (dto a))
    → MatchesAny r (require_found dto o endpoint)
require_found-Matches r dto none endpoint h = tt
require_found-Matches r dto (some a) endpoint h = h a refl

local_of-Matches : (r : Request) → MatchesAny r (local_of r)
unfolding local_of
local_of-Matches get_campaigns = refl
local_of-Matches (get_campaign id) =
    require_found-Matches (get_campaign id) campaign_of (local_campaign id) _
      (λ c h. (eq_iff c.id id).0 (find_by-holds (λ x. str_eq x.id id) campaigns c h))
local_of-Matches (get_campaign_investments id) =
    filter_by-All _ _ investments (λ i h. (eq_iff i.campaign_id id).0 h)
local_of-Matches (get_campaign_orders id) =
    filter_by-All _ _ orders (λ o h. is_some_of_lem id o.campaign_id h)
local_of-Matches (get_order id) =
    require_found-Matches (get_order id) order_of (local_order id) _
      (λ o h. (eq_iff o.id id).0 (find_by-holds (λ x. str_eq x.id id) orders o h))
local_of-Matches (get_user address) =
    require_found-Matches (get_user address) user_of (local_user address) _ (λ u h.
      (eq_iff u.address address).0 (find_by-holds (λ x. str_eq x.address address) users u h))
local_of-Matches (get_investments_by_user address) =
    filter_by-All _ _ investments (λ i h. (eq_iff i.investor address).0 h)
local_of-Matches (get_transactions_by_user address) =
    filter_by-All _ _ transactions (λ t h. is_some_of_lem address t.user_id h)

module _ (net : Network) (env : Env) where
  -- What is given to the caller is the backend's, or it is local and is what the request asks for.
  abbrev pub IsServed : Request → Result (Value net.Json) → Type 0
  IsServed r (threw e) = Unit {0}
  IsServed r (returned (from_backend j)) = is_backend_api_enabled env ≡ true
  IsServed r (returned (from_local d)) = Matches r d

  locally-IsServed : (r : Request) (a : Result Dto) → MatchesAny r a → IsServed r (locally net a)
  locally-IsServed r (returned d) h = h
  locally-IsServed r (threw e) h = tt

  fall_back-IsServed :
      (r : Request) (a : Result net.Json) (allow : Bool)
      → is_backend_api_enabled env ≡ true
      → IsServed r (fall_back net a (local_of r) allow)
  fall_back-IsServed r (returned j) allow on = on
  fall_back-IsServed r (threw e) true on = locally-IsServed r (local_of r) (local_of-Matches r)
  fall_back-IsServed r (threw e) false on = tt

  -- Every value that a request resolves to comes of the backend, which is then enabled, or is local and
  -- has the key that was asked for; and where the backend is not enabled, nothing is fetched.
  pub served :
      (r : Request) (options : RequestOptions net) (w : net.World)
      → IsServed r (get net env r options w).0
        × (is_backend_api_enabled env ≡ false → (get net env r options w).1 ≡ w)
  unfolding get resolve_with
  served r options w = elim (Bool-cases (is_backend_api_enabled env)) [
    | inr off ↦ rw off (locally-IsServed r (local_of r) (local_of-Matches r), λ h. refl)
    | inl on ↦ (rw on (fall_back-IsServed r _ _ on), λ off. cc (on, off))
  ]
