-- ===== src/Client/Rest/Paths.antt =====
-- The paths that are asked for: a key stays within its segment, whatever text it is.
use Prim.Native.Char.{code}
use agrocylo_pip.Prelude.{
  ==_iff, ap, Bool-cases, List, String, [], arith, false, if◌then◌else◌, inl, inr, refl, suc, true,
  zero, ℕ, ◌%◌, ◌+◌, ◌/◌, ◌==◌, ◌∙◌, ◌∷◌, ◌≡◌,
}
use agrocylo_pip.Prelude.Text.{concat}
use agrocylo_pip.Client.Rest.Uri.{
  char_at, encode_uri_component, hex_digit, is_unreserved, percent, utf8,
}
use agrocylo_pip.Client.Rest.Calls.{
  Request, get_campaign, get_campaign_investments, get_campaign_orders, get_campaigns,
  get_investments_by_user, get_order, get_transactions_by_user, get_user, path_of,
}

-- How often a character stands in a text
abbrev pub count : ℕ → String → ℕ
count k String.[] = 0
count k (String.◌∷◌ c s) = let rest = count k s in if code c == k then rest + 1 else rest

count-concat : (k : ℕ) (s t : String) → count k (concat s t) ≡ count k s + count k t
count-concat k String.[] t = ground arith
count-concat k (String.◌∷◌ c s) t = ground (arith, count-concat k s t)

count-char_at : (k n : ℕ) (s : String) → count k s ≡ 0 → count k (char_at n s) ≡ 0
count-char_at k n String.[] h = refl
count-char_at k zero (String.◌∷◌ c s) h = ground arith
count-char_at k (suc n) (String.◌∷◌ c s) h = count-char_at k n s (ground arith)

-- A character that is encoded
record IsReserved (k : ℕ) : Type 0 where
  encoded : is_unreserved k ≡ false
  no_sign : count k "%" ≡ 0
  no_digit : count k "0123456789ABCDEF" ≡ 0

count-percent : (k : ℕ) (bs : List ℕ) → IsReserved k → count k (percent bs) ≡ 0
count-percent k [] h = refl
count-percent k (b ∷ bs) h =
    let high = count-char_at k (b / 16) "0123456789ABCDEF" h.no_digit in
    let low = count-char_at k (b % 16) "0123456789ABCDEF" h.no_digit in
    rw
      (
        count-concat k "%" (concat (hex_digit (b / 16)) (concat (hex_digit (b % 16)) (percent bs))),
        count-concat k (hex_digit (b / 16)) (concat (hex_digit (b % 16)) (percent bs)),
        count-concat k (hex_digit (b % 16)) (percent bs),
        h.no_sign,
        high,
        low,
        count-percent k bs h,
      )
      refl

kept_no_reserved : (k c : ℕ) → is_unreserved k ≡ false → is_unreserved c ≡ true → (c == k) ≡ false
kept_no_reserved k c h e = elim (Bool-cases (c == k)) [
  | inr differs ↦ differs
  | inl same ↦ cc (h, e, (==_iff c k).0 same)
]

count-encode : (k : ℕ) (s : String) → IsReserved k → count k (encode_uri_component s) ≡ 0
unfolding encode_uri_component
count-encode k String.[] h = refl
count-encode k (String.◌∷◌ c s) h = elim (Bool-cases (is_unreserved (code c))) [
  | inl kept ↦ rw kept (rw (kept_no_reserved k (code c) h.encoded kept) (count-encode k s h))
  | inr changed ↦ rw changed (
      rw
        (
          count-concat k (percent (utf8 (code c))) (encode_uri_component s),
          count-percent k (utf8 (code c)) h,
          count-encode k s h,
        )
        refl)
]

-- The segments of a path, what stands between its slashes
abbrev pub to_first : String → List String → List String
to_first s [] = s ∷ []
to_first s (t ∷ ts) = concat s t ∷ ts

unfoldable pub segments : String → List String
segments String.[] = "" ∷ []
segments (String.◌∷◌ c s) =
    let rest = segments s in
    if code c == b'/' then "" ∷ rest else to_first (String.◌∷◌ c String.[]) rest

segments-slash :
    (s t : String) → count b'/' s ≡ 0 → segments (concat s (concat "/" t)) ≡ s ∷ segments t
unfolding segments
segments-slash String.[] t h = refl
segments-slash (String.◌∷◌ c s) t h = elim (Bool-cases (code c == b'/')) [
  | inl slash ↦ absurd (ground arith)
  | inr other ↦ rw other (rw (segments-slash s t (ground arith)) refl)
]

segments-last : (s : String) → count b'/' s ≡ 0 → segments s ≡ s ∷ []
unfolding segments
segments-last String.[] h = refl
segments-last (String.◌∷◌ c s) h = elim (Bool-cases (code c == b'/')) [
  | inl slash ↦ absurd (ground arith)
  | inr other ↦ rw other (rw (segments-last s (ground arith)) refl)
]

count-path :
    (k : ℕ) (root key rest : String)
    → IsReserved k
    → count k (concat root (concat (encode_uri_component key) rest)) ≡ count k root + count k rest
count-path k root key rest h =
    rw
      (
        count-concat k root (concat (encode_uri_component key) rest),
        count-concat k (encode_uri_component key) rest,
        count-encode k key h,
      )
      (ground arith)

count-key :
    (k : ℕ) (root key : String)
    → IsReserved k
    → count k (concat root (encode_uri_component key)) ≡ count k root + 0
count-key k root key h =
    rw (count-concat k root (encode_uri_component key), count-encode k key h) refl

-- How often a character other than those of a key's encoding is in the fixed parts of a path
abbrev fixed : ℕ → Request → ℕ
fixed k get_campaigns = count k "/campaigns"
fixed k (get_campaign id) = count k "/campaigns/" + 0
fixed k (get_campaign_investments id) = count k "/campaigns/" + count k "/investments"
fixed k (get_campaign_orders id) = count k "/campaigns/" + count k "/orders"
fixed k (get_order id) = count k "/orders/" + 0
fixed k (get_user address) = count k "/users/" + 0
fixed k (get_investments_by_user address) = count k "/users/" + count k "/investments"
fixed k (get_transactions_by_user address) = count k "/users/" + count k "/transactions"

count-path_of : (k : ℕ) (r : Request) → IsReserved k → count k (path_of r) ≡ fixed k r
unfolding path_of
count-path_of k get_campaigns h = refl
count-path_of k (get_campaign id) h = count-key k "/campaigns/" id h
count-path_of k (get_campaign_investments id) h = count-path k "/campaigns/" id "/investments" h
count-path_of k (get_campaign_orders id) h = count-path k "/campaigns/" id "/orders" h
count-path_of k (get_order id) h = count-key k "/orders/" id h
count-path_of k (get_user address) h = count-key k "/users/" address h
count-path_of k (get_investments_by_user address) h =
    count-path k "/users/" address "/investments" h
count-path_of k (get_transactions_by_user address) h =
    count-path k "/users/" address "/transactions" h

fixed_lem : (r : Request) → (fixed b'?' r ≡ 0) × (fixed b'#' r ≡ 0)
fixed_lem get_campaigns = (refl, refl)
fixed_lem (get_campaign id) = (refl, refl)
fixed_lem (get_campaign_investments id) = (refl, refl)
fixed_lem (get_campaign_orders id) = (refl, refl)
fixed_lem (get_order id) = (refl, refl)
fixed_lem (get_user address) = (refl, refl)
fixed_lem (get_investments_by_user address) = (refl, refl)
fixed_lem (get_transactions_by_user address) = (refl, refl)

abbrev reserved :
    (k : ℕ)
    → is_unreserved k ≡ false
    → count k "%" ≡ 0
    → count k "0123456789ABCDEF" ≡ 0
    → IsReserved k
reserved k e s d = record { encoded = e; no_sign = s; no_digit = d }

-- The route of a request: its collection, the key that it asks for, and what it asks of that
abbrev pub route : Request → List String
route get_campaigns = "campaigns" ∷ []
route (get_campaign id) = "campaigns" ∷ encode_uri_component id ∷ []
route (get_campaign_investments id) = "campaigns" ∷ encode_uri_component id ∷ "investments" ∷ []
route (get_campaign_orders id) = "campaigns" ∷ encode_uri_component id ∷ "orders" ∷ []
route (get_order id) = "orders" ∷ encode_uri_component id ∷ []
route (get_user address) = "users" ∷ encode_uri_component address ∷ []
route (get_investments_by_user address) =
    "users" ∷ encode_uri_component address ∷ "investments" ∷ []
route (get_transactions_by_user address) =
    "users" ∷ encode_uri_component address ∷ "transactions" ∷ []

no_slash : (key : String) → count b'/' (encode_uri_component key) ≡ 0
no_slash key = count-encode b'/' key (reserved b'/' refl refl refl)

segments-path_of : (r : Request) → segments (path_of r) ≡ "" ∷ route r
unfolding segments path_of
segments-path_of get_campaigns = refl
segments-path_of (get_campaign id) =
    ap (λ ss. "" ∷ "campaigns" ∷ ss) (segments-last (encode_uri_component id) (no_slash id))
segments-path_of (get_campaign_investments id) =
    ap (λ ss. "" ∷ "campaigns" ∷ ss)
      (segments-slash (encode_uri_component id) "investments" (no_slash id))
segments-path_of (get_campaign_orders id) =
    ap (λ ss. "" ∷ "campaigns" ∷ ss)
      (segments-slash (encode_uri_component id) "orders" (no_slash id))
segments-path_of (get_order id) =
    ap (λ ss. "" ∷ "orders" ∷ ss) (segments-last (encode_uri_component id) (no_slash id))
segments-path_of (get_user address) =
    ap (λ ss. "" ∷ "users" ∷ ss) (segments-last (encode_uri_component address) (no_slash address))
segments-path_of (get_investments_by_user address) =
    ap (λ ss. "" ∷ "users" ∷ ss)
      (segments-slash (encode_uri_component address) "investments" (no_slash address))
segments-path_of (get_transactions_by_user address) =
    ap (λ ss. "" ∷ "users" ∷ ss)
      (segments-slash (encode_uri_component address) "transactions" (no_slash address))

-- Whatever the text of its key, what stands between the slashes of a request's path is nothing, and
-- then the segments of the request's route, in which the key is encoded; and the path has neither a
-- query nor a fragment.
pub path_shaped :
    (r : Request)
    → (segments (path_of r) ≡ "" ∷ route r)
      × (count b'?' (path_of r) ≡ 0)
      × (count b'#' (path_of r) ≡ 0)
path_shaped r =
    let (queries, fragments) = fixed_lem r in
    (
      segments-path_of r,
      count-path_of b'?' r (reserved b'?' refl refl refl) ∙ queries,
      count-path_of b'#' r (reserved b'#' refl refl refl) ∙ fragments,
    )
