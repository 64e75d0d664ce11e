-- ===== src/Api/Investors.antt =====
-- server/src/modules/investors/investors.service.ts. The rows that `findMany` gives are an argument;
-- it throws only where the call does, and so does `BigInt` of a text that is no integer.
pub mod Shares
use agrocylo_pip.Prelude.{
  List, Option, String, [], if◌then◌else◌, length, map, none, some, str_eq, ℕ, ◌&&◌, ◌∷◌,
}
use agrocylo_pip.Prelude.Int.{ltb_ℤ, pos, ℤ, ◌*ℤ◌, ◌+ℤ◌}
use agrocylo_pip.Prelude.Decimal.{parse_ℤ, print_ℤ}
use agrocylo_pip.Prelude.Division.{◌/ℤ◌}
use agrocylo_pip.Store.Tables.{Campaign, Investment}
use agrocylo_pip.Store.Client.{Response, done, refused}
use agrocylo_pip.Store.Action.{Outcome, call_refused, not_an_integer, returned, threw}
use agrocylo_pip.Api.Rows.{numeric}

-- An investment with its campaign: `include: { campaign: true }`
pub record Joined : Type 0 where
  pub investment : Investment
  pub campaign : Campaign

pub data Pool : Type 0 where
  refundable returnable : Pool

-- `CLAIMABLE_POOL_BY_STATUS[status]`; a name that every JavaScript object has leads to no pool
-- either, since the row has no column of what is found there.
unfoldable pub claimable_pool_by_status : String → Option Pool
claimable_pool_by_status status =
    if str_eq status "Resolved"
    then some refundable
    else if str_eq status "Failed"
    then some refundable
    else if str_eq status "Settled"
    then some returnable
    else none

abbrev pub pool_column : Pool → Campaign → ℤ
pool_column refundable c = c.refundable
pool_column returnable c = c.returnable

-- The pool that a campaign's status opens, or 0n where it opens none
abbrev pub pool_in : Option Pool → Campaign → ℤ
pool_in none c = pos 0
pool_in (some p) c = pool_column p c

-- The two guards: a positive total, and a positive pool
unfoldable pub share : ℤ → ℤ → ℤ → ℤ
unfolding ◌*ℤ◌ ◌/ℤ◌
share amount pool total =
    if ltb_ℤ (pos 0) total && ltb_ℤ (pos 0) pool then amount *ℤ pool /ℤ total else pos 0

unfoldable pub claimable_of : Joined → String
unfolding share claimable_pool_by_status print_ℤ
claimable_of j = print_ℤ (
    share j.investment.amount (pool_in (claimable_pool_by_status j.campaign.status) j.campaign)
      j.campaign.total_funded)

pub record Position : Type 0 where
  pub investment_id : String
  pub campaign_id : String
  pub campaign_title : String
  pub campaign_status : String
  pub amount : String
  pub tx_hash : Option String
  pub timestamp : Option String
  pub claimable : String

unfoldable pub to_position : Joined → Position
unfolding claimable_of numeric
to_position j = record {
  investment_id = j.investment.id;
  campaign_id = j.campaign.id;
  campaign_title = j.campaign.title;
  campaign_status = j.campaign.status;
  amount = print_ℤ j.investment.amount;
  tx_hash = j.investment.tx_hash;
  timestamp = numeric j.investment.timestamp;
  claimable = claimable_of j;
}

pub record Portfolio : Type 0 where
  pub address : String
  pub positions : List Position
  pub total_invested : String
  pub total_claimable : String
  pub position_count : ℕ

-- `investments.reduce((sum, inv) => sum + inv.amount, 0n)`
unfoldable pub invested_from : ℤ → List Joined → ℤ
unfolding ◌+ℤ◌
invested_from sum [] = sum
invested_from sum (j ∷ js) = invested_from (sum +ℤ j.investment.amount) js

abbrev add_to : ℤ → Option ℤ → Option ℤ
add_to sum none = none
add_to sum (some z) = some (sum +ℤ z)

-- `positions.reduce((sum, p) => sum + BigInt(p.claimable), 0n)`, none where `BigInt` throws
unfoldable pub claimable_from : Option ℤ → List Position → Option ℤ
unfolding parse_ℤ ◌+ℤ◌
claimable_from none ps = none
claimable_from (some sum) [] = some sum
claimable_from (some sum) (p ∷ ps) = claimable_from (add_to sum (parse_ℤ p.claimable)) ps

abbrev portfolio_with : String → List Joined → Option ℤ → Outcome Portfolio
portfolio_with address js none = threw not_an_integer
portfolio_with address js (some claimable) = returned (record {
  address = address;
  positions = map to_position js;
  total_invested = print_ℤ (invested_from (pos 0) js);
  total_claimable = print_ℤ claimable;
  position_count = length js;
})

unfoldable pub portfolio : String → Response (List Joined) → Outcome Portfolio
unfolding to_position invested_from claimable_from print_ℤ
portfolio address (refused why) = threw (call_refused why)
portfolio address (done js) =
    portfolio_with address js (claimable_from (some (pos 0)) (map to_position js))
