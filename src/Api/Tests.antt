-- ===== src/Api/Tests.antt =====
-- Runs of the API, and its theorems at concrete rows.
use mathlib.Core.Bool.{false≢true}
use agrocylo_pip.Prelude.{
  IsListed, List, String, [], ap, arith, drop, eq_iff, false, map, none, refl, some, str_eq, suc,
  sym, take, ℕ, ◌*◌, ◌-◌, ◌∙◌, ◌∷◌, ◌≡◌, ◌≢◌,
}
use agrocylo_pip.Prelude.Int.{pos, ◌+ℤ◌, ◌≤ℤ◌}
use agrocylo_pip.Prelude.Decimal.{parse_ℤ}
use agrocylo_pip.Store.Tables.{Campaign, Table, put}
use agrocylo_pip.Store.Client.{done}
use agrocylo_pip.Store.Action.{returned}
use agrocylo_pip.Api.Campaigns.Paging.{IsSlice, ids_of, pages, pages_cover}
use agrocylo_pip.Api.Rows.{Stamped}
use agrocylo_pip.Api.Investors.{
  Joined, Portfolio, claimable_of, claimable_pool_by_status, pool_in, portfolio, to_position,
}
use agrocylo_pip.Api.Investors.Shares.{portfolio_totals, share_of, shares_within_pool, sum}
use agrocylo_pip.Api.Campaigns.{ListCampaignsQuery, is_selected, list_campaigns, total_pages}
use agrocylo_pip.Api.Campaigns.Order.{AreDistinct, Enumerates}

abbrev campaign : String → ℕ → Campaign
campaign id created = record {
  id = id;
  farmer = "GFARMER";
  title = "Maize";
  description = "";
  target_amount = some (pos 100);
  token_address = none;
  deadline = none;
  status = "Settled";
  total_funded = pos 100;
  escrow_contract = "CESCROW";
  tranche_count = none;
  harvest_outcome = none;
  harvest_reported_at = none;
  refundable = pos 0;
  returnable = pos 50;
  created_at = pos created;
}

abbrev invested : String → ℕ → Joined
invested id amount = record {
  investment = record {
    id = id;
    campaign_id = "7";
    investor = "GINVESTOR";
    amount = pos amount;
    tx_hash = none;
    timestamp = none;
  };
  campaign = campaign "7" 10;
}

abbrev joined : List Joined
joined = invested "a" 33 ∷ invested "b" 66 ∷ []

claimables : map (λ (j : Joined). claimable_of j) joined ≡ "16" ∷ "33" ∷ []
unfolding claimable_of
claimables = refl

portfolio_totals_example :
    (p : Portfolio) × (portfolio "GINVESTOR" (done joined) ≡ returned p)
    × (p.positions ≡ map to_position joined)
    × (parse_ℤ p.total_invested ≡ some (pos 33 +ℤ (pos 66 +ℤ pos 0)))
    × (parse_ℤ p.total_claimable ≡ some (sum (map share_of joined)))
    × (p.position_count ≡ 2)
portfolio_totals_example = portfolio_totals "GINVESTOR" joined

shares_within_pool_example :
    (pos 0 ≤ℤ sum (map share_of joined))
    × (sum (map share_of joined) ≤ℤ pool_in (claimable_pool_by_status "Settled") (campaign "7" 10))
shares_within_pool_example =
    shares_within_pool (campaign "7" 10) joined (refl, (refl, tt)) (omega arith, (omega arith, tt))
      (unfold ◌+ℤ◌ in omega arith) (unfold claimable_pool_by_status in omega arith)

-- Three campaigns on two pages of two
abbrev table : Table Campaign
table = put "c" (campaign "c" 1) (put "b" (campaign "b" 2) (put "a" (campaign "a" 3) (λ k. none)))

abbrev all_three : List Campaign
all_three = campaign "a" 3 ∷ campaign "b" 2 ∷ campaign "c" 1 ∷ []

abbrev any : ListCampaignsQuery
any = record { page = 1; limit = 2; status = none; farmer = none }

abbrev stamped : Campaign → Stamped Campaign
stamped c = record { row = c; at = "2026-01-01T00:00:00.000Z" }

abbrev page_rows : ℕ → List (Stamped Campaign)
page_rows p = map stamped (take 2 (drop ((p - 1) * 2) all_three))

differ : (s t : String) → str_eq s t ≡ false → s ≢ t
differ s t h e = false≢true (sym h ∙ (eq_iff s t).1 e)

rows_of-stamped : (cs : List Campaign) → map (λ (c : Stamped Campaign). c.row) (map stamped cs) ≡ cs
rows_of-stamped [] = refl
rows_of-stamped (c ∷ cs) = ap (◌∷◌ c) (rows_of-stamped cs)

listed : (c : Campaign) → table c.id ≡ some c → IsListed c all_three
listed c row = ground arith

table-AreDistinct : AreDistinct table
table-AreDistinct c d row_c row_d same = ground (arith, listed c row_c, listed d row_d)

all_three-Enumerates : Enumerates table (is_selected any) all_three
unfolding is_selected
all_three-Enumerates = record {
  sound = ((refl, refl), ((refl, refl), ((refl, refl), tt)));
  complete = λ c row chosen. listed c row;
  ordered = (
    ((omega arith, differ "b" "a" refl), ((omega arith, differ "c" "a" refl), tt)),
    (((omega arith, differ "c" "b" refl), tt), (tt, tt)),
  );
}

page_rows-IsSlice : (p : ℕ) → IsSlice table (record any { page = suc p }) (page_rows (suc p))
unfolding is_selected
page_rows-IsSlice p = record {
  every = all_three;
  enumerates = all_three-Enumerates;
  slice = rows_of-stamped (take 2 (drop ((suc p - 1) * 2) all_three));
}

pages_cover_example :
    pages
      (total_pages 3 2)
      (λ p. ids_of (list_campaigns (record any { page = p }) (done (page_rows p)) (done 3)))
    ≡ "a" ∷ "b" ∷ "c" ∷ []
pages_cover_example =
    pages_cover table table-AreDistinct any (omega arith) page_rows page_rows-IsSlice all_three
      all_three-Enumerates
