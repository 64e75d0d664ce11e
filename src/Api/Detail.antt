-- ===== src/Api/Detail.antt =====
-- `detail` and `activity` of server/src/modules/campaigns/campaigns.service.ts. The answers of the
-- Prisma client are arguments.
use agrocylo_pip.Prelude.{List, Option, String, [], map, none, some, ℕ, ◌∷◌}
use agrocylo_pip.Prelude.Int.{pos, ℤ}
use agrocylo_pip.Prelude.Decimal.{print_ℤ}
use agrocylo_pip.Store.Tables.{Campaign, Dispute, Tranche, Transaction}
use agrocylo_pip.Store.Client.{Response, done, refused}
use agrocylo_pip.Api.Rows.{Answer, Stamped, failed, found, not_found, numeric}
use agrocylo_pip.Api.Campaigns.{CampaignSummary, to_campaign_summary}

pub record TrancheView : Type 0 where
  pub id : String
  pub recipient : String
  pub amount : String
  pub released_at : String
  pub tx_hash : Option String

pub record DisputeView : Type 0 where
  pub id : String
  pub opener : String
  pub reason : String
  pub status : String
  pub resolution : Option String
  pub admin : Option String
  pub payout_to_farmer : Option String
  pub refundable_to_investors : Option String
  pub opened_at : String
  pub resolved_at : Option String

pub record LatestDispute : Type 0 where
  pub id : String
  pub status : String
  pub resolution : Option String

pub record FundingSummary : Type 0 where
  pub target_amount : Option String
  pub total_funded : String
  pub refundable : String
  pub returnable : String
  pub investment_count : ℕ
  pub invested_total : String

pub record CampaignDetail : Type 0 where
  pub summary : CampaignSummary
  pub tranches : List TrancheView
  pub disputes : List DisputeView
  pub latest_dispute : Option LatestDispute
  pub funding_summary : FundingSummary

unfoldable pub tranche_view : Tranche → TrancheView
unfolding print_ℤ
tranche_view t = record {
  id = t.id;
  recipient = t.recipient;
  amount = print_ℤ t.amount;
  released_at = print_ℤ t.released_at;
  tx_hash = t.tx_hash;
}

unfoldable pub dispute_view : Dispute → DisputeView
unfolding numeric print_ℤ
dispute_view d = record {
  id = d.id;
  opener = d.opener;
  reason = d.reason;
  status = d.status;
  resolution = d.resolution;
  admin = d.admin;
  payout_to_farmer = numeric d.payout_to_farmer;
  refundable_to_investors = numeric d.refundable_to_investors;
  opened_at = print_ℤ d.opened_at;
  resolved_at = numeric d.resolved_at;
}

-- `disputes.length > 0 ? { ... disputes[0] ... } : null`
unfoldable pub latest_of : List Dispute → Option LatestDispute
latest_of [] = none
latest_of (d ∷ ds) = some (record { id = d.id; status = d.status; resolution = d.resolution })

-- A campaign with `include: { tranches, disputes }`
pub record Included : Type 0 where
  pub campaign : Stamped Campaign
  pub tranches : List Tranche
  pub disputes : List Dispute

-- `_count._all` and `_sum.amount`
pub record InvestmentAggregate : Type 0 where
  pub count : ℕ
  pub sum : Option ℤ

abbrev or_zero : Option ℤ → ℤ
or_zero none = pos 0
or_zero (some z) = z

unfoldable pub detail_of : Included → InvestmentAggregate → CampaignDetail
unfolding to_campaign_summary tranche_view dispute_view latest_of
detail_of i agg =
    let c = i.campaign.row in
    record {
      summary = to_campaign_summary i.campaign;
      tranches = map tranche_view i.tranches;
      disputes = map dispute_view i.disputes;
      latest_dispute = latest_of i.disputes;
      funding_summary = record {
        target_amount = numeric c.target_amount;
        total_funded = print_ℤ c.total_funded;
        refundable = print_ℤ c.refundable;
        returnable = print_ℤ c.returnable;
        investment_count = agg.count;
        invested_total = print_ℤ (or_zero agg.sum);
      };
    }

-- `detail`, with the answers of `findUnique` and, where that found a row, of `aggregate`
unfoldable pub detail :
    String → Response (Option Included) → Response InvestmentAggregate → Answer CampaignDetail
unfolding detail_of
detail id (refused why) agg = failed why
detail id (done none) agg = not_found id
detail id (done (some i)) (refused why) = failed why
detail id (done (some i)) (done agg) = found (detail_of i agg)

pub record ActivityItem : Type 0 where
  pub id : String
  pub type : String
  pub amount : Option String
  pub tx_hash : Option String
  pub status : String
  pub timestamp : Option String
  pub created_at : String

unfoldable pub activity_item : Stamped Transaction → ActivityItem
unfolding numeric
activity_item t = record {
  id = t.row.id;
  type = t.row.type;
  amount = numeric t.row.amount;
  tx_hash = t.row.tx_hash;
  status = t.row.status;
  timestamp = numeric t.row.timestamp;
  created_at = t.at;
}

-- `activity`, with the answers of `findUnique`, which selects the id, and of `findMany`
unfoldable pub activity :
    String
    → Response (Option String)
    → Response (List (Stamped Transaction))
    → Answer (List ActivityItem)
unfolding activity_item
activity id (refused why) rows = failed why
activity id (done none) rows = not_found id
activity id (done (some _)) (refused why) = failed why
activity id (done (some _)) (done rows) = found (map activity_item rows)
