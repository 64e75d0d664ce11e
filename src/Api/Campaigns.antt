-- ===== src/Api/Campaigns.antt =====
-- server/src/modules/campaigns/campaigns.service.ts: `list`, with the query of dto/list-campaigns.query.dto.ts.
-- The answers of the Prisma client are arguments.
pub mod Order
pub mod Paging
use agrocylo_pip.Prelude.{
  Bool, List, Option, String, if◌then◌else◌, leb, map, none, some, str_eq, true, ℕ, ◌&&◌, ◌*◌, ◌+◌,
  ◌-◌, ◌/◌, ◌||◌,
}
use agrocylo_pip.Prelude.Decimal.{print_ℤ}
use agrocylo_pip.Prelude.Text.{is_blank}
use agrocylo_pip.Js.{Number, at}
use agrocylo_pip.Store.Tables.{Campaign}
use agrocylo_pip.Store.Client.{Response, done, refused}
use agrocylo_pip.Api.Rows.{Answer, Stamped, failed, found, numeric}

pub record CampaignSummary : Type 0 where
  pub id : String
  pub farmer : String
  pub title : String
  pub description : String
  pub target_amount : Option String
  pub token_address : Option String
  pub deadline : Option String
  pub status : String
  pub total_funded : String
  pub escrow_contract : String
  pub tranche_count : Option Number
  pub harvest_outcome : Option String
  pub harvest_reported_at : Option String
  pub refundable : String
  pub returnable : String
  pub created_at : String
  pub updated_at : String

unfoldable pub to_campaign_summary : Stamped Campaign → CampaignSummary
unfolding numeric print_ℤ
to_campaign_summary c = record {
  id = c.row.id;
  farmer = c.row.farmer;
  title = c.row.title;
  description = c.row.description;
  target_amount = numeric c.row.target_amount;
  token_address = c.row.token_address;
  deadline = numeric c.row.deadline;
  status = c.row.status;
  total_funded = print_ℤ c.row.total_funded;
  escrow_contract = c.row.escrow_contract;
  tranche_count = c.row.tranche_count;
  harvest_outcome = c.row.harvest_outcome;
  harvest_reported_at = numeric c.row.harvest_reported_at;
  refundable = print_ℤ c.row.refundable;
  returnable = print_ℤ c.row.returnable;
  created_at = print_ℤ c.row.created_at;
  updated_at = c.at;
}

-- `ListCampaignsQueryDto` after validation
pub record ListCampaignsQuery : Type 0 where
  pub page : ℕ
  pub limit : ℕ
  pub status : Option String
  pub farmer : Option String

-- `...(value ? { column: value } : {})`
abbrev selects : Option String → String → Bool
selects none column = true
selects (some value) column = is_blank value || str_eq column value

-- The rows that `where` selects
unfoldable pub is_selected : ListCampaignsQuery → Campaign → Bool
is_selected q c = selects q.status c.status && selects q.farmer c.farmer

pub record ListMeta : Type 0 where
  pub page : ℕ
  pub limit : ℕ
  pub total : ℕ
  pub total_pages : ℕ

pub record CampaignList : Type 0 where
  pub content : List CampaignSummary
  pub meta : ListMeta

-- `Math.max(1, Math.ceil(total / limit))`, for counts that a double holds
unfoldable pub total_pages : (total limit : ℕ) → ℕ
total_pages total limit =
    let pages = (total + limit - 1) / limit in if leb pages 1 then 1 else pages

-- `skip` of `findMany`; the page is at least 1
abbrev pub skip_of : ListCampaignsQuery → ℕ
skip_of q = (q.page - 1) * q.limit

-- `list`, with the answers of `findMany` and of `count`; `Promise.all` throws where either did.
unfoldable pub list_campaigns :
    ListCampaignsQuery → Response (List (Stamped Campaign)) → Response ℕ → Answer CampaignList
unfolding to_campaign_summary total_pages
list_campaigns q (done rows) (done total) = found (record {
  content = map to_campaign_summary rows;
  meta = record {
    page = q.page;
    limit = q.limit;
    total = total;
    total_pages = total_pages total q.limit;
  };
})
list_campaigns q (refused why) count = failed why
list_campaigns q (done rows) (refused why) = failed why
