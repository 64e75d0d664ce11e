-- ===== src/Client/Analytics.antt =====
-- lib/analytics/metrics.ts: the replay of the escrow's events into the campaigns' statuses, and the
-- counts that are made of them. The amounts and the days, which are floating-point numbers and texts
-- of dates, are left out.
use agrocylo_pip.Prelude.{
  Bool, List, String, [], if◌then◌else◌, leb, length, str_eq, suc, ℕ, ◌-◌, ◌∷◌,
}
use agrocylo_pip.Prelude.Text.{is_blank}
use agrocylo_pip.Client.CampaignStatus.{
  CampaignStatusTag, active, disputed, equals, failed, funded, funding, harvested, in_production,
  includes, resolved, settled,
}

-- `EscrowEvent` of lib/soroban/events.ts, as far as the statuses go
pub record EscrowEvent : Type 0 where
  pub name : String
  pub campaign_id : String
  pub ledger : ℕ

-- `campaigns`, in the order of insertion
abbrev pub Statuses : Type 0
Statuses = List (String × CampaignStatusTag)

unfoldable pub assign : String → CampaignStatusTag → Statuses → Statuses
assign k s [] = (k, s) ∷ []
assign k s ((j, t) ∷ cs) =
    let rest = assign k s cs in if str_eq j k then (j, s) ∷ cs else (j, t) ∷ rest

-- `campaign.status = ...` of the campaign that has the id, where there is one
unfoldable pub update : String → (CampaignStatusTag → CampaignStatusTag) → Statuses → Statuses
update k f [] = []
update k f ((j, t) ∷ cs) =
    let rest = update k f cs in if str_eq j k then (j, f t) ∷ cs else (j, t) ∷ rest

-- `if (campaign.status === before) campaign.status = after`
abbrev pub only_from : CampaignStatusTag → CampaignStatusTag → CampaignStatusTag → CampaignStatusTag
only_from before after t = if equals t before then after else t

unfoldable pub replay_named : String → String → Statuses → Statuses
unfolding assign update
replay_named name k cs =
    if str_eq name "CampaignCreated"
    then assign k active cs
    else if str_eq name "ContribReceived"
    then update k (only_from active funding) cs
    else if str_eq name "CampaignFunded"
    then update k (λ _. funded) cs
    else if str_eq name "TrancheReleased"
    then update k (only_from funded in_production) cs
    else if str_eq name "CampaignFailed"
    then update k (λ _. failed) cs
    else if str_eq name "HarvestReported"
    then update k (λ _. harvested) cs
    else if str_eq name "DisputeOpened"
    then update k (λ _. disputed) cs
    else if str_eq name "DisputeResolved"
    then update k (λ _. resolved) cs
    else if str_eq name "CampaignSettled"
    then update k (λ _. settled) cs
    else cs

-- `if (!event.campaignId) continue`
unfoldable pub replay_event : EscrowEvent → Statuses → Statuses
unfolding replay_named
replay_event e cs = if is_blank e.campaign_id then cs else replay_named e.name e.campaign_id cs

unfoldable pub replay : List EscrowEvent → Statuses → Statuses
replay [] cs = cs
replay (e ∷ es) cs = replay es (replay_event e cs)

-- `sort((a, b) => a.ledger - b.ledger)`, which is stable
abbrev pub insert : EscrowEvent → List EscrowEvent → List EscrowEvent
insert e [] = e ∷ []
insert e (d ∷ es) = let rest = insert e es in if leb e.ledger d.ledger then e ∷ d ∷ es else d ∷ rest

abbrev pub sorted : List EscrowEvent → List EscrowEvent
sorted [] = []
sorted (e ∷ es) = insert e (sorted es)

abbrev pub target_reached_statuses : List CampaignStatusTag
target_reached_statuses = funded ∷ in_production ∷ harvested ∷ disputed ∷ resolved ∷ settled ∷ []

abbrev pub campaign_statuses : List CampaignStatusTag
campaign_statuses =
    active ∷ funding ∷ funded ∷ in_production ∷ harvested ∷ disputed ∷ resolved ∷ settled ∷ failed
    ∷ []

-- `filter(...).length`
abbrev pub count_where : (CampaignStatusTag → Bool) → Statuses → ℕ
count_where test [] = 0
count_where test ((k, s) ∷ cs) = let rest = count_where test cs in if test s then suc rest else rest

pub record Counts : Type 0 where
  pub total_campaigns : ℕ
  pub campaigns_by_status : List ℕ
  pub reached_target : ℕ
  pub still_raising : ℕ
  pub failed_campaigns : ℕ

abbrev pub count_all : List CampaignStatusTag → Statuses → List ℕ
count_all [] cs = []
count_all (s ∷ ss) cs = count_where (equals s) cs ∷ count_all ss cs

abbrev pub counts_of : Statuses → Counts
counts_of cs =
    let total = length cs in
    let reached = count_where (includes target_reached_statuses) cs in
    let lost = count_where (equals failed) cs in
    record {
      total_campaigns = total;
      campaigns_by_status = count_all campaign_statuses cs;
      reached_target = reached;
      still_raising = total - reached - lost;
      failed_campaigns = lost;
    }

-- The counts of `computeAnalyticsMetrics`
unfoldable pub compute_analytics_metrics : List EscrowEvent → Counts
unfolding replay replay_event
compute_analytics_metrics events = counts_of (replay (sorted events) [])
