-- ===== src/Client/Listed.antt =====
-- hooks/useAllCampaigns.ts and hooks/useAdminCampaigns.ts: the campaigns that the events name, as the
-- contract has them. A query that rejects is `none`.
pub mod Named
pub mod Market
pub mod Dashboard
pub mod Tests
use agrocylo_pip.Prelude.{
  Bool, List, Option, String, [], filter_by, if◌then◌else◌, none, some, ℕ, ◌++◌, ◌||◌, ◌∷◌,
}
use agrocylo_pip.Prelude.Int.{ltb_ℤ, pos, ℤ}
use agrocylo_pip.Prelude.BigInt.{big_int}
use agrocylo_pip.Prelude.Text.{has, is_blank}
use agrocylo_pip.Js.{Number, int, other, to_number}
use agrocylo_pip.Client.CampaignStatus.{includes}
use agrocylo_pip.Client.Admin.{Campaign}
use agrocylo_pip.Client.Panel.{actionable_statuses}
use agrocylo_pip.Client.Events.{EscrowEvent, EventServer, load_recent_escrow_events}

pub record CampaignOverview : Type 0 where
  pub id : String
  pub campaign : Campaign

-- What `get_campaign` answers, through a client that was got; none where the call throws
abbrev pub Reader : Type 0
Reader = ℤ → Option Campaign

-- `new Set(events.map((event) => event.campaignId).filter(Boolean))`
unfoldable pub add_id : List String → String → List String
unfolding has
add_id ids id = if is_blank id || has ids id then ids else ids ++ id ∷ []

unfoldable pub add_ids : List String → List EscrowEvent → List String
unfolding add_id
add_ids ids [] = ids
add_ids ids (e ∷ es) = add_ids (add_id ids e.campaign_id) es

abbrev pub read_at : Reader → String → Option ℤ → Option CampaignOverview
read_at reader id none = none
read_at reader id (some n) = elim (reader n) [
  | none ↦ none
  | some c ↦ some (record { id = id; campaign = c })
]

-- One campaign; none where its id is no integer, or the call throws
abbrev pub overview_of : Reader → String → Option CampaignOverview
overview_of reader id = read_at reader id (big_int id)

abbrev pub cons_some : Option CampaignOverview → List CampaignOverview → List CampaignOverview
cons_some none os = os
cons_some (some o) os = o ∷ os

-- `Promise.all`, and the filter of what is not null
abbrev pub overviews : Reader → List String → List CampaignOverview
overviews reader [] = []
overviews reader (id ∷ ids) = cons_some (overview_of reader id) (overviews reader ids)

abbrev finite_part : Number → ℤ
finite_part (int z) = z
finite_part (other s) = pos 0

abbrev rank_at : Option ℤ → ℤ
rank_at none = pos 0
rank_at (some z) = finite_part (to_number z)

-- `Number(o.id)`, which is finite for the 64 bits of an id
unfoldable pub rank : CampaignOverview → ℤ
unfolding big_int to_number
rank o = rank_at (big_int o.id)

-- `sort((a, b) => Number(b.id) - Number(a.id))`, which is stable
unfoldable pub insert : CampaignOverview → List CampaignOverview → List CampaignOverview
insert o [] = o ∷ []
insert o (p ∷ ps) =
    let rest = insert o ps in if ltb_ℤ (rank o) (rank p) then p ∷ rest else o ∷ p ∷ ps

unfoldable pub latest_first : List CampaignOverview → List CampaignOverview
unfolding insert
latest_first [] = []
latest_first (o ∷ os) = insert o (latest_first os)

-- `ACTIONABLE_STATUSES.includes(o.campaign.status.tag)`
abbrev pub is_actionable : CampaignOverview → Bool
is_actionable o = includes actionable_statuses o.campaign.status

unfoldable pub list_all : List EscrowEvent → Reader → List CampaignOverview
unfolding latest_first add_ids
list_all events reader = latest_first (overviews reader (add_ids [] events))

unfoldable pub list_actionable : List EscrowEvent → Reader → List CampaignOverview
unfolding latest_first add_ids
list_actionable events reader =
    latest_first (filter_by is_actionable (overviews reader (add_ids [] events)))

abbrev query :
    (List EscrowEvent → Reader → List CampaignOverview)
    → Option (List EscrowEvent)
    → Option Reader
    → Option (List CampaignOverview)
query list none reader = none
query list (some events) none = none
query list (some events) (some reader) = some (list events reader)

-- The queries of the two hooks, over the events of the last ledgers and the client
unfoldable pub all_campaigns :
    EventServer → (lookback_ledgers : ℕ) → Option Reader → Option (List CampaignOverview)
unfolding load_recent_escrow_events list_all
all_campaigns server lookback reader =
    query list_all (load_recent_escrow_events server lookback) reader

unfoldable pub admin_campaigns :
    EventServer → (lookback_ledgers : ℕ) → Option Reader → Option (List CampaignOverview)
unfolding load_recent_escrow_events list_actionable
admin_campaigns server lookback reader =
    query list_actionable (load_recent_escrow_events server lookback) reader
