-- ===== src/Client/QueryKeys.antt =====
-- hooks/contract/queryKeys.ts: under which keys what was read of the contracts is kept.
use agrocylo_pip.Prelude.{List, String, [], ◌∷◌}

-- `invalidateQueries` takes a key for all keys that begin with it.
abbrev pub QueryKey : Type 0
QueryKey = List String

abbrev pub campaign_key : String → QueryKey
campaign_key campaign_id = "campaign" ∷ campaign_id ∷ []

abbrev pub dispute_key : String → QueryKey
dispute_key campaign_id = "dispute" ∷ campaign_id ∷ []

abbrev pub contribution_key : (campaign_id address : String) → QueryKey
contribution_key campaign_id address = "contribution" ∷ campaign_id ∷ address ∷ []

abbrev pub tranches_key : String → QueryKey
tranches_key campaign_id = "tranches" ∷ campaign_id ∷ []

abbrev pub harvest_record_key : String → QueryKey
harvest_record_key campaign_id = "harvestRecord" ∷ campaign_id ∷ []

abbrev pub farmer_key : String → QueryKey
farmer_key address = "farmer" ∷ address ∷ []

abbrev pub farmer_campaigns_key : String → QueryKey
farmer_campaigns_key address = "farmerCampaigns" ∷ address ∷ []

abbrev pub activity_key : String → QueryKey
activity_key campaign_id = "activity" ∷ campaign_id ∷ []

abbrev pub escrow_admin_key : QueryKey
escrow_admin_key = "escrowAdmin" ∷ []

abbrev pub admin_campaigns_overview_key : QueryKey
admin_campaigns_overview_key = "adminCampaignsOverview" ∷ []

abbrev pub all_campaigns_key : QueryKey
all_campaigns_key = "allCampaigns" ∷ []
