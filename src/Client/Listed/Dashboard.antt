-- ===== src/Client/Listed/Dashboard.antt =====
-- The marketplace and the administrator's dashboard, which is a part of it.
use agrocylo_pip.Client.Panel.{shown}
use agrocylo_pip.Client.Listed.Named.{is_named}
use agrocylo_pip.Client.Events.{EscrowEvent}
use agrocylo_pip.Client.Accepted.{shows_none}
use agrocylo_pip.Prelude.{Bool, IsListed, List, false, filter_by, not, some, true, ◌↔◌, ◌≡◌}
use agrocylo_pip.Client.Listed.{
  CampaignOverview, Reader, insert, list_actionable, list_all, overview_of,
}
use agrocylo_pip.Client.Listed.Market.{AreDistinct, AreSorted}

abbrev kept_first : Bool → CampaignOverview → List CampaignOverview → List CampaignOverview
kept_first true o os = insert o os
kept_first false o os = os

-- Whether the panel has a form for a campaign
abbrev pub has_form : CampaignOverview → Bool
has_form o = not (shows_none (shown o.campaign.status))

-- What the two hooks list of some events
pub record AreListed (events : List EscrowEvent) (reader : Reader) : Type 0 where
  pub sorted : AreSorted (list_all events reader)
  pub distinct : AreDistinct (list_all events reader)
  pub listed :
      (o : CampaignOverview)
      → IsListed o (list_all events reader)
        ↔ ((is_named events o.id ≡ true) × (overview_of reader o.id ≡ some o))
  pub dashboard : list_actionable events reader ≡ filter_by has_form (list_all events reader)
