-- ===== src/Client/Listed/Tests.antt =====
-- Events that name campaign 7 twice, campaign 12, one that the contract has not, and none.
use agrocylo_pip.Prelude.{
  List, Option, String, [], if◌then◌else◌, none, refl, some, ℕ, ◌==◌, ◌∷◌, ◌≡◌,
}
use agrocylo_pip.Prelude.Int.{negsuc, pos}
use agrocylo_pip.Prelude.BigInt.{big_int}
use agrocylo_pip.Js.{to_number}
use agrocylo_pip.Client.CampaignStatus.{CampaignStatusTag, funded, settled}
use agrocylo_pip.Client.Admin.{Campaign}
use agrocylo_pip.Client.Events.{EscrowEvent}
use agrocylo_pip.Client.Listed.{Reader, insert, list_actionable, list_all, rank}

abbrev naming : String → EscrowEvent
naming id = record {
  id = "e";
  ledger = 1;
  ledger_closed_at = "";
  campaign_id = id;
  name = "CampaignFunded";
  values = [];
}

abbrev some_events : List EscrowEvent
some_events = naming "7" ∷ naming "" ∷ naming "12" ∷ naming "7" ∷ naming "99" ∷ []

abbrev campaign_in : CampaignStatusTag → Campaign
campaign_in s = record {
  farmer = "GFARMER";
  status = s;
  total_funded = pos 10;
  released = pos 0;
  refundable = pos 0;
  returnable = pos 0;
}

abbrev answer_at : ℕ → Option Campaign
answer_at n =
    if n == 7
    then some (campaign_in funded)
    else if n == 12
    then some (campaign_in settled)
    else none

abbrev two_campaigns : Reader
two_campaigns (pos n) = answer_at n
two_campaigns (negsuc n) = none

two_are_listed :
    (list_all some_events two_campaigns
      ≡ record { id = "12"; campaign = campaign_in settled }
        ∷ record { id = "7"; campaign = campaign_in funded }
        ∷ [])
    × (list_actionable some_events two_campaigns
        ≡ record { id = "7"; campaign = campaign_in funded } ∷ [])
unfolding list_all list_actionable rank big_int to_number insert
two_are_listed = (refl, refl)
