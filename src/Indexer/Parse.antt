-- ===== src/Indexer/Parse.antt =====
-- `parseEvent` of indexer/parsers/event-parser.service.ts.
pub mod Spec
pub mod Faithful
use agrocylo_pip.Prelude.{Option, none, some, List, [], ◌∷◌, String, str_eq, if◌then◌else◌}
use agrocylo_pip.Js.{Value, string, array, elements, at, or_else}
use agrocylo_pip.Indexer.Types.{RawSorobanEvent, ParsedEvent}
use agrocylo_pip.Indexer.Decode.{Result, ok, ◌>>=◌, as_string}
use agrocylo_pip.Indexer.Build.{Parser}
use agrocylo_pip.Indexer.Escrow.{
  parse_campaign_escrow_created, parse_campaign_invested, parse_contrib_reconciled,
  parse_campaign_funded, parse_tranches_configured, parse_tranche_released, parse_harvest_reported,
  parse_campaign_failed, parse_return_claimed, parse_refund_claimed, parse_dispute_opened,
  parse_dispute_resolved, parse_campaign_settled,
}
use agrocylo_pip.Indexer.Registry.{
  parse_admin_initialized, parse_admin_updated, parse_contract_approved, parse_contract_revoked,
  parse_farmer_registered, parse_campaign_registered, parse_campaign_escrow_linked,
  parse_campaign_status_updated, parse_activity_recorded,
}

-- The cases of the `switch`, in order
abbrev pub cases : List (String × Parser)
cases =
    ("CampaignCreated", parse_campaign_escrow_created)
    ∷ ("ContribReceived", parse_campaign_invested)
    ∷ ("ContribReconciled", parse_contrib_reconciled)
    ∷ ("CampaignFunded", parse_campaign_funded)
    ∷ ("TranchesConfigured", parse_tranches_configured)
    ∷ ("TrancheReleased", parse_tranche_released)
    ∷ ("HarvestReported", parse_harvest_reported)
    ∷ ("CampaignFailed", parse_campaign_failed)
    ∷ ("ReturnClaimed", parse_return_claimed)
    ∷ ("RefundClaimed", parse_refund_claimed)
    ∷ ("DisputeOpened", parse_dispute_opened)
    ∷ ("DisputeResolved", parse_dispute_resolved)
    ∷ ("CampaignSettled", parse_campaign_settled)
    ∷ ("AdminInitialized", parse_admin_initialized)
    ∷ ("AdminUpdated", parse_admin_updated)
    ∷ ("ContractApproved", parse_contract_approved)
    ∷ ("ContractRevoked", parse_contract_revoked)
    ∷ ("FarmerRegistered", parse_farmer_registered)
    ∷ ("CampaignRegistered", parse_campaign_registered)
    ∷ ("CampaignEscrowLinked", parse_campaign_escrow_linked)
    ∷ ("CampaignStatusUpdated", parse_campaign_status_updated)
    ∷ ("ActivityRecorded", parse_activity_recorded)
    ∷ []

-- `switch (name)`: the first case with the label, or the default
unfoldable pub lookup {ℓ} : {A : Type ℓ} → String → List (String × A) → Option A
lookup name [] = none
lookup name ((label, a) ∷ rest) = if str_eq label name then some a else lookup name rest

-- `Array.isArray(v) ? v : []`
abbrev pub payload_array : Value → List Value
payload_array (array vs) = elements vs
payload_array v = []

abbrev pub run_case : RawSorobanEvent → Option Parser → Result (Option ParsedEvent)
run_case raw none = ok none
run_case raw (some parser) =
    parser raw raw.topic (payload_array raw.value) >>= λ parsed. ok (some parsed)

unfoldable pub parse_event : RawSorobanEvent → Result (Option ParsedEvent)
unfolding lookup
parse_event raw = do
  name ← as_string (or_else (at raw.topic 0) (string "")) "eventName"
  run_case raw (lookup name cases)
