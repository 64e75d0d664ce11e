-- ===== src/Indexer/Registry.antt =====
-- The parsers of RegistryContract events, `parseAdminInitialized` to `parseActivityRecorded` of
-- indexer/parsers/event-parser.service.ts.
use agrocylo_pip.Prelude.{
  not, ◌&&◌, ◌-◌, Option, none, some, List, String, ltb, leb, length, if◌then◌else◌,
}
use agrocylo_pip.Js.{Value, string, at}
use agrocylo_pip.Indexer.Types.{
  created, escrow_linked, status_updated, farmer_registered, admin_initialized, admin_updated,
  contract_approved, contract_revoked, activity_recorded,
}
use agrocylo_pip.Indexer.Decode.{
  Result, ok, payload_length, ◌>>=◌, ◌>>◌, throw_if, as_string, as_number, decode_tag, is_tag_like,
  is_activity_action_tag,
}
use agrocylo_pip.Indexer.Build.{Parser, build_event}

unfoldable pub parse_admin_initialized : Parser
parse_admin_initialized raw topics arr = do
  throw_if (ltb (length arr) 3) (payload_length "AdminInitialized" 3)
  admin ← as_string (at arr 0) "admin"
  timestamp ← as_number (at arr 1) "timestamp"
  ledger_sequence ← as_number (at arr 2) "ledgerSequence"
  build_event raw topics
      (admin_initialized
        (record { admin = admin; timestamp = timestamp; ledger_sequence = ledger_sequence }))
      none none none

unfoldable pub parse_admin_updated : Parser
parse_admin_updated raw topics arr = do
  throw_if (ltb (length arr) 5) (payload_length "AdminUpdated" 5)
  actor ← as_string (at arr 0) "actor"
  old_admin ← as_string (at arr 1) "oldAdmin"
  new_admin ← as_string (at arr 2) "newAdmin"
  timestamp ← as_number (at arr 3) "timestamp"
  ledger_sequence ← as_number (at arr 4) "ledgerSequence"
  build_event raw topics
      (admin_updated (record {
        actor = actor;
        old_admin = old_admin;
        new_admin = new_admin;
        timestamp = timestamp;
        ledger_sequence = ledger_sequence;
      }))
      none none none

unfoldable pub parse_contract_approved : Parser
parse_contract_approved raw topics arr = do
  throw_if (ltb (length arr) 4) (payload_length "ContractApproved" 4)
  actor ← as_string (at arr 0) "actor"
  contract ← as_string (at arr 1) "contract"
  timestamp ← as_number (at arr 2) "timestamp"
  ledger_sequence ← as_number (at arr 3) "ledgerSequence"
  build_event raw topics
      (contract_approved (record {
        actor = actor;
        contract = contract;
        timestamp = timestamp;
        ledger_sequence = ledger_sequence;
      }))
      none none none

unfoldable pub parse_contract_revoked : Parser
parse_contract_revoked raw topics arr = do
  throw_if (ltb (length arr) 4) (payload_length "ContractRevoked" 4)
  actor ← as_string (at arr 0) "actor"
  contract ← as_string (at arr 1) "contract"
  timestamp ← as_number (at arr 2) "timestamp"
  ledger_sequence ← as_number (at arr 3) "ledgerSequence"
  build_event raw topics
      (contract_revoked (record {
        actor = actor;
        contract = contract;
        timestamp = timestamp;
        ledger_sequence = ledger_sequence;
      }))
      none none none

-- Slot 1 is a name in the direct shape of arity 4, and only if it is no `ActivityAction` tag.
unfoldable pub name_slot : List Value → Result (Option String)
name_slot arr =
    if leb 4 (length arr) && not (is_activity_action_tag (at arr 1))
    then (as_string (at arr 1) "name" >>= λ s. ok (some s))
    else ok none

unfoldable pub parse_farmer_registered : Parser
parse_farmer_registered raw topics arr = do
  throw_if (ltb (length arr) 3) (payload_length "FarmerRegistered" 3)
  farmer ← as_string (at topics 1) "farmer"
  timestamp ← as_number (at arr (length arr - 2)) "timestamp"
  ledger_sequence ← as_number (at arr (length arr - 1)) "ledgerSequence"
  name ← name_slot arr
  build_event raw topics
      (farmer_registered (record {
        farmer = farmer;
        name = name;
        timestamp = timestamp;
        ledger_sequence = ledger_sequence;
      }))
      none (some farmer) none

-- Slot 1 is a title if it is a string and no `ActivityAction` tag.
unfoldable pub title_slot : Value → Option String
title_slot (string s) = if not (is_activity_action_tag (string s)) then some s else none
title_slot v = none

unfoldable pub parse_campaign_registered : Parser
parse_campaign_registered raw topics arr = do
  throw_if (ltb (length arr) 4) (payload_length "CampaignRegistered" 4)
  campaign_id ← as_string (at topics 1) "campaignId"
  farmer ← as_string (at arr 0) "farmer"
  timestamp ← as_number (at arr (length arr - 2)) "timestamp"
  ledger_sequence ← as_number (at arr (length arr - 1)) "ledgerSequence"
  build_event raw topics
      (created (record {
        campaign_id = campaign_id;
        farmer = farmer;
        title = title_slot (at arr 1);
        timestamp = timestamp;
        ledger_sequence = ledger_sequence;
      }))
      (some campaign_id) (some farmer) none

unfoldable pub parse_campaign_escrow_linked : Parser
parse_campaign_escrow_linked raw topics arr = do
  throw_if (ltb (length arr) 4) (payload_length "CampaignEscrowLinked" 4)
  campaign_id ← as_string (at topics 1) "campaignId"
  farmer ← as_string (at arr 0) "farmer"
  escrow_contract ← as_string (at arr 1) "escrowContract"
  timestamp ← as_number (at arr 2) "timestamp"
  ledger_sequence ← as_number (at arr 3) "ledgerSequence"
  build_event raw topics
      (escrow_linked (record {
        campaign_id = campaign_id;
        farmer = farmer;
        escrow_contract = escrow_contract;
        timestamp = timestamp;
        ledger_sequence = ledger_sequence;
      }))
      (some campaign_id) (some farmer) none

-- The pair of `prevStatus` and `newStatus`, both undefined unless slot 0 has the shape of a tag.
unfoldable pub status_slots : List Value → Result (Option String × Option String)
status_slots arr =
    let tags : Result (Option String × Option String) =
      (decode_tag (at arr 0) "prevStatus" >>= λ prev.
      decode_tag (at arr 1) "newStatus" >>= λ new. ok (some prev, some new)) in
    if is_tag_like (at arr 0) then tags else ok (none, none)

unfoldable pub parse_campaign_status_updated : Parser
parse_campaign_status_updated raw topics arr = do
  throw_if (ltb (length arr) 4) (payload_length "CampaignStatusUpdated" 4)
  campaign_id ← as_string (at topics 1) "campaignId"
  timestamp ← as_number (at arr 2) "timestamp"
  ledger_sequence ← as_number (at arr 3) "ledgerSequence"
  statuses ← status_slots arr
  build_event raw topics
      (status_updated (record {
        campaign_id = campaign_id;
        prev_status = statuses.0;
        new_status = statuses.1;
        timestamp = timestamp;
        ledger_sequence = ledger_sequence;
      }))
      (some campaign_id) none none

unfoldable pub parse_activity_recorded : Parser
parse_activity_recorded raw topics arr = do
  throw_if (ltb (length arr) 4) (payload_length "ActivityRecorded" 4)
  campaign_id ← as_string (at topics 1) "campaignId"
  actor ← as_string (at arr 0) "actor"
  action_type ← decode_tag (at arr 1) "actionType"
  timestamp ← as_number (at arr 2) "timestamp"
  ledger_sequence ← as_number (at arr 3) "ledgerSequence"
  build_event raw topics
      (activity_recorded (record {
        campaign_id = campaign_id;
        actor = actor;
        action_type = action_type;
        timestamp = timestamp;
        ledger_sequence = ledger_sequence;
      }))
      (some campaign_id) none none
