-- ===== src/Indexer/Tests.antt =====
-- Runs of the indexer over a client in memory, and its theorems at concrete events.
use agrocylo_pip.Prelude.{◌≡◌, ◌≢◌, refl, none, some, true, [], ◌∷◌, String}
use agrocylo_pip.Prelude.Int.{pos}
use agrocylo_pip.Prelude.Decimal.{print_ℤ, parse_ℤ}
use agrocylo_pip.Prelude.Text.{has}
use agrocylo_pip.Js.{int, string, bigint, array, nil, cons, to_number, at, or_else}
use agrocylo_pip.Indexer.Types.{RawSorobanEvent, ParsedEvent, Payload, event_type}
use agrocylo_pip.Indexer.Decode.{
  ok, as_string, as_big_int, as_number, is_activity_action_tag, decode_tag,
}
use agrocylo_pip.Indexer.Build.{build_event}
use agrocylo_pip.Indexer.Escrow.{parse_campaign_escrow_created, parse_campaign_invested}
use agrocylo_pip.Indexer.Parse.{parse_event, lookup}
use agrocylo_pip.Indexer.Parse.Spec.{IsFaithful, indexed_types}
use agrocylo_pip.Indexer.Parse.Faithful.{parse_event_faithful}
use agrocylo_pip.Indexer.Handlers.{ensure_user, handle_campaign_escrow_created, handle}
use agrocylo_pip.Indexer.Persist.{persist_event, persist_new, transaction_of}
use agrocylo_pip.Indexer.Process.{
  CampaignEventPayload, process_event, process_parsed, broadcast_after, campaign_event,
}
use agrocylo_pip.Indexer.Process.Broadcast.{broadcast_recorded, broadcast_once, Later}
use agrocylo_pip.Indexer.Persist.Once.{persist_event_again}
use agrocylo_pip.Store.Action.{
  returned, ◌>>=◌, run, find_transaction, big_int_of_number, big_int_of_text,
}
use agrocylo_pip.Store.Memory.{Memory, in_memory, starting_with, write}

unfoldable pub indexer : Unit {0}
unfolding parse_event lookup as_string as_big_int as_number has is_activity_action_tag decode_tag
    build_event parse_campaign_escrow_created parse_campaign_invested to_number print_ℤ parse_ℤ
    persist_event persist_new handle ensure_user handle_campaign_escrow_created process_event
    process_parsed broadcast_after campaign_event ◌>>=◌ run find_transaction big_int_of_number
    big_int_of_text write
indexer = tt

-- `CampaignCreated` of campaign 7 with a target of 5000
abbrev pub raw_created : RawSorobanEvent
raw_created = record {
  id = "0001-1";
  type = "contract";
  contract_id = some "CESCROW";
  topic = string "CampaignCreated" ∷ bigint (pos 7) ∷ [];
  value = array (cons (string "GFARMER") (cons (bigint (pos 1700)) (cons (bigint (pos 5000)) nil)));
  ledger = 12;
  ledger_closed_at = "2026-01-01T00:00:00Z";
  tx_hash = "ab12";
}

abbrev pub created : ParsedEvent
created = record {
  id = "0001-1";
  payload = Payload.escrow_created (record {
    campaign_id = "7";
    farmer = "GFARMER";
    timestamp = int (pos 1700);
    target_amount = "5000";
  });
  contract_event = "CampaignCreated";
  contract_id = "CESCROW";
  ledger = 12;
  tx_hash = "ab12";
  raw_topics = raw_created.topic;
  raw_value = raw_created.value;
  campaign_id = some "7";
  user_address = some "GFARMER";
  amount = none;
}

parse_raw_created : parse_event raw_created ≡ ok (some created)
unfolding indexer
parse_raw_created = refl

abbrev message : CampaignEventPayload
message = record { type = "campaign.escrow_created"; campaign_id = "7"; content = created.payload }

abbrev empty : Memory
empty = starting_with []

sent_created : (process_event in_memory raw_created empty).0 ≡ message ∷ []
unfolding indexer
sent_created = refl

parse_event_faithful_example :
    IsFaithful raw_created created
    × (name : String) × (as_string (or_else (at raw_created.topic 0) (string "")) "eventName"
        ≡ ok name)
    × (lookup name indexed_types ≡ some "campaign.escrow_created")
parse_event_faithful_example = parse_event_faithful raw_created created parse_raw_created

broadcast_recorded_example :
    (e : ParsedEvent) × (parse_event raw_created ≡ ok (some e))
    × (empty.tables.transactions e.id ≡ none)
    × ((process_event in_memory raw_created empty).1.tables.transactions e.id
        ≡ some (transaction_of e))
    × (e.campaign_id ≡ some "7")
    × ("campaign.escrow_created" ≡ event_type e.payload)
    × (created.payload ≡ e.payload)
broadcast_recorded_example = broadcast_recorded in_memory raw_created empty message sent_created

broadcast_once_example :
    let s = (process_event in_memory raw_created empty).1 in
    ((process_event in_memory raw_created s).0 ≡ [])
    × ((process_event in_memory raw_created s).1.tables ≡ s.tables)
broadcast_once_example =
    broadcast_once in_memory raw_created empty message sent_created
      (process_event in_memory raw_created empty).1 Later.now raw_created refl

recorded :
    (process_event in_memory raw_created empty).1.tables.transactions "0001-1"
    ≡ some (transaction_of created)
unfolding indexer
recorded = refl

persist_event_again_example :
    let s = (process_event in_memory raw_created empty).1 in
    ((persist_event in_memory created s).0 ≢ returned true)
    × ((persist_event in_memory created s).1.tables ≡ s.tables)
persist_event_again_example =
    persist_event_again in_memory created (transaction_of created)
      (process_event in_memory raw_created empty).1 recorded
