-- ===== src/Indexer/Process.antt =====
-- `processEvent` of indexer/parsers/event-parser.service.ts: parse, persist, then broadcast. It
pub mod Broadcast
-- catches every error, so it always returns; its log lines are left out.
use agrocylo_pip.Prelude.{
  Option, none, some, Bool, true, false, List, [], ◌∷◌, String, str_eq, if◌then◌else◌,
}
use agrocylo_pip.Indexer.Types.{RawSorobanEvent, ParsedEvent, Payload, event_type}
use agrocylo_pip.Indexer.Decode.{Result, ok, thrown}
use agrocylo_pip.Indexer.Parse.{parse_event}
use agrocylo_pip.Indexer.Persist.{persist_event}
use agrocylo_pip.Store.Client.{Prisma}
use agrocylo_pip.Store.Action.{Outcome, returned, threw}

-- `CampaignEventPayload` of websocket/events.types.ts; its `type` and `data` are the payload.
pub record CampaignEventPayload : Type 0 where
  pub type : String
  pub campaign_id : String
  pub content : Payload

-- `if (parsed.campaignId) emitCampaignEvent(...)`: undefined and the empty text are falsy.
unfoldable pub campaign_event : ParsedEvent → Option String → List CampaignEventPayload
campaign_event parsed none = []
campaign_event parsed (some id) =
    if str_eq id ""
    then []
    else (record { type = event_type parsed.payload; campaign_id = id; content = parsed.payload }
        ∷ [])

-- What is broadcast after `persistEvent` ended so
unfoldable pub broadcast_after : ParsedEvent → Outcome Bool → List CampaignEventPayload
broadcast_after parsed (returned true) = campaign_event parsed parsed.campaign_id
broadcast_after parsed (returned false) = []
broadcast_after parsed (threw _) = []

module _ (prisma : Prisma) where
  unfoldable pub process_parsed :
      Result (Option ParsedEvent) → prisma.State → List CampaignEventPayload × prisma.State
  process_parsed (thrown _) s = ([], s)
  process_parsed (ok none) s = ([], s)
  process_parsed (ok (some parsed)) s =
      let (persisted, s') = persist_event prisma parsed s in (broadcast_after parsed persisted, s')

  unfoldable pub process_event :
      RawSorobanEvent → prisma.State → List CampaignEventPayload × prisma.State
  process_event raw = process_parsed (parse_event raw)
