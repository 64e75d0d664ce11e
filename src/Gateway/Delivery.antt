-- ===== src/Gateway/Delivery.antt =====
-- Who is sent a campaign event, and when.
use agrocylo_pip.Prelude.{
  All, Bool, List, Option, String, [], ap, arith, if◌then◌else◌, inl, inr, map, none, refl, some,
  str_eq, suc, true, ℕ, ◌++◌, ◌+◌, ◌<◌, ◌∙◌, ◌∷◌, ◌≡◌, ◌⊎◌,
}
use mathlib.Core.Path.{ap₂}
use agrocylo_pip.Js.{Value, member}
use agrocylo_pip.Indexer.Process.{CampaignEventPayload, process_event}
use agrocylo_pip.Store.Client.{Prisma}
use agrocylo_pip.Indexer.Decode.{ok}
use agrocylo_pip.Indexer.Parse.{parse_event}
use agrocylo_pip.Indexer.Persist.{transaction_of}
use agrocylo_pip.Indexer.Process.Broadcast.{broadcast_recorded, process_event-few}
use agrocylo_pip.Indexer.Types.{ParsedEvent, RawSorobanEvent}
use agrocylo_pip.Gateway.Token.{Platform, ok}
use agrocylo_pip.Gateway.Handshake.{Handshake}
use agrocylo_pip.Gateway.Rooms.{activity_room, campaign_room}
use agrocylo_pip.Gateway.Io.{Io, occurrences}
use agrocylo_pip.Gateway.Sockets.{Sockets, broadcast}

-- How many of the copies sent are for a socket
abbrev pub copies_for : String → List (String × CampaignEventPayload) → ℕ
copies_for k [] = 0
copies_for k ((j, _) ∷ sent) = if str_eq j k then suc (copies_for k sent) else copies_for k sent

copies_for-append :
    (k : String) (xs ys : List (String × CampaignEventPayload))
    → copies_for k (xs ++ ys) ≡ copies_for k xs + copies_for k ys
copies_for-append k [] ys = omega arith
copies_for-append k ((j, p) ∷ xs) ys = ground (arith, copies_for-append k xs ys)

copies_for-map :
    (k : String) (payload : CampaignEventPayload) (ids : List String)
    → copies_for k (map (λ j. (j, payload)) ids) ≡ occurrences k ids
copies_for-map k payload [] = refl
copies_for-map k payload (j ∷ ids) = ground (arith, copies_for-map k payload ids)

abbrev pub one_if : Bool → ℕ
one_if b = if b then 1 else 0

All-map :
    (P : String × CampaignEventPayload → Type 0) (payload : CampaignEventPayload)
    → ((k : String) → P (k, payload))
    → (ids : List String) → All P (map (λ k. (k, payload)) ids)
All-map P payload h [] = tt
All-map P payload h (k ∷ ids) = (h k, All-map P payload h ids)

All-append : {A : Type 0} (P : A → Type 0) (xs ys : List A) → All P xs → All P ys → All P (xs ++ ys)
All-append P [] ys h k = k
All-append P (x ∷ xs) ys (h, hs) k = (h, All-append P xs ys hs k)

module _ (io : Io) (platform : Platform) (secret : String) (handshake_of : String → Handshake)
    (template : Value → Option String) where
  -- A broadcast sends a socket one copy for each of the two rooms that it is in, the room of the
  -- event's campaign and the activity room, so none where it is in neither and two where it is in
  -- both; and what is sent is the event itself.
  pub broadcast_reaches :
      (payload : CampaignEventPayload) (s : Sockets (io.State)) (k : String)
      → (copies_for k (broadcast io platform secret handshake_of template payload s)
          ≡ one_if (io.is_in s.rooms k (campaign_room payload.campaign_id))
            + one_if (io.is_in s.rooms k activity_room))
        × All
            (λ (sent : String × CampaignEventPayload). sent.1 ≡ payload)
            (broadcast io platform secret handshake_of template payload s)
  unfolding broadcast
  broadcast_reaches payload s k =
      let campaign = io.recipients s.rooms (campaign_room payload.campaign_id) in
      let activity = io.recipients s.rooms activity_room in
      (
        copies_for-append k (map (λ j. (j, payload)) campaign) (map (λ j. (j, payload)) activity)
            ∙ ap₂ ◌+◌ (copies_for-map k payload campaign ∙ io.recipients_once s.rooms _ k)
                (copies_for-map k payload activity ∙ io.recipients_once s.rooms _ k),
        All-append _ (map (λ j. (j, payload)) campaign) (map (λ j. (j, payload)) activity)
            (All-map _ payload (λ j. refl) campaign) (All-map _ payload (λ j. refl) activity),
      )

  -- `onModuleInit`: the gateway broadcasts each event that the indexer emits.
  unfoldable pub relay :
      List CampaignEventPayload → Sockets (io.State) → List (String × CampaignEventPayload)
  relay [] s = []
  relay (payload ∷ payloads) s =
      broadcast io platform secret handshake_of template payload s ++ relay payloads s

  relay_one :
      (messages : List CampaignEventPayload) (s : Sockets (io.State)) (k : String)
      → (messages ≡ []) ⊎ ((m : CampaignEventPayload) × (messages ≡ m ∷ []))
      → 0 < copies_for k (relay messages s)
      → (m : CampaignEventPayload) × (messages ≡ m ∷ [])
        × ((io.is_in s.rooms k (campaign_room m.campaign_id) ≡ true)
            ⊎ (io.is_in s.rooms k activity_room ≡ true))
  unfolding relay
  relay_one messages s k (inl none_) h =
      absurd (omega (arith, ap (λ ms. copies_for k (relay ms s)) none_))
  relay_one messages s k (inr (m, one)) h =
      let sent = broadcast io platform secret handshake_of template m s in
      let some_sent : (0 < copies_for k (sent ++ [])) = rw one at h in
      let few = copies_for-append k sent [] in (m, one, ground (arith, (broadcast_reaches m s k).0))

  -- A client that is sent a copy when an event is processed is in the room of the event's campaign or
  -- in the activity room, the event parsed and had no audit row before, and the audit row of the
  -- parsed event is in the database.
  pub delivered_recorded :
      (prisma : Prisma) (raw : RawSorobanEvent) (db : prisma.State) (s : Sockets (io.State))
      (k : String)
      → 0 < copies_for k (relay (process_event prisma raw db).0 s)
      → (e : ParsedEvent) × (id : String) × (parse_event raw ≡ ok (some e))
        × ((prisma.view db).transactions e.id ≡ none)
        × ((prisma.view (process_event prisma raw db).1).transactions e.id
            ≡ some (transaction_of e))
        × (e.campaign_id ≡ some id)
        × ((io.is_in s.rooms k (campaign_room id) ≡ true)
            ⊎ (io.is_in s.rooms k activity_room ≡ true))
  delivered_recorded prisma raw db s k h =
      let (m, one, member) =
        relay_one (process_event prisma raw db).0 s k (process_event-few prisma raw db) h in
      let (e, parsed, fresh, recorded, campaign, _, _) = broadcast_recorded prisma raw db m one in
      (e, m.campaign_id, parsed, fresh, recorded, campaign, member)
