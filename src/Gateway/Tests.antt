-- ===== src/Gateway/Tests.antt =====
-- Runs of the gateway, and its theorems at concrete clients.
use agrocylo_pip.Store.Tables.{Transaction}
use agrocylo_pip.Gateway.Delivery.{broadcast_reaches, copies_for, delivered_recorded, one_if, relay}
use agrocylo_pip.Gateway.Origin.{
  IsMissing, IsOneOf, create_io_server, create_web_socket_gateway_options, origin_checks,
}
use agrocylo_pip.Indexer.Types.{ParsedEvent}
use agrocylo_pip.Indexer.Parse.{parse_event}
use agrocylo_pip.Indexer.Persist.{transaction_of}
use agrocylo_pip.Indexer.Process.{CampaignEventPayload, process_event}
use agrocylo_pip.Store.Memory.{in_memory, starting_with}
use agrocylo_pip.Prelude.{
  All, IsListed, List, Option, String, [], arith, none, refl, some, true, ℕ, ◌+◌, ◌↔◌, ◌∷◌, ◌≡◌,
  ◌≢◌, ◌⊎◌,
}
use agrocylo_pip.Js.{Value, end, int, property, string}
use agrocylo_pip.Prelude.Int.{pos}
use agrocylo_pip.Indexer.Decode.{ok as parsed_as}
use agrocylo_pip.Indexer.Tests.{raw_created, created as created_event, indexer}
use agrocylo_pip.Gateway.Token.{
  WsAuthClaims, expired, invalid_signature, ok, thrown, verify_ws_token,
}
use agrocylo_pip.Gateway.Token.Spec.{IsToken}
use agrocylo_pip.Gateway.Token.Accepts.{verify_ws_token_iff}
use agrocylo_pip.Gateway.Handshake.{Handshake, extract_token_from_handshake}
use agrocylo_pip.Gateway.Rooms.{activity_room, campaign_room, notifications_room}
use agrocylo_pip.Gateway.Sockets.{
  Sockets, broadcast, handle_connection, handle_subscribe_notifications, missing,
}
use agrocylo_pip.Gateway.Private.{
  connects, here, next, private_rooms, receive, sends, subscribe_notifications,
}
use agrocylo_pip.Gateway.Sample.{in_rooms, toy_platform}

unfoldable gateway : Unit {0}
unfolding verify_ws_token extract_token_from_handshake receive handle_connection
    handle_subscribe_notifications missing campaign_room notifications_room broadcast
gateway = tt

abbrev secret : String
secret = "secret"

abbrev alice : WsAuthClaims
alice = record {
  sub = "GALICE";
  scopes = "profile" ∷ "notifications:read" ∷ [];
  exp = some (int (pos 2000));
}

-- Accepted, expired, and forged
verify_samples :
    (verify_ws_token toy_platform "h.p.s" secret 1999999 ≡ ok alice)
    × (verify_ws_token toy_platform "h.p.s" secret 2000000 ≡ thrown expired)
    × (verify_ws_token toy_platform "h.p.t" secret 1 ≡ thrown invalid_signature)
unfolding gateway
verify_samples = (refl, refl, refl)

verify_ws_token_iff_example : (secret ≢ "") × IsToken toy_platform secret "h.p.s" 1 alice
verify_ws_token_iff_example =
    (verify_ws_token_iff toy_platform secret 1 alice "h.p.s").0 (unfold gateway in refl)

abbrev handshake : String → Handshake
handshake k = record {
  auth = none;
  headers = some (property "authorization" (string "Bearer h.p.s") end);
  query = none;
}

abbrev text_only : Value → Option String
text_only (string s) = some s
text_only v = none

abbrev no_one : Sockets (List (String × String))
no_one = record { rooms = []; auth = λ k. none }

connected : Sockets (List (String × String))
connected =
    handle_connection in_rooms toy_platform secret handshake text_only 1 "c1"
      (record no_one { rooms = ("c1", "c1") ∷ [] })

subscribed : Sockets (List (String × String))
subscribed =
    (receive in_rooms toy_platform secret handshake text_only subscribe_notifications 1 "c1"
      connected).1

subscribed_rooms : subscribed.rooms ≡ ("c1", "notifications:GALICE") ∷ ("c1", "c1") ∷ []
unfolding subscribed connected gateway
subscribed_rooms = refl

private_rooms_example :
    (now : ℕ) × (claims : WsAuthClaims) × (secret ≢ "")
    × IsToken toy_platform secret "h.p.s" now claims
    × IsListed "notifications:read" claims.scopes
    × (claims.sub ≡ "GALICE")
unfolding subscribed connected extract_token_from_handshake
private_rooms_example =
    private_rooms in_rooms toy_platform secret handshake text_only no_one subscribed (λ k sub. refl)
      (next (next here (connects "c1" 1 (omega arith))) (sends subscribe_notifications 1 "c1")) "c1"
      "GALICE" (unfold subscribed connected gateway in refl)

-- c1 is in both rooms, c2 in the activity room alone
abbrev watched : Sockets (List (String × String))
watched = record {
  rooms = ("c1", "campaign:7") ∷ ("c1", "activity") ∷ ("c2", "activity") ∷ [];
  auth = λ k. none;
}

abbrev message : CampaignEventPayload
message = record { type = "campaign.created"; campaign_id = "7"; content = created_event.payload }

broadcast_reaches_example :
    let sent = broadcast in_rooms toy_platform secret handshake text_only message watched in
    (copies_for "c1" sent
      ≡ one_if (in_rooms.is_in watched.rooms "c1" (campaign_room "7"))
        + one_if (in_rooms.is_in watched.rooms "c1" activity_room))
    × All (λ (copy : String × CampaignEventPayload). copy.1 ≡ message) sent
broadcast_reaches_example =
    broadcast_reaches in_rooms toy_platform secret handshake text_only message watched "c1"

sent_to_c1 :
    copies_for "c1" (
      relay in_rooms toy_platform secret handshake text_only
        (process_event in_memory raw_created (starting_with [])).0
        watched)
    ≡ 2
unfolding indexer gateway relay
sent_to_c1 = refl

delivered_recorded_example :
    (e : ParsedEvent) × (id : String) × (parse_event raw_created ≡ parsed_as (some e))
    × (◌≡◌ {A = Option Transaction} none none)
    × ((process_event in_memory raw_created (starting_with [])).1.tables.transactions e.id
        ≡ some (transaction_of e))
    × (e.campaign_id ≡ some id)
    × ((in_rooms.is_in watched.rooms "c1" (campaign_room id) ≡ true)
        ⊎ (in_rooms.is_in watched.rooms "c1" activity_room ≡ true))
delivered_recorded_example =
    delivered_recorded in_rooms toy_platform secret handshake text_only in_memory raw_created
      (starting_with []) watched "c1" (omega (arith, sent_to_c1))

abbrev allowed_origins : List String
allowed_origins = "https://agrocylo.example" ∷ []

origin_checks_example :
    let options = create_web_socket_gateway_options allowed_origins in
    (((options.allow_request none).success ≡ true) ↔ IsOneOf allowed_origins none)
    × ((((create_io_server allowed_origins options).allow_request none).success ≡ true)
        ↔ (IsMissing none ⊎ IsOneOf allowed_origins none))
origin_checks_example =
    origin_checks allowed_origins (create_web_socket_gateway_options allowed_origins) none
