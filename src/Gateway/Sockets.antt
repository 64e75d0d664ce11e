-- ===== src/Gateway/Sockets.antt =====
-- websocket/ws-auth.guard.ts and websocket/campaign-events.gateway.ts. A socket is named by its id,
-- and its handshake is that of its connection. Nest runs a handler's guard before the handler, and
-- answers an exception to the client.
use agrocylo_pip.Prelude.{
  List, Option, String, [], if◌then◌else◌, map, none, some, str_eq, ℕ, ◌++◌, ◌∷◌,
}
use agrocylo_pip.Prelude.Text.{has, is_blank}
use agrocylo_pip.Js.{Value}
use agrocylo_pip.Indexer.Process.{CampaignEventPayload}
use agrocylo_pip.Gateway.Token.{
  Platform, TokenError, Verified, WsAuthClaims, ok, thrown, verify_ws_token,
}
use agrocylo_pip.Gateway.Handshake.{Handshake, extract_token_from_handshake}
use agrocylo_pip.Gateway.Rooms.{
  activity_room, campaign_room, notifications_read_scope, notifications_room,
}
use agrocylo_pip.Gateway.Io.{Io}

-- Socket.IO's rooms, and `client.data.auth` of each socket
pub record Sockets (State : Type 0) : Type 0 where
  pub rooms : State
  pub auth : String → Option WsAuthClaims

-- Why a guard denied
pub data Reason : Type 0 where
  bad_token : TokenError → Reason
  missing_scopes : List String → Reason

pub data Guarded (S : Type 0) : Type 0 where
  allowed : S → Guarded S
  denied : Reason → Guarded S

-- What a message is answered with
pub data Reply : Type 0 where
  silent : Reply
  room : String → Reply
  unauthorized : Reason → Reply
  failed : Reply

abbrev set_auth :
    String → WsAuthClaims → (String → Option WsAuthClaims) → String → Option WsAuthClaims
set_auth k claims auth j = if str_eq k j then some claims else auth j

-- `requiredScopes.filter((scope) => !claims.scopes.includes(scope))`
unfoldable pub missing : (required granted : List String) → List String
unfolding has
missing [] granted = []
missing (r ∷ rs) granted = let rest = missing rs granted in if has granted r then rest else r ∷ rest

-- `token ?? ''`
abbrev pub token_or_empty : Option String → String
token_or_empty none = ""
token_or_empty (some t) = t

-- `template` is the text of a value in a template literal, which may throw.
module _ (io : Io) (platform : Platform) (secret : String) (handshake_of : String → Handshake)
    (template : Value → Option String) where
  abbrev Server : Type 0
  Server = Sockets (io.State)

  -- `verifyWsToken` of the connection's token; one that is not verified drops the connection.
  unfoldable pub authenticate : String → Verified WsAuthClaims → Server → Server
  authenticate k (ok claims) s = record s { auth = set_auth k claims s.auth }
  authenticate k (thrown x) s = record s { rooms = io.disconnect k s.rooms }

  unfoldable pub connect_with : ℕ → String → Option String → Server → Server
  unfolding authenticate
  connect_with now k none s = s
  connect_with now k (some token) s =
      if is_blank token then s else authenticate k (verify_ws_token platform token secret now) s

  unfoldable pub handle_connection : ℕ → String → Server → Server
  unfolding connect_with
  handle_connection now k s = connect_with now k (extract_token_from_handshake (handshake_of k)) s

  -- Joins or leaves a campaign's room, or throws where the body has no text.
  abbrev pub join_campaign : String → Option String → Server → Reply × Server
  join_campaign k none s = (failed, s)
  join_campaign k (some id) s = (silent, record s { rooms = io.join k (campaign_room id) s.rooms })

  abbrev pub leave_campaign : String → Option String → Server → Reply × Server
  leave_campaign k none s = (failed, s)
  leave_campaign k (some id) s =
      (silent, record s { rooms = io.leave k (campaign_room id) s.rooms })

  unfoldable pub handle_subscribe_campaign : String → Value → Server → Reply × Server
  handle_subscribe_campaign k body s = join_campaign k (template body) s

  unfoldable pub handle_unsubscribe_campaign : String → Value → Server → Reply × Server
  handle_unsubscribe_campaign k body s = leave_campaign k (template body) s

  unfoldable pub handle_subscribe_activity : String → Server → Reply × Server
  handle_subscribe_activity k s = (silent, record s { rooms = io.join k activity_room s.rooms })

  unfoldable pub handle_unsubscribe_activity : String → Server → Reply × Server
  handle_unsubscribe_activity k s = (silent, record s { rooms = io.leave k activity_room s.rooms })

  -- `if (missing.length > 0) deny; client.data.auth = claims`
  unfoldable pub admit_claims : List String → String → WsAuthClaims → Server → Guarded Server
  admit_claims [] k claims s = allowed (record s { auth = set_auth k claims s.auth })
  admit_claims (r ∷ rs) k claims s = denied (missing_scopes (r ∷ rs))

  unfoldable pub admit : List String → String → Verified WsAuthClaims → Server → Guarded Server
  unfolding admit_claims
  admit required k (thrown x) s = denied (bad_token x)
  admit required k (ok claims) s = admit_claims (missing required claims.scopes) k claims s

  -- `WsAuthGuard.canActivate` with the scopes that the handler requires
  unfoldable pub can_activate : List String → ℕ → String → Server → Guarded Server
  unfolding admit
  can_activate required now k s =
      let token = token_or_empty (extract_token_from_handshake (handshake_of k)) in
      admit required k (verify_ws_token platform token secret now) s

  unfoldable pub after_guard :
      (String → Server → Reply × Server) → String → Server → Guarded Server → Reply × Server
  after_guard handler k s (denied why) = (unauthorized why, s)
  after_guard handler k s (allowed s') = handler k s'

  -- A handler under the guard
  unfoldable pub guarded :
      List String → (String → Server → Reply × Server) → ℕ → String → Server → Reply × Server
  unfolding can_activate after_guard
  guarded required handler now k s = after_guard handler k s (can_activate required now k s)

  -- With `client.data.auth!`
  abbrev pub join_own : String → Option WsAuthClaims → Server → Reply × Server
  join_own k none s = (failed, s)
  join_own k (some claims) s =
      let r = notifications_room claims.sub in (room r, record s { rooms = io.join k r s.rooms })

  abbrev pub leave_own : String → Option WsAuthClaims → Server → Reply × Server
  leave_own k none s = (failed, s)
  leave_own k (some claims) s =
      (silent, record s { rooms = io.leave k (notifications_room claims.sub) s.rooms })

  abbrev pub join_notifications : String → Server → Reply × Server
  join_notifications k s = join_own k (s.auth k) s

  abbrev pub leave_notifications : String → Server → Reply × Server
  leave_notifications k s = leave_own k (s.auth k) s

  unfoldable pub handle_subscribe_notifications : ℕ → String → Server → Reply × Server
  unfolding guarded
  handle_subscribe_notifications = guarded (notifications_read_scope ∷ []) join_notifications

  unfoldable pub handle_unsubscribe_notifications : ℕ → String → Server → Reply × Server
  unfolding guarded
  handle_unsubscribe_notifications = guarded (notifications_read_scope ∷ []) leave_notifications

  -- One emission to a room, with the socket that each copy is sent to
  unfoldable pub emit :
      String → CampaignEventPayload → Server → List (String × CampaignEventPayload)
  emit r payload s = map (λ k. (k, payload)) (io.recipients s.rooms r)

  unfoldable pub broadcast : CampaignEventPayload → Server → List (String × CampaignEventPayload)
  unfolding emit
  broadcast payload s =
      emit (campaign_room payload.campaign_id) payload s ++ emit activity_room payload s
