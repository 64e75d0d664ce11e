-- ===== src/Gateway/Private.antt =====
-- Private rooms: whatever clients connect, send and drop, in any order, a socket is in a room of
-- notifications only by a token of its own handshake.
use agrocylo_pip.Gateway.Token.Accepts.{verify_ws_token_iff}
use agrocylo_pip.Prelude.{IsListed, Option, String, false, none, some, sym, true, ℕ, ◌∙◌, ◌≡◌, ◌≢◌}
use agrocylo_pip.Prelude.Text.{Lacks}
use agrocylo_pip.Js.{Value}
use agrocylo_pip.Gateway.Token.{Platform, WsAuthClaims}
use agrocylo_pip.Gateway.Handshake.{Handshake}
use agrocylo_pip.Gateway.Rooms.{
  activity_room-ne-notifications_room, campaign_room-ne-notifications_room,
  notifications_read_scope, notifications_room,
}
use agrocylo_pip.Gateway.Io.{Io}
use agrocylo_pip.Gateway.Membership.{
  IsPrivate, connect-IsPrivate, disconnect-IsPrivate, join-IsPrivate, join-IsPrivate_entitled,
  leave-IsPrivate,
}
use agrocylo_pip.Gateway.Sockets.{
  Reply, Sockets, handle_connection, handle_subscribe_activity, handle_subscribe_campaign,
  handle_subscribe_notifications, handle_unsubscribe_activity, handle_unsubscribe_campaign,
  handle_unsubscribe_notifications, join_campaign, join_notifications, join_own, leave_campaign,
  leave_notifications, leave_own,
}
use mathlib.Core.Bool.{false≢true}
use mathlib.Core.Path.{subst}
use agrocylo_pip.Gateway.Token.Spec.{IsToken}
use agrocylo_pip.Gateway.Guarded.{IsEntitled, IsSafe, connect_with-IsSafe, guarded-IsSafe, token_of}

-- The messages of a client
pub data Message : Type 0 where
  subscribe_campaign unsubscribe_campaign : Value → Message
  subscribe_activity unsubscribe_activity : Message
  subscribe_notifications unsubscribe_notifications : Message

module _ (io : Io) (platform : Platform) (secret : String) (handshake_of : String → Handshake)
    (template : Value → Option String) where
  abbrev State : Type 0
  State = Sockets (io.State)

  -- The gateway's handler of a message, from the socket `k`
  unfoldable pub receive : Message → ℕ → String → State → Reply × State
  receive (subscribe_campaign body) now k s =
      handle_subscribe_campaign io platform secret handshake_of template k body s
  receive (unsubscribe_campaign body) now k s =
      handle_unsubscribe_campaign io platform secret handshake_of template k body s
  receive subscribe_activity now k s =
      handle_subscribe_activity io platform secret handshake_of template k s
  receive unsubscribe_activity now k s =
      handle_unsubscribe_activity io platform secret handshake_of template k s
  receive subscribe_notifications now k s =
      handle_subscribe_notifications io platform secret handshake_of template now k s
  receive unsubscribe_notifications now k s =
      handle_unsubscribe_notifications io platform secret handshake_of template now k s

  -- Socket.IO makes ids of letters, digits, `-` and `_`.
  pub data Step (s : State) : State → Type 0 where
    connects :
        (k : String) (now : ℕ)
        → Lacks b':' k
        → Step s (
            handle_connection io platform secret handshake_of template now k
              (record s { rooms = io.connect k s.rooms }))
    sends : (m : Message) (now : ℕ) (k : String) → Step s (receive m now k s).1
    drops : (k : String) → Step s (record s { rooms = io.disconnect k s.rooms })

  pub data Reach (s : State) : State → Type 0 where
    here : Reach s s
    next : {t u : State} → Reach s t → Step t u → Reach s u

  join_own-IsSafe :
      (k : String) (auth : Option WsAuthClaims) (s : State) (claims : WsAuthClaims)
      → auth ≡ some claims
      → (IsEntitled io platform secret handshake_of template) k claims.sub
      → IsSafe io platform secret handshake_of template s
      → IsSafe io platform secret handshake_of template
          (join_own io platform secret handshake_of template k auth s).1
  join_own-IsSafe k none s claims e entitled h = h
  join_own-IsSafe k (some own) s claims e entitled h = join_IsPrivate_own
    where
      same : claims.sub ≡ own.sub
      same = cc

      join_IsPrivate_own :
          IsPrivate io
            (IsEntitled io platform secret handshake_of template)
            (io.join k (notifications_room own.sub) s.rooms)
      join_IsPrivate_own =
          join-IsPrivate_entitled io (IsEntitled io platform secret handshake_of template) s.rooms h
            k own.sub
            (subst ((IsEntitled io platform secret handshake_of template) k) same entitled)

  leave_own-IsSafe :
      (k : String) (auth : Option WsAuthClaims) (s : State)
      → IsSafe io platform secret handshake_of template s
      → IsSafe io platform secret handshake_of template
          (leave_own io platform secret handshake_of template k auth s).1
  leave_own-IsSafe k none s h = h
  leave_own-IsSafe k (some own) s h =
      leave-IsPrivate io (IsEntitled io platform secret handshake_of template) s.rooms h k _

  join_campaign-IsSafe :
      (k : String) (id : Option String) (s : State)
      → IsSafe io platform secret handshake_of template s
      → IsSafe io platform secret handshake_of template
          (join_campaign io platform secret handshake_of template k id s).1
  join_campaign-IsSafe k none s h = h
  join_campaign-IsSafe k (some id) s h =
      join-IsPrivate io (IsEntitled io platform secret handshake_of template) s.rooms h k _
        (campaign_room-ne-notifications_room id)

  leave_campaign-IsSafe :
      (k : String) (id : Option String) (s : State)
      → IsSafe io platform secret handshake_of template s
      → IsSafe io platform secret handshake_of template
          (leave_campaign io platform secret handshake_of template k id s).1
  leave_campaign-IsSafe k none s h = h
  leave_campaign-IsSafe k (some id) s h =
      leave-IsPrivate io (IsEntitled io platform secret handshake_of template) s.rooms h k _

  receive-IsSafe :
      (m : Message) (now : ℕ) (k : String) (s : State)
      → IsSafe io platform secret handshake_of template s
      → IsSafe io platform secret handshake_of template (receive m now k s).1
  unfolding receive handle_subscribe_campaign handle_unsubscribe_campaign handle_subscribe_activity
      handle_unsubscribe_activity handle_subscribe_notifications handle_unsubscribe_notifications
  receive-IsSafe (subscribe_campaign body) now k s h = join_campaign-IsSafe k _ s h
  receive-IsSafe (unsubscribe_campaign body) now k s h = leave_campaign-IsSafe k _ s h
  receive-IsSafe subscribe_activity now k s h =
      join-IsPrivate io (IsEntitled io platform secret handshake_of template) s.rooms h k _
        activity_room-ne-notifications_room
  receive-IsSafe unsubscribe_activity now k s h =
      leave-IsPrivate io (IsEntitled io platform secret handshake_of template) s.rooms h k _
  receive-IsSafe subscribe_notifications now k s h =
      guarded-IsSafe io platform secret handshake_of template
        (join_notifications io platform secret handshake_of template) now k s h
        (λ s' claims kept entitled safe. join_own-IsSafe k (s'.auth k) s' claims kept entitled safe)
  receive-IsSafe unsubscribe_notifications now k s h =
      guarded-IsSafe io platform secret handshake_of template
        (leave_notifications io platform secret handshake_of template) now k s h
        (λ s' claims kept entitled safe. leave_own-IsSafe k (s'.auth k) s' safe)

  Step-IsSafe :
      {s t : State}
      → Step s t
      → IsSafe io platform secret handshake_of template s
      → IsSafe io platform secret handshake_of template t
  unfolding handle_connection
  Step-IsSafe {s} (connects k now plain) h =
      connect_with-IsSafe io platform secret handshake_of template now k _
        (record s { rooms = io.connect k s.rooms })
        (connect-IsPrivate io (IsEntitled io platform secret handshake_of template) s.rooms h k
          plain)
  Step-IsSafe {s} (sends m now k) h = receive-IsSafe m now k s h
  Step-IsSafe {s} (drops k) h =
      disconnect-IsPrivate io (IsEntitled io platform secret handshake_of template) s.rooms h k

  Reach-IsSafe :
      {s t : State}
      → IsSafe io platform secret handshake_of template s
      → Reach s t
      → IsSafe io platform secret handshake_of template t
  Reach-IsSafe h here = h
  Reach-IsSafe h (next r step) = Step-IsSafe step (Reach-IsSafe h r)

  -- Where no one is in any subject's room at first, then after any connections, messages of any
  -- sockets with any bodies, and disconnections, in any order, a socket that is in the room of a
  -- subject came with a token in its handshake that is signed by the configured secret and that
  -- carries, at the time of some check, this subject and the scope `notifications:read`.
  pub private_rooms :
      (s t : State)
      → ((k sub : String) → io.is_in s.rooms k (notifications_room sub) ≡ false)
      → Reach s t
      → (k sub : String) → io.is_in t.rooms k (notifications_room sub) ≡ true
      → (now : ℕ) × (claims : WsAuthClaims) × (secret ≢ "")
        × IsToken platform secret (token_of io platform secret handshake_of template k) now claims
        × IsListed notifications_read_scope claims.scopes
        × (claims.sub ≡ sub)
  private_rooms s t empty r k sub e =
      let safe : IsSafe io platform secret handshake_of template s =
        λ j sub' in_. absurd (false≢true (sym (empty j sub') ∙ in_)) in
      let (now, claims, verified, scoped, same) = Reach-IsSafe safe r k sub e in
      let (configured, token) =
        (verify_ws_token_iff platform secret now claims
            (token_of io platform secret handshake_of template k)).0
          verified in
      (now, claims, configured, token, scoped, same)
