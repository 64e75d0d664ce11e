-- ===== src/Client/SocketManager.antt =====
-- lib/websocket/socketManager.ts: one socket for all components, and how many of them want each
-- campaign's room.
use agrocylo_pip.Prelude.{
  List, Option, String, [], if◌then◌else◌, leb, none, some, str_eq, suc, zero, ℕ, ◌+◌, ◌-◌, ◌∷◌,
}
use agrocylo_pip.Prelude.Text.{is_blank}
use agrocylo_pip.Client.SocketIo.{SocketIo, subscribe_campaign, unsubscribe_campaign}

-- `roomRefCounts`, in the order of insertion
abbrev pub RefCounts : Type 0
RefCounts = List (String × ℕ)

unfoldable pub get : RefCounts → String → Option ℕ
get [] k = none
get ((j, n) ∷ counts) k = let rest = get counts k in if str_eq j k then some n else rest

unfoldable pub set : RefCounts → String → ℕ → RefCounts
set [] k n = (k, n) ∷ []
set ((j, m) ∷ counts) k n =
    let rest = set counts k n in if str_eq j k then (j, n) ∷ counts else (j, m) ∷ rest

unfoldable pub delete : RefCounts → String → RefCounts
delete [] k = []
delete ((j, m) ∷ counts) k =
    let rest = delete counts k in if str_eq j k then rest else (j, m) ∷ rest

-- `get(k) ?? 0`
abbrev pub or_zero : Option ℕ → ℕ
or_zero none = 0
or_zero (some n) = n

-- `socket?.` of a call
abbrev pub map_option : {A : Type 0} → (A → A) → Option A → Option A
map_option f none = none
map_option f (some x) = some (f x)

pub record Manager (Socket : Type 0) : Type 0 where
  pub socket : Option Socket
  pub room_ref_counts : RefCounts

module _ (client : SocketIo) (ws_url : Option String) where
  open client use {Socket, io, connected, emit}

  abbrev pub socket_or_new : String → Option Socket → Socket
  socket_or_new url none = io url
  socket_or_new url (some s) = s

  -- `getSocket`; the new socket's listener of `connect` is `on_connect`.
  unfoldable pub get_socket : Manager Socket → Option Socket
  get_socket m = elim ws_url [
    | none ↦ none
    | some url ↦ if is_blank url then none else some (socket_or_new url m.socket)
  ]

  abbrev pub listen_with : Manager Socket → Option Socket → Manager Socket
  listen_with m none = m
  listen_with m (some s) = record m { socket = some s }

  -- `onCampaignEvent` and `onConnectionChange` start the socket.
  unfoldable pub on_campaign_event : Manager Socket → Manager Socket
  unfolding get_socket
  on_campaign_event m = listen_with m (get_socket m)

  -- `for (const campaignId of roomRefCounts.keys())`
  unfoldable pub resubscribe : RefCounts → Socket → Socket
  resubscribe [] s = s
  resubscribe ((k, n) ∷ counts) s = resubscribe counts (emit (subscribe_campaign k) s)

  -- A socket that connects, then its listener of `connect`; one that is connected stays.
  abbrev pub connect_and_resubscribe : RefCounts → Socket → Socket
  connect_and_resubscribe counts s =
      if connected s then s else resubscribe counts (client.connect s)

  abbrev pub lose_connection : Socket → Socket
  lose_connection s = if connected s then client.disconnect s else s

  unfoldable pub on_connect : Manager Socket → Manager Socket
  unfolding resubscribe
  on_connect m = record m {
    socket = map_option (connect_and_resubscribe m.room_ref_counts) m.socket;
  }

  unfoldable pub on_disconnect : Manager Socket → Manager Socket
  on_disconnect m = record m { socket = map_option lose_connection m.socket }

  abbrev pub subscribe_first : ℕ → String → Socket → Socket
  subscribe_first zero k s = if connected s then emit (subscribe_campaign k) s else s
  subscribe_first (suc n) k s = s

  abbrev pub join_with : String → Manager Socket → Option Socket → Manager Socket
  join_with k m none = m
  join_with k m (some s) =
      let count = or_zero (get m.room_ref_counts k) in
      record {
        socket = some (subscribe_first count k s);
        room_ref_counts = set m.room_ref_counts k (count + 1);
      }

  unfoldable pub join_campaign_room : String → Manager Socket → Manager Socket
  unfolding get_socket
  join_campaign_room k m = join_with k m (get_socket m)

  abbrev pub leave_with : ℕ → String → Manager Socket → Manager Socket
  leave_with count k m =
      if leb count 1
      then record {
        socket = map_option (emit (unsubscribe_campaign k)) m.socket;
        room_ref_counts = delete m.room_ref_counts k;
      }
      else record m { room_ref_counts = set m.room_ref_counts k (count - 1) }

  unfoldable pub leave_campaign_room : String → Manager Socket → Manager Socket
  leave_campaign_room k m = leave_with (or_zero (get m.room_ref_counts k)) k m
