-- ===== src/Client/RoomsHeld.antt =====
-- The rooms that the server has the client in are those that some component wants.
use agrocylo_pip.Prelude.{
  Bool, Bool-cases, List, Option, String, [], ap, arith, eq_iff, false, if◌then◌else◌, inl, inr,
  leb, ltb, none, refl, some, str_eq, suc, sym, true, zero, ℕ, ◌+◌, ◌-◌, ◌∙◌, ◌∷◌, ◌≡◌,
}
use mathlib.Core.Path.{subst}
use agrocylo_pip.Prelude.Text.{is_blank}
use agrocylo_pip.Client.SocketIo.{SocketIo, unsubscribe_campaign}
use agrocylo_pip.Client.SocketManager.{
  Manager, RefCounts, connect_and_resubscribe, get, get_socket, join_campaign_room, join_with,
  leave_campaign_room, leave_with, listen_with, lose_connection, map_option, on_campaign_event,
  on_connect, on_disconnect, or_zero, socket_or_new, subscribe_first,
}
use agrocylo_pip.Client.Rooms.{
  Action, Agrees, AgreesAny, Holds, connects, count_of, disconnects, get-delete, get-set, in_room,
  io-Agrees, is_some, joins, leaves, listens, resubscribe_lem, subscribe-Agrees, unsubscribe-Agrees,
  wanted, wanted_after, wanted_from,
}

module _ (client : SocketIo) (url : String) where
  open client use {Socket, connected, emit, received}

  socket_or_new-Agrees :
      (w : String → Bool) (o : Option Socket)
      → AgreesAny client url w o
      → Agrees client url w (socket_or_new client (some url) url o)
  socket_or_new-Agrees w none _ = io-Agrees client url w
  socket_or_new-Agrees w (some s) agrees = agrees

  pub get_socket_lem :
      (m : Manager Socket)
      → is_blank url ≡ false
      → get_socket client (some url) m ≡ some (socket_or_new client (some url) url m.socket)
  unfolding get_socket
  get_socket_lem m given = rw given refl

  subscribe_first-Agrees :
      (n : ℕ) (k : String) (w w' : String → Bool) (s : Socket)
      → w k ≡ ltb 0 n
      → ((j : String) → w' j ≡ (if str_eq k j then true else w j))
      → Agrees client url w s
      → Agrees client url w' (subscribe_first client (some url) n k s)
  subscribe_first-Agrees zero k w w' s was same (on, off) = elim (Bool-cases (connected s)) [
    | inl up ↦ rw up (subscribe-Agrees client url k w w' s up same (on, off))
    | inr down ↦ rw down (λ up. cc (up, down), off)
  ]
  subscribe_first-Agrees (suc n) k w w' s was same (on, off) =
      (λ up j. on up j ∙ ground (arith, same j, was, eq_iff k j), off)

  after_join :
      (k : String) (u : String → ℕ) (m : Manager Socket) (s : Socket)
      → ((j : String) → get m.room_ref_counts j ≡ count_of (u j))
      → Agrees client url (λ j. ltb 0 (u j)) s
      → Holds client url (wanted_after (joins k) u) (join_with client (some url) k m (some s))
  after_join k u m s counts agrees =
      let n = or_zero (get m.room_ref_counts k) in
      let same : n ≡ u k = ap or_zero (counts k) ∙ ground arith in
      (
        λ j. get-set m.room_ref_counts k (n + 1) j ∙ ground (arith, counts j, same, eq_iff k j),
        subscribe_first-Agrees n k (λ j. ltb 0 (u j)) _ s (ap (ltb 0) (sym same))
            (λ j. ground (arith, eq_iff k j)) agrees,
      )

  join-Holds :
      (k : String) (u : String → ℕ) (m : Manager Socket)
      → is_blank url ≡ false
      → Holds client url u m
      → Holds client url (wanted_after (joins k) u) (join_campaign_room client (some url) k m)
  unfolding join_campaign_room
  join-Holds k u m given (counts, agrees) =
      subst (Holds client url (wanted_after (joins k) u))
        (ap (join_with client (some url) k m) (sym (get_socket_lem m given)))
        (after_join k u m _ counts (socket_or_new-Agrees _ m.socket agrees))

  listen-Holds :
      (u : String → ℕ) (m : Manager Socket)
      → is_blank url ≡ false
      → Holds client url u m
      → Holds client url u (on_campaign_event client (some url) m)
  unfolding on_campaign_event
  listen-Holds u m given (counts, agrees) =
      subst (Holds client url u)
        (ap (listen_with client (some url) m) (sym (get_socket_lem m given)))
        (counts, socket_or_new-Agrees _ m.socket agrees)

  unsubscribed :
      (k : String) (w w' : String → Bool) (o : Option Socket)
      → ((j : String) → w' j ≡ (if str_eq k j then false else w j))
      → AgreesAny client url w o
      → AgreesAny client url w' (map_option (emit (unsubscribe_campaign k)) o)
  unsubscribed k w w' none same agrees = tt
  unsubscribed k w w' (some s) same agrees = unsubscribe-Agrees client url k w w' s same agrees

  Agrees-weaken :
      (w w' : String → Bool) (o : Option Socket)
      → ((j : String) → w' j ≡ w j)
      → AgreesAny client url w o
      → AgreesAny client url w' o
  Agrees-weaken w w' none same _ = tt
  Agrees-weaken w w' (some s) same (on, off) = (λ up j. on up j ∙ sym (same j), off)

  after_leave :
      (n : ℕ) (k : String) (u : String → ℕ) (m : Manager Socket)
      → n ≡ u k
      → Holds client url u m
      → Holds client url (wanted_after (leaves k) u) (leave_with client (some url) n k m)
  after_leave n k u m same (counts, agrees) = elim (Bool-cases (leb n 1)) [
    | inl few ↦ rw few (
      λ j. get-delete m.room_ref_counts k j ∙ ground (arith, counts j, same, few, eq_iff k j),
      unsubscribed k (λ j. ltb 0 (u j)) _ m.socket (λ j. ground (arith, same, few, eq_iff k j))
          agrees,
    )
    | inr more ↦ rw more (
      λ j. get-set m.room_ref_counts k (n - 1) j ∙ ground (arith, counts j, same, more, eq_iff k j),
      Agrees-weaken (λ j. ltb 0 (u j)) _ m.socket (λ j. ground (arith, same, more, eq_iff k j))
          agrees,
    )
  ]

  leave-Holds :
      (k : String) (u : String → ℕ) (m : Manager Socket)
      → Holds client url u m
      → Holds client url (wanted_after (leaves k) u) (leave_campaign_room client (some url) k m)
  unfolding leave_campaign_room
  leave-Holds k u m (counts, agrees) =
      after_leave (or_zero (get m.room_ref_counts k)) k u m (ap or_zero (counts k) ∙ ground arith)
        (counts, agrees)

  after_connect :
      (w : String → Bool) (counts : RefCounts) (o : Option Socket)
      → ((j : String) → w j ≡ is_some (get counts j))
      → AgreesAny client url w o
      → AgreesAny client url w (map_option (connect_and_resubscribe client (some url) counts) o)
  after_connect w counts none same _ = tt
  after_connect w counts (some s) same (on, off) = elim (Bool-cases (connected s)) [
    | inl up ↦ rw up (on, off)
    | inr down ↦ rw down (
        resubscribe_lem client url counts (λ j. false) w (client.connect s)
          (client.connect-connected s) (λ j. same j ∙ ground arith)
          (
            λ up j. ap (λ ms. in_room j ms false) (client.connect-received s down) ∙ off down j,
            λ no_way. cc (no_way, client.connect-connected s),
          ))
  ]

  after_disconnect :
      (w : String → Bool) (o : Option Socket)
      → AgreesAny client url w o
      → AgreesAny client url w (map_option (lose_connection client (some url)) o)
  after_disconnect w none _ = tt
  after_disconnect w (some s) (on, off) = elim (Bool-cases (connected s)) [
    | inl up ↦ rw up (
      λ no_way. cc (no_way, client.disconnect-connected s),
      λ down j. ap (λ ms. in_room j ms false) (client.disconnect-buffered s up),
    )
    | inr down ↦ rw down (on, off)
  ]

  abbrev pub step : Action → Manager Socket → Manager Socket
  step (joins k) = join_campaign_room client (some url) k
  step (leaves k) = leave_campaign_room client (some url) k
  step listens = on_campaign_event client (some url)
  step connects = on_connect client (some url)
  step disconnects = on_disconnect client (some url)

  pub step-Holds :
      (a : Action) (u : String → ℕ) (m : Manager Socket)
      → is_blank url ≡ false
      → Holds client url u m
      → Holds client url (wanted_after a u) (step a m)
  unfolding on_connect on_disconnect
  step-Holds (joins k) u m given h = join-Holds k u m given h
  step-Holds (leaves k) u m given h = leave-Holds k u m h
  step-Holds listens u m given h = listen-Holds u m given h
  step-Holds connects u m given (counts, agrees) =
      (counts, after_connect _ m.room_ref_counts m.socket (λ j. ground (arith, counts j)) agrees)
  step-Holds disconnects u m given (counts, agrees) = (counts, after_disconnect _ m.socket agrees)

  abbrev pub run_from : List Action → Manager Socket → Manager Socket
  run_from [] m = m
  run_from (a ∷ actions) m = run_from actions (step a m)

  pub run-Holds :
      (actions : List Action) (u : String → ℕ) (m : Manager Socket)
      → is_blank url ≡ false
      → Holds client url u m
      → Holds client url (wanted_from actions u) (run_from actions m)
  run-Holds [] u m given h = h
  run-Holds (a ∷ actions) u m given h =
      run-Holds actions (wanted_after a u) (step a m) given (step-Holds a u m given h)

  abbrev pub at_start : Manager Socket
  at_start = record { socket = none; room_ref_counts = [] }

  -- After any calls of components, connections and losses of the connection, in any order, a client
  -- that is connected is on its server in the room of exactly the campaigns that some component wants:
  -- those whose `joinCampaignRoom` was called more often than `leaveCampaignRoom`, a call of the latter
  -- without one of the former left out of account. A URL is configured.
  pub rooms_held :
      (actions : List Action) (s : Socket)
      → is_blank url ≡ false
      → (run_from actions at_start).socket ≡ some s
      → connected s ≡ true
      → (k : String) → in_room k (received s) false ≡ ltb 0 (wanted actions k)
  unfolding get
  rooms_held actions s given live up =
      let (_, agrees) = run-Holds actions (λ k. 0) at_start given ((λ k. refl), tt) in
      (subst (AgreesAny client url (λ k. ltb 0 (wanted actions k))) live agrees).0 up
