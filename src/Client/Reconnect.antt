-- ===== src/Client/Reconnect.antt =====
-- A client whose socket connects is back in the rooms that are wanted.
use agrocylo_pip.Prelude.{
  Bool-cases, List, String, [], ap, false, inl, inr, ltb, refl, some, true, ◌∙◌, ◌∷◌, ◌≡◌,
}
use mathlib.Core.Path.{subst}
use agrocylo_pip.Prelude.Text.{is_blank}
use agrocylo_pip.Client.SocketIo.{SocketIo, subscribe_campaign}
use agrocylo_pip.Client.SocketManager.{
  RefCounts, connect_and_resubscribe, get, listen_with, on_campaign_event, on_connect, resubscribe,
  socket_or_new,
}
use agrocylo_pip.Client.Rooms.{Action, AgreesAny, connects, in_room, listens, wanted}
use agrocylo_pip.Client.RoomsHeld.{at_start, get_socket_lem, run-Holds, run_from}

module _ (client : SocketIo) (url : String) where
  open client use {Socket, connected, emit, received}

  resubscribe-connected :
      (counts : RefCounts) (s : Socket)
      → connected (resubscribe client (some url) counts s) ≡ connected s
  unfolding resubscribe
  resubscribe-connected [] s = refl
  resubscribe-connected ((k, n) ∷ counts) s =
      resubscribe-connected counts (emit (subscribe_campaign k) s)
      ∙ client.emit-connected (subscribe_campaign k) s

  connect_and_resubscribe-connected :
      (counts : RefCounts) (s : Socket)
      → connected (connect_and_resubscribe client (some url) counts s) ≡ true
  connect_and_resubscribe-connected counts s = elim (Bool-cases (connected s)) [
    | inl up ↦ rw up up
    | inr down ↦
        rw down (resubscribe-connected counts (client.connect s) ∙ client.connect-connected s)
  ]

  -- Whatever happened before, once a component listens and the socket connects there is a connected
  -- socket, and its server has the client in the room of exactly the campaigns that are wanted. A URL
  -- is configured.
  pub reconnects :
      (actions : List Action)
      → is_blank url ≡ false
      → (s : Socket) × ((run_from client url
            (listens ∷ connects ∷ [])
            (run_from client url actions (at_start client url))).socket
          ≡ some s)
        × (connected s ≡ true)
        × ((k : String) → in_room k (received s) false ≡ ltb 0 (wanted actions k))
  unfolding on_connect on_campaign_event get
  reconnects actions given =
      let u = wanted actions in
      let m = run_from client url actions (at_start client url) in
      let s = socket_or_new client (some url) url m.socket in
      let m' = record m { socket = some s } in
      let held =
        run-Holds client url actions (λ k. 0) (at_start client url) given ((λ k. refl), tt) in
      let (counts, agrees) = run-Holds client url (listens ∷ connects ∷ []) u m given held in
      let up = connect_and_resubscribe-connected m.room_ref_counts s in
      let same : (run_from client url (listens ∷ connects ∷ []) m).socket
          ≡ some (connect_and_resubscribe client (some url) m.room_ref_counts s) =
        ap (λ o. (on_connect client (some url) (listen_with client (some url) m o)).socket)
          (get_socket_lem client url m given) in
      (_, same, up, (subst (AgreesAny client url (λ k. ltb 0 (u k))) same agrees).0 up)
