-- ===== src/Client/Rooms.antt =====
-- What a server that gets the client's emissions makes of them, and the invariant of the manager.
use agrocylo_pip.Prelude.{
  Bool, List, Option, String, [], ap, arith, eq_iff, false, if◌then◌else◌, ltb, none, refl, some,
  str_eq, suc, sym, true, zero, ℕ, ◌++◌, ◌+◌, ◌-◌, ◌||◌, ◌∙◌, ◌∷◌, ◌≡◌,
}
use agrocylo_pip.Client.SocketIo.{Message, SocketIo, subscribe_campaign, unsubscribe_campaign}
use agrocylo_pip.Client.SocketManager.{Manager, RefCounts, delete, get, resubscribe, set}

-- What happens to the manager: calls of components, and the connection's coming and going
pub data Action : Type 0 where
  joins : String → Action
  leaves : String → Action
  listens : Action
  connects : Action
  disconnects : Action

-- How many components want a campaign's room, each after its `joinCampaignRoom` and until its
-- `leaveCampaignRoom`
abbrev pub wanted_after : Action → (String → ℕ) → String → ℕ
wanted_after (joins j) u k = if str_eq j k then u k + 1 else u k
wanted_after (leaves j) u k = if str_eq j k then u k - 1 else u k
wanted_after listens u k = u k
wanted_after connects u k = u k
wanted_after disconnects u k = u k

abbrev pub wanted_from : List Action → (String → ℕ) → String → ℕ
wanted_from [] u = u
wanted_from (a ∷ actions) u = wanted_from actions (wanted_after a u)

abbrev pub wanted : List Action → String → ℕ
wanted actions = wanted_from actions (λ k. 0)

-- Whether a server that gets these messages has the client in the campaign's room, where it had it so
-- before
abbrev pub in_room : String → List Message → Bool → Bool
in_room k [] b = b
in_room k (subscribe_campaign j ∷ ms) b = in_room k ms (if str_eq j k then true else b)
in_room k (unsubscribe_campaign j ∷ ms) b = in_room k ms (if str_eq j k then false else b)

in_room-append :
    (k : String) (ms ns : List Message) (b : Bool)
    → in_room k (ms ++ ns) b ≡ in_room k ns (in_room k ms b)
in_room-append k [] ns b = refl
in_room-append k (subscribe_campaign j ∷ ms) ns b =
    in_room-append k ms ns (if str_eq j k then true else b)
in_room-append k (unsubscribe_campaign j ∷ ms) ns b =
    in_room-append k ms ns (if str_eq j k then false else b)

pub get-set :
    (counts : RefCounts) (k : String) (n : ℕ) (j : String)
    → get (set counts k n) j ≡ (if str_eq k j then some n else get counts j)
unfolding get set
get-set [] k n j = ground arith
get-set ((i, m) ∷ counts) k n j =
    ground (arith, get-set counts k n j, eq_iff i k, eq_iff i j, eq_iff k j)

pub get-delete :
    (counts : RefCounts) (k j : String)
    → get (delete counts k) j ≡ (if str_eq k j then none else get counts j)
unfolding get delete
get-delete [] k j = ground arith
get-delete ((i, m) ∷ counts) k j =
    ground (arith, get-delete counts k j, eq_iff i k, eq_iff i j, eq_iff k j)

abbrev pub is_some : {A : Type 0} → Option A → Bool
is_some none = false
is_some (some x) = true

-- No count of 0 is kept.
abbrev pub count_of : ℕ → Option ℕ
count_of zero = none
count_of (suc n) = some (suc n)

module _ (client : SocketIo) (url : String) where
  open client use {Socket, connected, emit, received, buffered}

  -- A connected socket's server has the client in exactly the rooms of `w`, and what a socket that is
  -- not connected has buffered joins no room.
  abbrev pub Agrees : (String → Bool) → Socket → Type 0
  Agrees w s =
      (connected s ≡ true → (k : String) → in_room k (received s) false ≡ w k)
      × (connected s ≡ false → (k : String) → in_room k (buffered s) false ≡ false)

  abbrev pub AgreesAny : (String → Bool) → Option Socket → Type 0
  AgreesAny w none = Unit {0}
  AgreesAny w (some s) = Agrees w s

  abbrev pub Holds : (String → ℕ) → Manager Socket → Type 0
  Holds u m =
      ((k : String) → get m.room_ref_counts k ≡ count_of (u k))
      × AgreesAny (λ k. ltb 0 (u k)) m.socket

  pub io-Agrees : (w : String → Bool) → Agrees w (client.io url)
  io-Agrees w = (λ on. cc (client.io-connected url, on), λ off k. rw (client.io-buffered url) refl)

  received_lem :
      (k : String) (m : Message) (s : Socket)
      → connected s ≡ true
      → in_room k (received (emit m s)) false ≡ in_room k (m ∷ []) (in_room k (received s) false)
  received_lem k m s on =
      ap (λ ms. in_room k ms false) (client.emit-received m s on)
      ∙ in_room-append k (received s) (m ∷ []) false

  buffered_lem :
      (k : String) (m : Message) (s : Socket)
      → connected s ≡ false
      → in_room k (buffered (emit m s)) false ≡ in_room k (m ∷ []) (in_room k (buffered s) false)
  buffered_lem k m s off =
      ap (λ ms. in_room k ms false) (client.emit-buffered m s off)
      ∙ in_room-append k (buffered s) (m ∷ []) false

  pub unsubscribe-Agrees :
      (k : String) (w w' : String → Bool) (s : Socket)
      → ((j : String) → w' j ≡ (if str_eq k j then false else w j))
      → Agrees w s
      → Agrees w' (emit (unsubscribe_campaign k) s)
  unsubscribe-Agrees k w w' s same (on, off) =
      let x = unsubscribe_campaign k in
      (
        λ up j.
            let was = sym (client.emit-connected x s) ∙ up in
            received_lem j x s was
            ∙ ap (λ b. if str_eq k j then false else b) (on was j)
            ∙ sym (same j),
        λ down j.
            let was = sym (client.emit-connected x s) ∙ down in
            buffered_lem j x s was
            ∙ ap (λ b. if str_eq k j then false else b) (off was j)
            ∙ ground arith,
      )

  pub subscribe-Agrees :
      (k : String) (w w' : String → Bool) (s : Socket)
      → connected s ≡ true
      → ((j : String) → w' j ≡ (if str_eq k j then true else w j))
      → Agrees w s
      → Agrees w' (emit (subscribe_campaign k) s)
  subscribe-Agrees k w w' s was same (on, off) =
      let x = subscribe_campaign k in
      (
        λ up j.
            received_lem j x s was
            ∙ ap (λ b. if str_eq k j then true else b) (on was j)
            ∙ sym (same j),
        λ down. cc (client.emit-connected x s, down, was),
      )

  pub resubscribe_lem :
      (counts : RefCounts) (w w' : String → Bool) (s : Socket)
      → connected s ≡ true
      → ((j : String) → w' j ≡ is_some (get counts j) || w j)
      → Agrees w s
      → Agrees w' (resubscribe client (some url) counts s)
  unfolding resubscribe get
  resubscribe_lem [] w w' s was same (on, off) =
      (λ up j. on was j ∙ sym (same j), λ down. cc (was, down))
  resubscribe_lem ((k, n) ∷ counts) w w' s was same agrees =
      let v : String → Bool = λ j. if str_eq k j then true else w j in
      resubscribe_lem counts v w' (emit (subscribe_campaign k) s)
        (client.emit-connected (subscribe_campaign k) s ∙ was) (λ j. same j ∙ ground arith)
        (subscribe-Agrees k w v s was (λ j. refl) agrees)
