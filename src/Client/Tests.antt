-- ===== src/Client/Tests.antt =====
-- A socket that keeps the laws, two components that come and go around a lost connection, and
-- campaigns with some progress.
use agrocylo_pip.Client.Analytics.{
  EscrowEvent, assign, compute_analytics_metrics, replay, replay_event, replay_named, sorted,
  update,
}
use agrocylo_pip.Client.Replay.{counts_cover, raising, total}
use agrocylo_pip.Client.CampaignStatus.{
  ProductionProgress, funded, in_production, lifecycle_step_index, lifecycle_steps,
  presentational_campaign_status,
}
use agrocylo_pip.Client.Presentation.{stepper_agrees, stepper_monotone, tranche_released}
use agrocylo_pip.Client.Dispute.{
  DisputeEligibilityInput, evaluate_dispute_eligibility, farmer, granted,
}
use agrocylo_pip.Client.MayDispute.{Decides, evaluate_dispute_eligibility_lem}
use agrocylo_pip.Prelude.{
  Bool, List, String, [], arith, false, if◌then◌else◌, length, ltb, none, refl, some, true, ◌++◌,
  ◌+◌, ◌<◌, ◌∷◌, ◌≡◌, ◌≤◌,
}
use agrocylo_pip.Client.SocketIo.{Message, SocketIo, subscribe_campaign, unsubscribe_campaign}
use agrocylo_pip.Client.SocketManager.{
  delete, get, get_socket, join_campaign_room, leave_campaign_room, on_connect, on_disconnect,
  resubscribe, set,
}
use agrocylo_pip.Client.Rooms.{
  Action, connects, disconnects, in_room, joins, leaves, listens, wanted,
}
use agrocylo_pip.Client.RoomsHeld.{at_start, rooms_held, run_from}
use agrocylo_pip.Client.Reconnect.{reconnects}

record Wire : Type 0 where
  up : Bool
  got : List Message
  waiting : List Message

abbrev send : Message → Wire → Wire
send m w =
    if w.up
    then record w { got = w.got ++ (m ∷ []) }
    else record w { waiting = w.waiting ++ (m ∷ []) }

send-up : (m : Message) (w : Wire) → (send m w).up ≡ w.up
send-up m w = ground arith

abbrev wires : SocketIo
wires = record {
  Socket = Wire;
  io = λ url. record { up = false; got = []; waiting = [] };
  connected = λ w. w.up;
  emit = send;
  connect = λ w. record { up = true; got = w.waiting; waiting = [] };
  disconnect = λ w. record { up = false; got = []; waiting = [] };
  received = λ w. w.got;
  buffered = λ w. w.waiting;
  io-connected = λ url. refl;
  io-buffered = λ url. refl;
  emit-connected = send-up;
  emit-received = λ m w on. rw on refl;
  emit-buffered = λ m w off. rw off refl;
  connect-connected = λ w. refl;
  connect-received = λ w off. refl;
  disconnect-connected = λ w. refl;
  disconnect-buffered = λ w on. refl;
}

-- Two components want campaign 7 and one wants 8; offline, 8 is left and 9 is joined.
abbrev busy_day : List Action
busy_day =
    joins "7"
    ∷ connects
    ∷ joins "7"
    ∷ joins "8"
    ∷ leaves "7"
    ∷ disconnects
    ∷ leaves "8"
    ∷ joins "9"
    ∷ connects
    ∷ []

abbrev after_day : Wire
after_day = record {
  up = true;
  got = unsubscribe_campaign "8" ∷ subscribe_campaign "7" ∷ subscribe_campaign "9" ∷ [];
  waiting = [];
}

busy_day_runs :
    (run_from wires "wss://agrocylo" busy_day (at_start wires "wss://agrocylo")).socket
    ≡ some after_day
unfolding join_campaign_room leave_campaign_room on_connect on_disconnect get set delete resubscribe
    get_socket
busy_day_runs = refl

rooms_held_example : in_room "7" after_day.got false ≡ ltb 0 (wanted busy_day "7")
rooms_held_example =
    rooms_held wires "wss://agrocylo" busy_day after_day refl busy_day_runs refl "7"

reconnects_example :
    (s : Wire) × ((run_from wires "wss://agrocylo"
        (listens ∷ connects ∷ [])
        (run_from wires "wss://agrocylo" busy_day (at_start wires "wss://agrocylo"))).socket
      ≡ some s)
    × (s.up ≡ true)
    × ((k : String) → in_room k s.got false ≡ ltb 0 (wanted busy_day k))
reconnects_example = reconnects wires "wss://agrocylo" busy_day refl

-- The farmer of a funded campaign
abbrev farmer_of_funded : DisputeEligibilityInput
farmer_of_funded = record {
  status = some funded;
  wallet_address = some "GFARMER";
  farmer_address = some "GFARMER";
  admin_address = some "GADMIN";
  contribution = none;
}

evaluate_dispute_eligibility_lem_example :
    Decides farmer_of_funded (evaluate_dispute_eligibility farmer_of_funded)
evaluate_dispute_eligibility_lem_example = evaluate_dispute_eligibility_lem farmer_of_funded

farmer_is_granted : evaluate_dispute_eligibility farmer_of_funded ≡ granted farmer
unfolding evaluate_dispute_eligibility
farmer_is_granted = refl

abbrev one_released : ProductionProgress
one_released = record { tranches = some (false ∷ true ∷ []); released_amount = none }

stepper_agrees_example :
    (lifecycle_step_index funded (some one_released)
      ≡ lifecycle_step_index (presentational_campaign_status funded (some one_released)) none)
    × (lifecycle_step_index funded (some one_released) < length lifecycle_steps)
stepper_agrees_example = stepper_agrees funded (some one_released)

stepper_monotone_example :
    lifecycle_step_index funded (some one_released) ≤ lifecycle_step_index in_production none
stepper_monotone_example =
    stepper_monotone funded in_production (some one_released) none tranche_released

-- The list begins with the funding of a campaign whose creation is of an earlier ledger.
abbrev some_history : List EscrowEvent
some_history =
    record { name = "CampaignFunded"; campaign_id = "C1"; ledger = 7 }
    ∷ record { name = "CampaignCreated"; campaign_id = "C1"; ledger = 3 }
    ∷ record { name = "CampaignCreated"; campaign_id = "C2"; ledger = 9 }
    ∷ []

counts_cover_example :
    let m = compute_analytics_metrics some_history in
    (total m.campaigns_by_status ≡ m.total_campaigns)
    × (m.reached_target + m.still_raising + m.failed_campaigns ≡ m.total_campaigns)
    × (m.still_raising ≡ raising (replay (sorted some_history) []))
counts_cover_example = counts_cover some_history

some_history_counts :
    let m = compute_analytics_metrics some_history in
    (m.total_campaigns ≡ 2) × (m.reached_target ≡ 1) × (m.still_raising ≡ 1)
unfolding compute_analytics_metrics replay replay_event replay_named assign update
some_history_counts = (refl, refl, refl)
