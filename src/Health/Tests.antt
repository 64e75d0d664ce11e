-- ===== src/Health/Tests.antt =====
-- Health checks of a listener that polls a server out of reach, and one without new ledgers.
use agrocylo_pip.Indexer.PollTests.{listening, one_event}
use agrocylo_pip.Prelude.{[], arith, inl, inr, none, refl, some, ◌*◌, ◌+◌, ◌∷◌, ◌≤◌}
use agrocylo_pip.Indexer.Listener.{Listener, Rpc}
use agrocylo_pip.Indexer.Listener.Lifecycle.{get_health_status}
use agrocylo_pip.Store.Memory.{Memory, in_memory}
use agrocylo_pip.Health.{Fails, Passes, check}
use agrocylo_pip.Health.Outage.{
  AreFruitless, IsWell, Polls, Tells, check_lem, fruitless_polls_checked, polled,
}

abbrev silent_server : Rpc
silent_server = record one_event { get_events = λ from. none }

-- The network's last ledger stays the listener's.
abbrev idle_server : Rpc
idle_server = record one_event { latest_ledger = some 11 }

abbrev three_polls : Polls
three_polls = (silent_server, 5500) ∷ (idle_server, 10500) ∷ (idle_server, 15500) ∷ []

three_polls-AreFruitless : AreFruitless 11 three_polls
three_polls-AreFruitless =
    (inr (λ from. refl), (inl (λ latest e. ground arith), (inl (λ latest e. ground arith), tt)))

abbrev polled_once : Listener Memory
polled_once = record listening { last_successful_poll_at = some 500 }

check_lem_example :
    Tells
      (IsWell 5000 15600 (get_health_status ("CESCROW" ∷ []) polled_once))
      (check "soroban_indexer" none 15600 (get_health_status ("CESCROW" ∷ []) polled_once))
check_lem_example =
    check_lem "soroban_indexer" none 15600 (get_health_status ("CESCROW" ∷ []) polled_once)

fruitless_polls_checked_example : Tells (15600 ≤ 500 + 3 * 5000) (
    check "soroban_indexer" none 15600 (
      get_health_status
        ("CESCROW" ∷ [])
        (polled in_memory ("CESCROW" ∷ []) three_polls polled_once)))
fruitless_polls_checked_example =
    fruitless_polls_checked in_memory ("CESCROW" ∷ []) three_polls polled_once "soroban_indexer"
      none 15600 (λ e. cc) refl three_polls-AreFruitless

-- At 15600 the idle listener has stalled; one that never polled is still up.
stalls_at :
    Fails (check "soroban_indexer" none 15600 (get_health_status ("CESCROW" ∷ []) polled_once))
    × Passes (check "soroban_indexer" none 900000000 (get_health_status ("CESCROW" ∷ []) listening))
unfolding check get_health_status
stalls_at = (refl, refl)
