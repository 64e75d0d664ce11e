-- ===== src/Indexer/Listener/Cursor.antt =====
-- The ledger cursor of `pollEvents` never passes an event that was not handled.
use agrocylo_pip.Prelude.{
  ℕ, ◌+◌, ◌≤◌, ◌≡◌, refl, inl, inr, none, some, not, ◌||◌, List, String, All, arith, ltb,
  Bool-cases, Option-cases,
}
use agrocylo_pip.Indexer.Listener.{
  From, start_ledger, Rpc, Listener, Fetched, drained, capped, failed, max_pages_per_poll,
  fetch_pages, advance, save, finish_poll, poll_from, is_empty, poll_events,
}
use agrocylo_pip.Indexer.Listener.Pages.{All-map, All-map₂, Serves, IsSeen}
use agrocylo_pip.Indexer.Listener.Fetch.{Passed, fetch_pages-Covers}
use agrocylo_pip.Store.Client.{Prisma}

module _ (prisma : Prisma) (rpc : Rpc) where
  open prisma use {State}
  open rpc use {Event, id, ledger}

  -- Saving the cursor changes neither it nor the set of ids.
  save_lem :
      (ids : List String) (now : ℕ) (l : Listener State)
      → ((save prisma rpc ids now l).last_processed_ledger ≡ l.last_processed_ledger)
        × ((save prisma rpc ids now l).progress.processed_event_ids
            ≡ l.progress.processed_event_ids)
  unfolding save
  save_lem ids now l = ground arith

  -- Where the poll ended as `fetched`, a ledger above the old cursor and not above the new one is
  -- passed.
  advance-Passed :
      (latest last l : ℕ) (fetched : Fetched)
      → last + 1 ≤ l
      → l ≤ advance latest last fetched
      → Passed fetched l
  unfolding advance
  advance-Passed latest last l drained above h = tt
  advance-Passed latest last l (capped (some seen)) above h = omega arith
  advance-Passed latest last l (capped none) above h = absurd (omega arith)
  advance-Passed latest last l failed above h = absurd (omega arith)

  pub finish_poll_lem :
      (ids : List String) (now latest : ℕ) (fetched : Fetched) (l : Listener State)
      → ((finish_poll prisma rpc ids now latest fetched l).last_processed_ledger
          ≡ advance latest l.last_processed_ledger fetched)
        × ((finish_poll prisma rpc ids now latest fetched l).progress.processed_event_ids
            ≡ l.progress.processed_event_ids)
  unfolding finish_poll advance
  finish_poll_lem ids now latest failed l = (refl, refl)
  finish_poll_lem ids now latest drained l = save_lem ids now _
  finish_poll_lem ids now latest (capped none) l = save_lem ids now _
  finish_poll_lem ids now latest (capped (some seen)) l = save_lem ids now _

  module _ (rest : From → List Event) (serves : Serves rpc rest) where
    -- What the cursor `l'` has passed since `l` is in the set of ids.
    abbrev pub PassesSeen : Listener State → Listener State → Type 0
    PassesSeen l l' =
        All (λ e. ledger e ≤ l'.last_processed_ledger → IsSeen prisma rpc l'.progress e)
          (rest (start_ledger (l.last_processed_ledger + 1)))

    poll_from-PassesSeen :
        (ids : List String) (now latest : ℕ) (l : Listener State)
        → PassesSeen l (poll_from prisma rpc ids now latest l)
    unfolding poll_from
    poll_from-PassesSeen ids now latest l =
        let from = start_ledger (l.last_processed_ledger + 1) in
        let r = fetch_pages prisma rpc max_pages_per_poll from none l.progress in
        let (moved, same_ids) = finish_poll_lem ids now latest r.0 (record l { progress = r.1 }) in
        All-map₂ _ _ _
          (λ e above covered below. cc (
            same_ids,
            covered (
                advance-Passed latest l.last_processed_ledger (ledger e) r.0 above
                  (rw moved at below)),
          ))
          (rest from) (serves.from_start (l.last_processed_ledger + 1))
          (fetch_pages-Covers prisma rpc rest serves max_pages_per_poll from none l.progress tt)

    unchanged-PassesSeen : (l : Listener State) → PassesSeen l l
    unchanged-PassesSeen l =
        All-map _ _ (λ e above below. absurd (omega arith)) _
          (serves.from_start (l.last_processed_ledger + 1))

    -- Over a server that keeps to the documented paging, however a poll goes (no answer, a failed
    -- page, the page cap or the last page), every event that was to be served from the old cursor
    -- on and whose ledger the new cursor has reached is in the set of handled ids.
    pub poll_events-PassesSeen :
        (ids : List String) (now : ℕ) (l : Listener State)
        → PassesSeen l (poll_events prisma rpc ids now l)
    unfolding poll_events
    poll_events-PassesSeen ids now l = elim (Bool-cases (not l.is_running || is_empty ids)) [
      | inl idle ↦ rw (idle, poll_events) (unchanged-PassesSeen l)
      | inr busy ↦ elim (Option-cases (rpc.latest_ledger)) [
        | inl silent ↦ rw (busy, silent, poll_events) (unchanged-PassesSeen l)
        | inr (latest, answered) ↦ elim (Bool-cases (ltb latest (l.last_processed_ledger + 1))) [
          | inl behind ↦ rw (busy, answered, behind, poll_events) (unchanged-PassesSeen l)
          | inr ahead ↦
              rw (busy, answered, ahead, poll_events) (poll_from-PassesSeen ids now latest l)
        ]
      ]
    ]
