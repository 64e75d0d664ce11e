-- ===== src/Indexer/Listener/Unread.antt =====
-- Polls do not read the event of an id that is in the set.
use agrocylo_pip.Indexer.Listener.Fetch.{fetch_pages-keeps}
use agrocylo_pip.Indexer.Listener.Cursor.{finish_poll_lem}
use agrocylo_pip.Prelude.{
  Bool-cases, List, Option, Option-cases, String, [], ap, eq_iff, false, inl, inr, ltb, none, not,
  refl, str_eq, suc, sym, true, zero, ℕ, ◌+◌, ◌||◌, ◌∙◌, ◌∷◌, ◌≡◌,
}
use agrocylo_pip.Prelude.Text.{has}
use agrocylo_pip.Indexer.Types.{RawSorobanEvent, failed}
use agrocylo_pip.Indexer.Listener.{
  Fetched, From, Listener, Progress, Rpc, both_done, capped, cursor, deliver, drained, failed,
  fetch_pages, finish_poll, handle_event, is_empty, max_pages_per_poll, next_cursor, persist_cursor,
  poll_events, poll_from, process_page, save, save_cursor, start_ledger,
}
use agrocylo_pip.Indexer.Listener.Pages.{
  handle_event-keeps, process_page-keeps, process_page_handled, process_page_threw,
}
use agrocylo_pip.Store.Client.{Prisma}

-- A server whose events decode otherwise
abbrev pub decoded_by : (rpc : Rpc) → (rpc.Event → Option RawSorobanEvent) → Rpc
decoded_by rpc other = record rpc { decode = other }

-- The two ways of decoding may differ on the events with the id `k`, and on no other.
abbrev pub DifferAt : (k : String) (rpc : Rpc) → (rpc.Event → Option RawSorobanEvent) → Type 0
DifferAt k rpc other = (e : rpc.Event) → str_eq (rpc.id e) k ≡ false → rpc.decode e ≡ other e

module _ (prisma : Prisma) (rpc : Rpc) (other : rpc.Event → Option RawSorobanEvent) (k : String)
    (same : DifferAt k rpc other) where
  open prisma use {State}
  open rpc use {Event, id}

  abbrev HasId : Progress State → Type 0
  HasId p = has p.processed_event_ids k ≡ true

  handle_event-same :
      (e : Event) (p : Progress State)
      → HasId p
      → handle_event prisma rpc e p ≡ handle_event prisma (decoded_by rpc other) e p
  unfolding handle_event deliver
  handle_event-same e p h = elim (Bool-cases (has p.processed_event_ids (id e))) [
    | inl old ↦ rw old refl
    | inr new ↦ elim (Bool-cases (str_eq (id e) k)) [
      | inl one ↦ cc (h, new, (eq_iff (id e) k).0 one)
      | inr differs ↦ rw (new, same e differs) refl
    ]
  ]

  process_page-same :
      (es : List Event) (p : Progress State)
      → HasId p
      → process_page prisma rpc es p ≡ process_page prisma (decoded_by rpc other) es p
  process_page-same [] p h = unfold process_page in refl
  process_page-same (e ∷ es) p h =
      let here = handle_event-same e p h in
      let kept = handle_event-keeps prisma rpc k e p h in
      elim (Bool-cases (handle_event prisma rpc e p).0) [
        | inl handled ↦
            process_page_handled prisma rpc e es p handled
            ∙ process_page-same es _ kept
            ∙ ap (λ r. process_page prisma (decoded_by rpc other) es r.1) here
            ∙ sym (
                process_page_handled prisma (decoded_by rpc other) e es p
                  (ap (λ r. r.0) (sym here) ∙ handled))
        | inr threw ↦
            process_page_threw prisma rpc e es p threw
            ∙ ap (λ r. (false, r.1)) here
            ∙ sym (
                process_page_threw prisma (decoded_by rpc other) e es p
                  (ap (λ r. r.0) (sym here) ∙ threw))
      ]

  fetch_pages-same :
      (pages : ℕ) (from : From) (seen : Option ℕ) (p : Progress State)
      → HasId p
      → fetch_pages prisma rpc pages from seen p
        ≡ fetch_pages prisma (decoded_by rpc other) pages from seen p
  unfolding fetch_pages
  fetch_pages-same zero from seen p h = refl
  fetch_pages-same (suc pages) from seen p h = elim (Option-cases (rpc.get_events from)) [
    | inl silent ↦ rw (silent, fetch_pages) refl
    | inr (page, answered) ↦
        let here = process_page-same page.events p h in
        let kept = process_page-keeps prisma rpc k page.events p h in
        let after = ap (λ r. r.1) (sym here) in
        rw (answered, fetch_pages)
          (elim (Bool-cases (process_page prisma rpc page.events p).0) [
            | inr stopped ↦
                let stopped_too = ap (λ r. r.0) (sym here) ∙ stopped in
                rw (stopped, stopped_too, after) refl
            | inl ended ↦
                let ended_too = ap (λ r. r.0) (sym here) ∙ ended in
                elim (Option-cases (next_cursor page)) [
                  | inl last ↦ rw (ended, ended_too, last, after) refl
                  | inr (c, on) ↦
                      rw (ended, ended_too, on, after) (fetch_pages-same pages (cursor c) _ _ kept)
                ]
          ])
  ]

  persist_cursor-same :
      (ids : List String) (l : ℕ) (s : State)
      → persist_cursor prisma rpc ids l s ≡ persist_cursor prisma (decoded_by rpc other) ids l s
  unfolding persist_cursor save_cursor
  persist_cursor-same [] l s = refl
  persist_cursor-same (i ∷ ids) l s =
      ap (λ r. (both_done (save_cursor prisma rpc l i s).0 r.0, r.1))
        (persist_cursor-same ids l (save_cursor prisma rpc l i s).1)

  save-same :
      (ids : List String) (now : ℕ) (l : Listener State)
      → save prisma rpc ids now l ≡ save prisma (decoded_by rpc other) ids now l
  unfolding save persist_cursor save_cursor
  save-same ids now l =
      rw (save, persist_cursor-same ids l.last_processed_ledger l.progress.db) refl

  finish_poll-same :
      (ids : List String) (now latest : ℕ) (fetched : Fetched) (l : Listener State)
      → finish_poll prisma rpc ids now latest fetched l
        ≡ finish_poll prisma (decoded_by rpc other) ids now latest fetched l
  unfolding finish_poll
  finish_poll-same ids now latest failed l = refl
  finish_poll-same ids now latest drained l = save-same ids now _
  finish_poll-same ids now latest (capped o) l = save-same ids now _

  pub poll_events-same :
      (ids : List String) (now : ℕ) (l : Listener State)
      → HasId l.progress
      → poll_events prisma rpc ids now l ≡ poll_events prisma (decoded_by rpc other) ids now l
  unfolding poll_events poll_from
  poll_events-same ids now l h = elim (Bool-cases (not l.is_running || is_empty ids)) [
    | inl idle ↦ rw (idle, poll_events) refl
    | inr busy ↦ elim (Option-cases (rpc.latest_ledger)) [
      | inl silent ↦ rw (busy, silent, poll_events) refl
      | inr (latest, answered) ↦ elim (Bool-cases (ltb latest (l.last_processed_ledger + 1))) [
        | inl behind ↦ rw (busy, answered, behind, poll_events) refl
        | inr ahead ↦
            let from = start_ledger (l.last_processed_ledger + 1) in
            rw (busy, answered, ahead, poll_events)
              (ap
                  (λ (r : Fetched × Progress State).
                    finish_poll prisma rpc ids now latest r.0 (record l { progress = r.1 }))
                  (fetch_pages-same max_pages_per_poll from none l.progress h)
                ∙ finish_poll-same ids now latest _ _)
      ]
    ]
  ]

  pub poll_events-keeps :
      (ids : List String) (now : ℕ) (l : Listener State)
      → HasId l.progress
      → HasId (poll_events prisma rpc ids now l).progress
  unfolding poll_events poll_from
  poll_events-keeps ids now l h = elim (Bool-cases (not l.is_running || is_empty ids)) [
    | inl idle ↦ rw (idle, poll_events) h
    | inr busy ↦ elim (Option-cases (rpc.latest_ledger)) [
      | inl silent ↦ rw (busy, silent, poll_events) h
      | inr (latest, answered) ↦ elim (Bool-cases (ltb latest (l.last_processed_ledger + 1))) [
        | inl behind ↦ rw (busy, answered, behind, poll_events) h
        | inr ahead ↦
            let from = start_ledger (l.last_processed_ledger + 1) in
            let r = fetch_pages prisma rpc max_pages_per_poll from none l.progress in
            let (moved, same_ids) =
              finish_poll_lem prisma rpc ids now latest r.0 (record l { progress = r.1 }) in
            rw (busy, answered, ahead, poll_events)
              (rw same_ids
                (fetch_pages-keeps prisma rpc k max_pages_per_poll from none l.progress h))
      ]
    ]
  ]
