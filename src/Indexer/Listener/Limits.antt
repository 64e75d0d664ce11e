-- ===== src/Indexer/Listener/Limits.antt =====
-- Where polling stays in place: more events in one ledger than a poll fetches.
use mathlib.Core.Path.{subst}
use Prim.Native.Nat.add
use agrocylo_pip.Prelude.{
  All, Bool-cases, List, Option, Option-cases, String, [], ap, arith, drop, inl, inr, length, ltb,
  none, not, refl, some, suc, sym, take, take-nil, true, zero, ℕ, ◌*◌, ◌+◌, ◌-◌, ◌<◌, ◌||◌, ◌∙◌,
  ◌∷◌, ◌≡◌, ◌≢◌, ◌≤◌, ◌⊎◌,
}
use agrocylo_pip.Indexer.Listener.{
  Fetched, From, Listener, Page, Progress, Rpc, advance, capped, cursor, deliver, events_page_limit,
  fetch_pages, finish_poll, handle_event, is_empty, last_of, last_seen, max_pages_per_poll,
  next_cursor, poll_events, poll_from, process_page, save, start_ledger,
}
use agrocylo_pip.Indexer.Listener.Pages.{
  Serves, next_cursor-none, next_cursor-some, process_page_handled,
}
use agrocylo_pip.Store.Client.{Prisma}

length-take : {A : Type 0} (n : ℕ) (xs : List A) → n ≤ length xs → length (take n xs) ≡ n
length-take zero xs h = refl
length-take (suc n) [] h = absurd (omega arith)
length-take (suc n) (x ∷ xs) h = ap suc (length-take n xs (omega arith))

length-drop : {A : Type 0} (n k : ℕ) (xs : List A) → n + k < length xs → k < length (drop n xs)
length-drop zero k xs h = omega arith
length-drop (suc n) k [] h = absurd (omega arith)
length-drop (suc n) k (x ∷ xs) h = length-drop n k xs (omega arith)

module _ {A : Type 0} (P : A → Type 0) where
  All-take :
      (n k : ℕ) (xs : List A)
      → All P (take (n + k) xs)
      → All P (take n xs) × All P (take k (drop n xs))
  All-take zero k xs h = (tt, rw add.zero at h)
  All-take (suc n) k [] h = (tt, rw (take-nil k) tt)
  All-take (suc n) k (x ∷ xs) h =
      let (first, later) : P x × All P (take (n + k) xs) = rw add.suc at h in
      let (here, left) = All-take n k xs later in ((first, here), left)

  last_of-All : (xs : List A) → All P xs → 0 < length xs → (x : A) × (last_of xs ≡ some x) × P x
  last_of-All [] h filled = absurd (omega arith)
  last_of-All (x ∷ []) h filled = (x, refl, h.0)
  last_of-All (x ∷ y ∷ ys) h filled = last_of-All (y ∷ ys) h.1 (omega arith)

module _ (prisma : Prisma) (rpc : Rpc) where
  open prisma use {State}
  open rpc use {Event, id, ledger, decode}

  handle_event_total :
      (e : Event) (p : Progress State) → decode e ≢ none → (handle_event prisma rpc e p).0 ≡ true
  unfolding handle_event deliver
  handle_event_total e p good = elim (Option-cases (decode e)) [
    | inl bad ↦ absurd (good bad)
    | inr (raw, decoded) ↦ ground arith
  ]

  process_page_total :
      (es : List Event) (p : Progress State)
      → ((e : Event) → decode e ≢ none)
      → (process_page prisma rpc es p).0 ≡ true
  process_page_total [] p good = unfold process_page in refl
  process_page_total (e ∷ es) p good =
      rw (process_page_handled prisma rpc e es p (handle_event_total e p (good e)))
        (process_page_total es _ good)

  -- A server of which the ledger `l` has all the events that a poll can fetch from there: 50 full pages of
  -- them, and more is to come.
  pub record IsFlooded (rest : From → List Event) (l : ℕ) : Type 0 where
    pub decodes : (e : Event) → decode e ≢ none
    pub answers : (from : From) → (page : Page Event) × (rpc.get_events from ≡ some page)
    pub crowded :
        All
          (λ e. ledger e ≡ l)
          (take (max_pages_per_poll * events_page_limit) (rest (start_ledger l)))
    pub many : max_pages_per_poll * events_page_limit < length (rest (start_ledger l))

  finish_poll_capped :
      (l : ℕ) (ids : List String) (now latest : ℕ) (fetched : Fetched) (s : Listener State)
      → fetched ≡ capped (some l)
      → ((finish_poll prisma rpc ids now latest fetched s).last_processed_ledger ≡ l - 1)
        × ((finish_poll prisma rpc ids now latest fetched s).is_running ≡ s.is_running)
  unfolding finish_poll advance save
  finish_poll_capped l ids now latest fetched s e = rw e (ground arith)

  module _ (rest : From → List Event) (serves : Serves rpc rest) (l : ℕ)
      (flooded : IsFlooded rest l) where
    -- A page after which there is more goes on with a cursor.
    goes_on :
        (from : From) (page : Page Event)
        → rpc.get_events from ≡ some page
        → events_page_limit < length (rest from)
        → (c : String) × (next_cursor page ≡ some c)
          × (rest (cursor c) ≡ drop events_page_limit (rest from))
    goes_on from page answered more = elim (Option-cases (next_cursor page)) [
      | inl last ↦
          let none_left = next_cursor-none rpc rest serves from page answered last in
          let some_left = length-drop events_page_limit 0 (rest from) (omega arith) in
          absurd (omega (arith, ap length none_left, some_left))
      | inr (c, on) ↦
          let (there, filled) = next_cursor-some rpc rest serves page c on in
          (c, on, serves.more from page c answered there filled)
    ]

    -- A page of the flood ends with an event of the ledger.
    ends :
        (from : From) (page : Page Event)
        → rpc.get_events from ≡ some page
        → events_page_limit < length (rest from)
        → All (λ e. ledger e ≡ l) (take events_page_limit (rest from))
        → (seen : Option ℕ) → last_seen ledger page.events seen ≡ some l
    ends from page answered more crowded seen =
        let (e, last, here) =
          last_of-All (λ e. ledger e ≡ l) (take events_page_limit (rest from)) crowded
            (omega (arith, length-take events_page_limit (rest from) (omega arith))) in
        rw (serves.page_events from page answered, last, last_seen) (ap some here)

    fetch_pages_flooded :
        (pages : ℕ) (from : From) (seen : Option ℕ) (p : Progress State)
        → pages * events_page_limit < length (rest from)
        → All (λ e. ledger e ≡ l) (take (pages * events_page_limit) (rest from))
        → (pages ≢ 0) ⊎ (seen ≡ some l)
        → (fetch_pages prisma rpc pages from seen p).0 ≡ capped (some l)
    unfolding fetch_pages
    fetch_pages_flooded zero from seen p many crowded (inl h) = absurd (h refl)
    fetch_pages_flooded zero from seen p many crowded (inr h) = ap capped h
    fetch_pages_flooded (suc pages) from seen p many crowded h =
        let (page, answered) = flooded.answers from in
        let good = process_page_total page.events p flooded.decodes in
        let more : (events_page_limit < length (rest from)) = omega arith in
        let (c, on, left) = goes_on from page answered more in
        let split : suc pages * events_page_limit ≡ events_page_limit + pages * events_page_limit =
          omega arith in
        let (here, later) =
          All-take (λ e. ledger e ≡ l) events_page_limit (pages * events_page_limit) (rest from)
            (subst (λ n. All (λ e. ledger e ≡ l) (take n (rest from))) split crowded) in
        rw (answered, good, on, fetch_pages)
          (fetch_pages_flooded pages (cursor c) _ _
            (rw left
              (length-drop events_page_limit (pages * events_page_limit) (rest from) (omega arith)))
            (rw left later) (inr (ends from page answered more here seen)))

    -- Over a server that keeps to the documented paging and answers the poll, where the first 5000
    -- of the events that are left after the cursor lie in the ledger next to it, more are left than
    -- these, and all events decode, a poll that learns of a latest ledger leaves the cursor where
    -- it is, and the listener as running as it was.
    pub poll_stuck :
        (ids : List String) (now latest : ℕ) (s : Listener State)
        → s.last_processed_ledger + 1 ≡ l
        → rpc.latest_ledger ≡ some latest
        → let s' = poll_events prisma rpc ids now s in
          (s'.last_processed_ledger ≡ s.last_processed_ledger) × (s'.is_running ≡ s.is_running)
    unfolding poll_events poll_from
    poll_stuck ids now latest s e answered = elim (Bool-cases (not s.is_running || is_empty ids)) [
      | inl idle ↦ rw (idle, poll_events) (refl, refl)
      | inr busy ↦ elim (Bool-cases (ltb latest (s.last_processed_ledger + 1))) [
        | inl behind ↦ rw (busy, answered, behind, poll_events) (refl, refl)
        | inr ahead ↦
            let from = start_ledger (s.last_processed_ledger + 1) in
            let r = fetch_pages prisma rpc max_pages_per_poll from none s.progress in
            let (stays, same) =
              finish_poll_capped l ids now latest r.0 (record s { progress = r.1 })
                (fetch_pages_flooded max_pages_per_poll from none s.progress
                  (subst
                    (λ n. max_pages_per_poll * events_page_limit < length (rest (start_ledger n)))
                    (sym e) flooded.many)
                  (subst
                    (λ n.
                      All (λ e. ledger e ≡ l)
                        (take (max_pages_per_poll * events_page_limit) (rest (start_ledger n))))
                    (sym e) flooded.crowded)
                  (inl (omega arith))) in
            let cursor_stays : l - 1 ≡ s.last_processed_ledger = omega arith in
            rw (busy, answered, ahead, poll_events) (stays ∙ cursor_stays, same)
      ]
    ]
