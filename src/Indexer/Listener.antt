-- ===== src/Indexer/Listener.antt =====
-- indexer/soroban-event-listener.service.ts. The Soroban RPC server and `scValToNative` are third
-- parties: a poll is given their answers as an `Rpc`. A call that throws answers `none`.
pub mod Pages
pub mod Fetch
pub mod Cursor
pub mod Limits
pub mod Unread
pub mod Lost
pub mod Lifecycle
pub mod Resume
use agrocylo_pip.Prelude.{
  ℕ, zero, suc, ◌+◌, ◌-◌, ◌*◌, ◌<◌, ◌≤◌, Option, none, some, Bool, true, false, not, ◌||◌, ◌&&◌,
  List, [], ◌∷◌, ◌++◌, String, str_eq, ltb, leb, ◌==◌, length, if◌then◌else◌,
}
use agrocylo_pip.Indexer.Types.{RawSorobanEvent}
use agrocylo_pip.Prelude.Text.{has}
use agrocylo_pip.Indexer.Process.{CampaignEventPayload, process_event}
use agrocylo_pip.Store.Tables.{IndexerCursor}
use agrocylo_pip.Store.Client.{Prisma, upsert_cursor}
use agrocylo_pip.Store.Action.{
  Outcome, returned, threw, Action, pure, ◌>>=◌, ◌>>◌, run, find_cursors,
}

-- Where a page begins: `cursor ? { cursor } : { startLedger }`
pub data From : Type 0 where
  start_ledger : ℕ → From
  cursor : String → From

pub record Page (Event : Type 0) : Type 0 where
  pub events : List Event
  pub next : Option String

-- The answers of the RPC server during one poll; `decode` is `scValToNative` on topics and value.
pub record Rpc : Type 1 where
  pub Event : Type 0
  pub id : Event → String
  pub ledger : Event → ℕ
  pub decode : Event → Option RawSorobanEvent
  pub latest_ledger : Option ℕ
  pub get_events : From → Option (Page Event)

abbrev pub events_page_limit : ℕ
events_page_limit = 100

abbrev pub max_pages_per_poll : ℕ
max_pages_per_poll = 50

-- What a poll changes while it fetches: the ids seen, the messages sent, and the database.
pub record Progress (Db : Type 0) : Type 0 where
  pub processed_event_ids : List String
  pub sent : List CampaignEventPayload
  pub db : Db

-- The fields of `SorobanEventListenerService`
pub record Listener (Db : Type 0) : Type 0 where
  pub is_running : Bool
  pub last_processed_ledger : ℕ
  pub last_successful_poll_at : Option ℕ
  pub progress : Progress Db

-- How the loop over the pages ends: all drained, the page cap with the ledger of the last event
-- seen, or an exception.
pub data Fetched : Type 0 where
  drained : Fetched
  capped : Option ℕ → Fetched
  failed : Fetched

abbrev pub last_of {ℓ} : {A : Type ℓ} → List A → Option A
last_of [] = none
last_of (x ∷ []) = some x
last_of (_ ∷ y ∷ ys) = last_of (y ∷ ys)

-- `if (events.length > 0) lastEventLedgerSeen = events[events.length - 1].ledger`
abbrev pub last_seen {ℓ} : {A : Type ℓ} → (A → ℕ) → List A → Option ℕ → Option ℕ
last_seen ledger events before = elim (last_of events) [ none ↦ before | some e ↦ some (ledger e) ]

-- The cursor of the next page, or none where `!response.cursor || events.length < LIMIT`
abbrev pub next_cursor : {Event : Type 0} → Page Event → Option String
next_cursor page = elim page.next [
  | none ↦ none
  | some c ↦ if str_eq c "" || ltb (length page.events) events_page_limit then none else some c
]

-- `lastProcessedLedger` after the loop; `lastEventLedgerSeen - 1` is -1 at ledger 0, which the
-- network never has.
unfoldable pub advance : ℕ → ℕ → Fetched → ℕ
advance latest last drained = latest
advance latest last (capped (some seen)) = seen - 1
advance latest last (capped none) = last
advance latest last failed = last

abbrev pub is_empty : List String → Bool
is_empty [] = true
is_empty (_ ∷ _) = false

-- `Promise.all` of two calls without a result
abbrev pub both_done : Outcome (Unit {0}) → Outcome (Unit {0}) → Outcome (Unit {0})
both_done (returned _) rs = rs
both_done (threw x) rs = threw x

module _ (prisma : Prisma) (rpc : Rpc) where
  open prisma use {State}
  open rpc use {Event, id, ledger, decode}

  -- `processEvent` of the listener after decoding; false where decoding threw
  unfoldable pub deliver : Option RawSorobanEvent → Progress State → Bool × Progress State
  deliver none p = (false, p)
  deliver (some raw) p =
      let (messages, db) = process_event prisma raw p.db in
      (true, record p { sent = p.sent ++ messages; db = db })

  -- One round of `for (const event of events)`
  unfoldable pub handle_event : Event → Progress State → Bool × Progress State
  unfolding deliver has
  handle_event e p =
      if has p.processed_event_ids (id e)
      then (true, p)
      else deliver (decode e) (record p { processed_event_ids = id e ∷ p.processed_event_ids })

  unfoldable pub process_page : List Event → Progress State → Bool × Progress State
  process_page [] p = (true, p)
  process_page (e ∷ es) p =
      let (handled, p') = handle_event e p in
      elim handled [ true ↦ process_page es p' | false ↦ (false, p') ]

  -- `for (let page = 0; page < MAX_PAGES_PER_POLL; page += 1)`, by the pages left
  unfoldable pub fetch_pages : ℕ → From → Option ℕ → Progress State → Fetched × Progress State
  fetch_pages zero from seen p = (capped seen, p)
  fetch_pages (suc pages) from seen p = elim (rpc.get_events from) [
    | none ↦ (failed, p)
    | some page ↦
        let (handled, p') = process_page page.events p in
        elim handled [
          | false ↦ (failed, p')
          | true ↦ elim (next_cursor page) [
            | none ↦ (drained, p')
            | some c ↦ fetch_pages pages (cursor c) (last_seen ledger page.events seen) p'
          ]
        ]
  ]

  -- One upsert of `persistCursor`
  unfoldable pub save_cursor : ℕ → String → Action State (Unit {0})
  save_cursor l contract_id = run prisma (
      upsert_cursor contract_id (λ r. record r { last_processed_ledger = l })
        (record { contract_id = contract_id; last_processed_ledger = l }))

  -- `Promise.all` starts every upsert, and throws if one did.
  unfoldable pub persist_cursor : List String → ℕ → Action State (Unit {0})
  persist_cursor [] l s = pure tt s
  persist_cursor (k ∷ ks) l s =
      let (r, s') = save_cursor l k s in
      let (rs, s'') = persist_cursor ks l s' in (both_done r rs, s'')

  -- The end of the `try` block, where no page failed: save the cursor, then note the time.
  unfoldable pub save : List String → ℕ → Listener State → Listener State
  save ids now l =
      let (r, db) = persist_cursor ids l.last_processed_ledger l.progress.db in
      let saved = record l { progress = record (l.progress) { db = db } } in
      elim r [ returned _ ↦ record saved { last_successful_poll_at = some now } | threw _ ↦ saved ]

  unfoldable pub finish_poll : List String → ℕ → ℕ → Fetched → Listener State → Listener State
  finish_poll ids now latest failed l = l
  finish_poll ids now latest fetched l =
      save ids now
        (record l { last_processed_ledger = advance latest l.last_processed_ledger fetched })

  unfoldable pub poll_from : List String → ℕ → ℕ → Listener State → Listener State
  poll_from ids now latest l =
      let (fetched, p) =
        fetch_pages max_pages_per_poll (start_ledger (l.last_processed_ledger + 1)) none
          l.progress in
      finish_poll ids now latest fetched (record l { progress = p })

  -- `pollEvents`, at the time `now`
  unfoldable pub poll_events : List String → ℕ → Listener State → Listener State
  poll_events ids now l = if not l.is_running || is_empty ids then l else elim (rpc.latest_ledger) [
    | none ↦ l
    | some latest ↦
        if ltb latest (l.last_processed_ledger + 1) then l else poll_from ids now latest l
  ]
