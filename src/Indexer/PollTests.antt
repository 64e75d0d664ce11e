-- ===== src/Indexer/PollTests.antt =====
-- Polls against a small server that serves a single event.
use agrocylo_pip.Prelude.{
  List, [], false, if◌then◌else◌, leb, none, refl, some, str_eq, true, ◌∷◌, ◌≡◌,
}
use agrocylo_pip.Indexer.Types.{RawSorobanEvent}
use agrocylo_pip.Prelude.Text.{has}
use agrocylo_pip.Indexer.Tests.{indexer, raw_created}
use agrocylo_pip.Indexer.Listener.{
  From, Listener, Progress, Rpc, advance, cursor, deliver, fetch_pages, finish_poll, handle_event,
  persist_cursor, poll_events, poll_from, process_page, save, save_cursor, start_ledger,
}
use agrocylo_pip.Indexer.Listener.Lost.{Poll, failed_decode_loses, poll_all, poll_all_otherwise}
use agrocylo_pip.Indexer.Listener.Unread.{DifferAt}
use agrocylo_pip.Store.Action.{pure}
use agrocylo_pip.Store.Memory.{Memory, in_memory, starting_with}

abbrev pub served : From → List RawSorobanEvent
served (start_ledger n) = if leb n 12 then raw_created ∷ [] else []
served (cursor c) = []

abbrev pub one_event : Rpc
one_event = record {
  Event = RawSorobanEvent;
  id = λ e. e.id;
  ledger = λ e. e.ledger;
  decode = λ e. some e;
  latest_ledger = some 20;
  get_events = λ from. some (record { events = served from; next = none });
}

abbrev pub listening : Listener Memory
listening = record {
  is_running = true;
  last_processed_ledger = 11;
  last_successful_poll_at = none;
  progress = record { processed_event_ids = []; sent = []; db = starting_with [] };
}

-- The cursor reaches the latest ledger, and the event's id is in the set.
poll_one_event :
    let l = poll_events in_memory one_event ("CESCROW" ∷ []) 500 listening in
    (l.last_processed_ledger ≡ 20) × (has l.progress.processed_event_ids "0001-1" ≡ true)
unfolding poll_events poll_from fetch_pages process_page handle_event deliver finish_poll advance
    save persist_cursor save_cursor indexer pure
poll_one_event = (refl, refl)

-- The same server, whose event does not decode
abbrev garbled : Rpc
garbled = record one_event { decode = λ e. if str_eq e.id "0001-1" then none else some e }

abbrev before : Progress Memory
before = listening.progress

abbrev after_failure : Listener Memory
after_failure = record listening {
  progress = (handle_event in_memory garbled raw_created before).1;
}

-- Another poll, for which the event may be read after all
abbrev another : Poll
another = record { server = garbled; other = λ e. some e; contract_ids = "CESCROW" ∷ []; now = 505 }

garbled-DifferAt : DifferAt "0001-1" garbled (λ e. some e)
garbled-DifferAt e differs = rw differs refl

failed_decode_loses_example :
    let (handled, p) = handle_event in_memory garbled raw_created before in
    (handled ≡ false)
    × (p.sent ≡ [])
    × (p.db ≡ before.db)
    × (has p.processed_event_ids "0001-1" ≡ true)
    × (poll_all in_memory (another ∷ []) after_failure
        ≡ poll_all_otherwise in_memory (another ∷ []) after_failure)
failed_decode_loses_example =
    failed_decode_loses in_memory garbled raw_created before after_failure (another ∷ []) refl
      (unfold has in refl) refl (garbled-DifferAt, tt)
