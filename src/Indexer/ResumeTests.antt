-- ===== src/Indexer/ResumeTests.antt =====
-- A cursor that is persisted and loaded again.
use agrocylo_pip.Store.Memory.Cursors.{cursors_of}
use agrocylo_pip.Store.Tables.{IndexerCursor}
use agrocylo_pip.Indexer.PollTests.{one_event}
use agrocylo_pip.Prelude.{List, String, [], false, refl, some, ℕ, ◌∷◌, ◌≡◌}
use agrocylo_pip.Indexer.Listener.{persist_cursor, save_cursor}
use agrocylo_pip.Indexer.Listener.Lifecycle.{cursor_from, load_cursor}
use agrocylo_pip.Indexer.Listener.Resume.{load_cursor-persist_cursor}
use agrocylo_pip.Store.Action.{call_refused, find_cursors, pure, returned, run, threw, ◌>>=◌}
use agrocylo_pip.Store.Memory.{Memory, in_memory, starting_with, write}

abbrev two_ids : List String
two_ids = "CESCROW" ∷ "CSHARES" ∷ []

abbrev row_at : ℕ → String → IndexerCursor
row_at l k = record { contract_id = k; last_processed_ledger = l }

abbrev saved_to : ℕ → Memory
saved_to l = (persist_cursor in_memory one_event two_ids l (starting_with [])).1

load_cursor-persist_cursor_example :
    (load_cursor in_memory one_event two_ids (some 5) (saved_to 42)).0 ≡ returned 42
unfolding persist_cursor save_cursor pure find_cursors cursors_of run write
load_cursor-persist_cursor_example =
    load_cursor-persist_cursor in_memory one_event "CESCROW" ("CSHARES" ∷ []) (some 5) 42
      (starting_with []) (saved_to 42) (row_at 42 "CESCROW" ∷ row_at 42 "CSHARES" ∷ [])
      (λ k r e. cc) refl refl refl

-- Without a row the configured ledger is the first that is fetched.
first_run : (load_cursor in_memory one_event two_ids (some 5) (starting_with [])).0 ≡ returned 4
unfolding load_cursor cursor_from pure ◌>>=◌ find_cursors cursors_of
first_run = refl

-- A refused cursor row fails the whole save, and the other row is written all the same.
half_saved :
    let (r, s) = persist_cursor in_memory one_event two_ids 42 (starting_with (false ∷ [])) in
    (r ≡ threw (call_refused "connection"))
    × (s.tables.cursors "CSHARES" ≡ some (row_at 42 "CSHARES"))
unfolding persist_cursor save_cursor pure run write
half_saved = (refl, refl)
