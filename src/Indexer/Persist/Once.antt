-- ===== src/Indexer/Persist/Once.antt =====
-- `persistEvent` records each event once.
use agrocylo_pip.Prelude.{◌≡◌, ◌≢◌, refl, sym, ◌∙◌, Option, none, some, true, String}
use agrocylo_pip.Indexer.Types.{ParsedEvent}
use agrocylo_pip.Indexer.Handlers.{handle}
use agrocylo_pip.Indexer.Persist.{transaction_of, persist_new, persist_event}
use agrocylo_pip.Indexer.Persist.Frame.{persist_event-IsWriteOf}
use agrocylo_pip.Store.Tables.{Transaction}
use agrocylo_pip.Store.Client.{create_transaction, Prisma}
use agrocylo_pip.Store.Action.{Outcome, returned, threw, pure, run, find_transaction}
use agrocylo_pip.Store.Trace.{Trace-keeps}
use agrocylo_pip.Store.Laws.{write_keeps_transaction, create_transaction_lem}
use agrocylo_pip.Store.Returns.{
  bind_returned, bind_step, bind_threw, view-find_transaction, run_returned,
  find_transaction_returned,
}

module _ (prisma : Prisma) where
  open prisma use {State, view}

  -- An audit row stays as it is, however `persistEvent` ends.
  pub persist_event-keeps :
      (parsed : ParsedEvent) (s : State) (k : String) (t : Transaction)
      → (view s).transactions k ≡ some t
      → (view (persist_event prisma parsed s).1).transactions k ≡ some t
  persist_event-keeps parsed s k t h =
      Trace-keeps (λ v. v.transactions k ≡ some t)
        (λ w v v' _ e. write_keeps_transaction k t w v v' e)
        ((persist_event-IsWriteOf prisma parsed).trace s) h

  persist_new_records :
      (parsed : ParsedEvent) (o : Option Transaction) (s : State)
      → (persist_new prisma parsed o s).0 ≡ returned true
      → (o ≡ none)
        × ((view (persist_new prisma parsed o s).1).transactions parsed.id
            ≡ some (transaction_of parsed))
  unfolding persist_new
  persist_new_records parsed (some t) s e = unfold pure in cc
  persist_new_records parsed none s e =
      let (_, handled, e', same) = bind_returned (handle prisma parsed parsed.payload) _ s true e in
      let s' = (handle prisma parsed parsed.payload s).1 in
      let (_, wrote, _, same') =
        bind_returned (run prisma (create_transaction (transaction_of parsed))) _ s' true e' in
      let written =
        create_transaction_lem (transaction_of parsed) _ _ (run_returned prisma _ s' wrote) in
      (refl, rw (same ∙ same') (unfold pure in written))

  -- An event reported as new had no audit row before, and has its own row, `transaction_of`, after.
  pub persist_event_records :
      (parsed : ParsedEvent) (s : State)
      → (persist_event prisma parsed s).0 ≡ returned true
      → ((view s).transactions parsed.id ≡ none)
        × ((view (persist_event prisma parsed s).1).transactions parsed.id
            ≡ some (transaction_of parsed))
  unfolding persist_event
  persist_event_records parsed s e =
      let (o, found, e', same) = bind_returned (find_transaction prisma parsed.id) _ s true e in
      let s' = (find_transaction prisma parsed.id s).1 in
      let (fresh, recorded) = persist_new_records parsed o s' e' in
      (sym (find_transaction_returned prisma parsed.id s o found) ∙ fresh, rw same recorded)

  persist_known :
      (parsed : ParsedEvent) (t : Transaction) (s : State)
      → (view s).transactions parsed.id ≡ some t
      → (r : Outcome (Option Transaction)) → (find_transaction prisma parsed.id s).0 ≡ r
      → ((persist_event prisma parsed s).0 ≢ returned true)
        × (view (persist_event prisma parsed s).1 ≡ view s)
  unfolding persist_event
  persist_known parsed t s known (returned o) found =
      let is_some : o ≡ some t = find_transaction_returned prisma parsed.id s o found ∙ known in
      let step =
        bind_step (find_transaction prisma parsed.id) (persist_new prisma parsed) s o found in
      rw step (
        rw is_some (unfold persist_new pure in (λ e. cc, view-find_transaction prisma parsed.id s)))
  persist_known parsed t s known (threw x) found =
      rw (bind_threw (find_transaction prisma parsed.id) (persist_new prisma parsed) s x found)
        (λ e. cc, view-find_transaction prisma parsed.id s)

  -- An event with an audit row is never reported as new again, and processing it changes no table.
  pub persist_event_again :
      (parsed : ParsedEvent) (t : Transaction) (s : State)
      → (view s).transactions parsed.id ≡ some t
      → ((persist_event prisma parsed s).0 ≢ returned true)
        × (view (persist_event prisma parsed s).1 ≡ view s)
  persist_event_again parsed t s known = persist_known parsed t s known _ refl
