-- ===== src/Indexer/Listener/Lost.antt =====
-- An event whose decoding threw is of no consequence to the polls that follow.
use agrocylo_pip.Prelude.{List, Option, String, [], ap, false, none, refl, true, ℕ, ◌∙◌, ◌∷◌, ◌≡◌}
use agrocylo_pip.Prelude.Text.{has}
use text.Mathlib.TextPositions.{eq_refl}
use agrocylo_pip.Indexer.Types.{RawSorobanEvent}
use agrocylo_pip.Indexer.Listener.{Listener, Progress, Rpc, deliver, handle_event, poll_events}
use agrocylo_pip.Store.Client.{Prisma}
use agrocylo_pip.Indexer.Listener.Unread.{DifferAt, decoded_by, poll_events-keeps, poll_events-same}

-- A later poll: its server, another way in which the events could decode there, the contracts and the time
pub record Poll : Type 1 where
  pub server : Rpc
  pub other : server.Event → Option RawSorobanEvent
  pub contract_ids : List String
  pub now : ℕ

abbrev pub DifferOnly : String → List Poll → Type 0
DifferOnly k [] = Unit
DifferOnly k (q ∷ qs) = DifferAt k q.server q.other × DifferOnly k qs

module _ (prisma : Prisma) where
  open prisma use {State}

  abbrev pub poll_all : List Poll → Listener State → Listener State
  poll_all [] l = l
  poll_all (q ∷ qs) l = poll_all qs (poll_events prisma q.server q.contract_ids q.now l)

  -- The same polls, where the events decode in the other way
  abbrev pub poll_all_otherwise : List Poll → Listener State → Listener State
  poll_all_otherwise [] l = l
  poll_all_otherwise (q ∷ qs) l =
      poll_all_otherwise qs
        (poll_events prisma (decoded_by q.server q.other) q.contract_ids q.now l)

  poll_all-same :
      (k : String) (qs : List Poll) (l : Listener State)
      → has l.progress.processed_event_ids k ≡ true
      → DifferOnly k qs
      → poll_all qs l ≡ poll_all_otherwise qs l
  poll_all-same k [] l h d = refl
  poll_all-same k (q ∷ qs) l h (at, later) =
      poll_all-same k qs _ (poll_events-keeps prisma q.server q.other k at q.contract_ids q.now l h)
        later
      ∙ ap (poll_all_otherwise qs)
          (poll_events-same prisma q.server q.other k at q.contract_ids q.now l h)

  handle_failed :
      (rpc : Rpc) (e : rpc.Event) (p : Progress State)
      → rpc.decode e ≡ none
      → has p.processed_event_ids (rpc.id e) ≡ false
      → let (handled, p') = handle_event prisma rpc e p in
        (handled ≡ false)
        × (p'.sent ≡ p.sent)
        × (p'.db ≡ p.db)
        × (has p'.processed_event_ids (rpc.id e) ≡ true)
  unfolding handle_event deliver has
  handle_failed rpc e p bad new = rw (new, bad) (refl, refl, refl, rw (eq_refl (rpc.id e)) refl)

  -- Handling an event whose decoding throws, and whose id is not in the set, fails, sends nothing
  -- and leaves the database as it was, and its id is in the set afterwards. From a listener in the
  -- state that this leaves, any polls of any servers end the same however the events with this id
  -- decode then: what the event says makes no difference to what is sent, to the database or to the
  -- cursor.
  pub failed_decode_loses :
      (rpc : Rpc) (e : rpc.Event) (p : Progress State) (l : Listener State) (later : List Poll)
      → rpc.decode e ≡ none
      → has p.processed_event_ids (rpc.id e) ≡ false
      → l.progress ≡ (handle_event prisma rpc e p).1
      → DifferOnly (rpc.id e) later
      → let (handled, p') = handle_event prisma rpc e p in
        (handled ≡ false)
        × (p'.sent ≡ p.sent)
        × (p'.db ≡ p.db)
        × (has p'.processed_event_ids (rpc.id e) ≡ true)
        × (poll_all later l ≡ poll_all_otherwise later l)
  failed_decode_loses rpc e p l later bad new ended d =
      let (failed_, sent, db, there) = handle_failed rpc e p bad new in
      (
        failed_,
        sent,
        db,
        there,
        poll_all-same (rpc.id e) later l
            (ap (λ (s : Progress State). has s.processed_event_ids (rpc.id e)) ended ∙ there) d,
      )
