-- ===== src/Indexer/Persist/Frame.antt =====
-- An event leaves alone what it does not name.
use agrocylo_pip.Prelude.{
  ◌≡◌, ◌≢◌, refl, ap, ◌∙◌, Option, none, some, Bool, true, false, String, arith, eq_iff,
}
use agrocylo_pip.Indexer.Types.{ParsedEvent}
use agrocylo_pip.Indexer.Persist.{transaction_of, persist_new, persist_event}
use agrocylo_pip.Indexer.Persist.Writes.{handle-Performs}
use agrocylo_pip.Indexer.Parse.Spec.{campaign_of}
use agrocylo_pip.Store.Tables.{Campaign, Transaction, Snapshot}
use agrocylo_pip.Store.Client.{
  Write, upsert_user, upsert_campaign, update_campaign, update_many_campaigns, create_transaction,
  apply, Prisma,
}
use agrocylo_pip.Store.Trace.{
  Trace-weaken, Trace-keeps, Performs, Performs-pure, Performs-bind, Performs-run,
  Performs-find_transaction, IsWriteFor,
}

-- The writes of `persistEvent`: those of the handler and the event's audit row
abbrev pub IsWriteOf : ParsedEvent → Write → Type 0
IsWriteOf parsed (create_transaction t) = t ≡ transaction_of parsed
IsWriteOf parsed w = IsWriteFor (campaign_of parsed.payload) w

IsWriteFor-IsWriteOf :
    (parsed : ParsedEvent) (w : Write)
    → IsWriteFor (campaign_of parsed.payload) w
    → IsWriteOf parsed w
IsWriteFor-IsWriteOf parsed (create_transaction t) h = elim h [ ]
IsWriteFor-IsWriteOf parsed (upsert_user _ _ _) h = h
IsWriteFor-IsWriteOf parsed _ h = h

untested : (b : Bool) → b ≢ true → b ≡ false
untested true h = absurd (h refl)
untested false h = refl

-- One write of an event leaves the row of a campaign that the event does not name.
write_keeps_campaign :
    (parsed : ParsedEvent) (k : String) (c : Campaign) (w : Write) (v v' : Snapshot)
    → campaign_of parsed.payload ≢ some k
    → c.id ≡ k
    → IsWriteOf parsed w
    → apply w v ≡ some v'
    → v.campaigns k ≡ some c
    → v'.campaigns k ≡ some c
unfolding apply
write_keeps_campaign parsed k c (upsert_campaign j f r) v v' other i h e at =
    ground (arith, eq_iff j k)
write_keeps_campaign parsed k c (update_campaign j f) v v' other i h e at =
    ground (arith, eq_iff j k)
write_keeps_campaign parsed k c (update_many_campaigns test f) v v' other i h e at =
    let skipped : test c ≡ false = untested _ (λ tested. other (h c tested ∙ ap some i)) in
    ground arith
write_keeps_campaign parsed k c (upsert_user j f r) v v' other i h e at = ground arith
write_keeps_campaign parsed k c _ v v' other i h e at = ground arith

module _ (prisma : Prisma) where
  open prisma use {State, view}

  persist_new-IsWriteOf :
      (parsed : ParsedEvent) (o : Option Transaction)
      → Performs prisma (IsWriteOf parsed) (persist_new prisma parsed o)
  unfolding persist_new
  persist_new-IsWriteOf parsed (some t) = Performs-pure prisma false
  persist_new-IsWriteOf parsed none =
      Performs-bind prisma _ _
        (record {
          trace = λ s.
              Trace-weaken (IsWriteFor-IsWriteOf parsed)
                ((handle-Performs prisma parsed parsed.payload).trace s);
        })
        (λ _.
          Performs-bind prisma _ _ (Performs-run prisma _ refl) (λ _. Performs-pure prisma true))

  pub persist_event-IsWriteOf :
      (parsed : ParsedEvent) → Performs prisma (IsWriteOf parsed) (persist_event prisma parsed)
  unfolding persist_event
  persist_event-IsWriteOf parsed =
      Performs-bind prisma _ _ (Performs-find_transaction prisma parsed.id)
        (persist_new-IsWriteOf parsed)

  -- However `persistEvent` ends, a campaign that the event does not name keeps its row.
  pub persist_event_frame :
      (parsed : ParsedEvent) (k : String) (c : Campaign) (s : State)
      → campaign_of parsed.payload ≢ some k
      → c.id ≡ k
      → (view s).campaigns k ≡ some c
      → (view (persist_event prisma parsed s).1).campaigns k ≡ some c
  persist_event_frame parsed k c s other i at =
      Trace-keeps (λ v. v.campaigns k ≡ some c)
        (λ w v v' h e. write_keeps_campaign parsed k c w v v' other i h e)
        ((persist_event-IsWriteOf parsed).trace s) at
