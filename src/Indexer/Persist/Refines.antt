-- ===== src/Indexer/Persist/Refines.antt =====
-- `persistEvent` implements the accounts: what it leaves of the campaign that an event names.
use mathlib.Core.Path.{subst}
use agrocylo_pip.Prelude.{◌≡◌, refl, sym, ap, ◌∙◌, Option, none, some, Bool, true, false, String}
use agrocylo_pip.Indexer.Types.{ParsedEvent, Payload}
use agrocylo_pip.Indexer.Handlers.{
  handle_tranches_configured, handle_claim, handle_campaign_escrow_linked,
  handle_campaign_status_updated, handle,
}
use agrocylo_pip.Indexer.Persist.{persist_new, persist_event}
use agrocylo_pip.Indexer.Persist.Accounts.{account_of, account_after}
use agrocylo_pip.Indexer.Persist.Books.{
  ensure_user-Keeps, handle_campaign_invested-Books, handle_contrib_reconciled-Books,
  handle_campaign_funded-Books, handle_tranche_released-Books, handle_harvest_reported-Books,
  handle_campaign_failed-Books, handle_dispute_opened-Books, handle_dispute_resolved-Books,
  handle_campaign_settled-Books, handle_campaign_escrow_created-Books,
  handle_campaign_created-Books, set_status-Books, Books,
}
use agrocylo_pip.Indexer.Parse.Spec.{campaign_of}
use agrocylo_pip.Store.Tables.{Campaign, Transaction}
use agrocylo_pip.Store.Client.{Prisma}
use agrocylo_pip.Store.Action.{Action, returned}
use agrocylo_pip.Store.Rows.{
  Leaves, Leaves-bind, Leaves-pure, Leaves-map, Leaves-then, Keeps-find_transaction, Keeps-run,
  Leaves-update,
}

named : {j k : String} → some j ≡ some k → j ≡ k
named e = cc

module _ (prisma : Prisma) where
  open prisma use {State, view}

  at_named :
      {j k : String} {c : Campaign} {m : Action State (Unit {0})} (p : Payload)
      → some j ≡ some k
      → Books prisma j c p m
      → Books prisma k c p m
  at_named {j} {k} {c} {m} p e h = subst (λ i. Books prisma i c p m) (named e) h

  pub handle-Books :
      (parsed : ParsedEvent) (p : Payload) (k : String) (c : Campaign)
      → campaign_of p ≡ some k
      → c.id ≡ k
      → Books prisma k c p (handle prisma parsed p)
  unfolding handle handle_claim handle_campaign_status_updated handle_tranches_configured
      handle_campaign_escrow_linked
  handle-Books parsed (Payload.escrow_created d) k c e i =
      at_named (Payload.escrow_created d) e (handle_campaign_escrow_created-Books prisma d c)
  handle-Books parsed (Payload.invested d) k c e i =
      at_named (Payload.invested d) e (handle_campaign_invested-Books prisma parsed d c)
  handle-Books parsed (Payload.contrib_reconciled d) k c e i =
      at_named (Payload.contrib_reconciled d) e (handle_contrib_reconciled-Books prisma d c)
  handle-Books parsed (Payload.funded d) k c e i =
      at_named (Payload.funded d) e (handle_campaign_funded-Books prisma d c)
  handle-Books parsed (Payload.tranches_configured d) k c e i =
      at_named (Payload.tranches_configured d) e (Leaves-update prisma _ c _ refl)
  handle-Books parsed (Payload.tranche_released d) k c e i =
      at_named (Payload.tranche_released d) e
        (handle_tranche_released-Books prisma parsed d c (i ∙ named (sym e)))
  handle-Books parsed (Payload.harvest_reported d) k c e i =
      at_named (Payload.harvest_reported d) e (handle_harvest_reported-Books prisma d c)
  handle-Books parsed (Payload.failed d) k c e i =
      at_named (Payload.failed d) e (handle_campaign_failed-Books prisma d c)
  handle-Books parsed (Payload.return_claimed d) k c e i =
      Leaves-map prisma k c (λ _ _ same. ap (λ r. some (account_of r)) (sym same.0))
        (ensure_user-Keeps prisma d.investor d.timestamp)
  handle-Books parsed (Payload.refund_claimed d) k c e i =
      Leaves-map prisma k c (λ _ _ same. ap (λ r. some (account_of r)) (sym same.0))
        (ensure_user-Keeps prisma d.investor d.timestamp)
  handle-Books parsed (Payload.dispute_opened d) k c e i =
      at_named (Payload.dispute_opened d) e (handle_dispute_opened-Books prisma parsed d c)
  handle-Books parsed (Payload.dispute_resolved d) k c e i =
      at_named (Payload.dispute_resolved d) e (handle_dispute_resolved-Books prisma d c)
  handle-Books parsed (Payload.settled d) k c e i =
      at_named (Payload.settled d) e (handle_campaign_settled-Books prisma d c)
  handle-Books parsed (Payload.created d) k c e i =
      at_named (Payload.created d) e (handle_campaign_created-Books prisma d c)
  handle-Books parsed (Payload.escrow_linked d) k c e i =
      at_named (Payload.escrow_linked d) e (Leaves-update prisma _ c _ refl)
  handle-Books parsed (Payload.status_updated d) k c e i =
      at_named (Payload.status_updated d) e (set_status-Books prisma _ d.new_status c)
  handle-Books parsed (Payload.activity_recorded d) k c e i = Leaves-pure prisma k c tt refl
  handle-Books parsed (Payload.farmer_registered d) k c e i = cc
  handle-Books parsed (Payload.admin_initialized d) k c e i = cc
  handle-Books parsed (Payload.admin_updated d) k c e i = cc
  handle-Books parsed (Payload.contract_approved d) k c e i = cc
  handle-Books parsed (Payload.contract_revoked d) k c e i = cc

  -- What `persistEvent` leaves when it reports the event as new
  abbrev IsBooked : Payload → Campaign → Bool → Campaign → Type 0
  IsBooked p c true c' = account_after p (account_of c) ≡ some (account_of c')
  IsBooked p c false c' = Unit

  persist_new-IsBooked :
      (parsed : ParsedEvent) (k : String) (c : Campaign) (o : Option Transaction)
      → campaign_of parsed.payload ≡ some k
      → c.id ≡ k
      → Leaves prisma k c (IsBooked parsed.payload c) (persist_new prisma parsed o)
  unfolding persist_new
  persist_new-IsBooked parsed k c (some t) e i = Leaves-pure prisma k c false tt
  persist_new-IsBooked parsed k c none e i =
      Leaves-then _ _ (handle-Books parsed parsed.payload k c e i) (λ _ c' booked.
        Leaves-bind prisma k c' _ _ (Keeps-run prisma k c' _ tt)
          (λ _ _. Leaves-pure prisma k c' true booked))

  persist_event-IsBooked :
      (parsed : ParsedEvent) (k : String) (c : Campaign)
      → campaign_of parsed.payload ≡ some k
      → c.id ≡ k
      → Leaves prisma k c (IsBooked parsed.payload c) (persist_event prisma parsed)
  unfolding persist_event
  persist_event-IsBooked parsed k c e i =
      Leaves-bind prisma k c _ _ (Keeps-find_transaction prisma k c _)
        (λ o _. persist_new-IsBooked parsed k c o e i)

  -- Where an event names campaign `k`, which has the row `c`, and `persistEvent` reports the event as
  -- new, the campaign has a row whose status and balances are those of `c` after the event.
  pub persist_event_refines :
      (parsed : ParsedEvent) (k : String) (c : Campaign) (s : State)
      → campaign_of parsed.payload ≡ some k
      → c.id ≡ k
      → (view s).campaigns k ≡ some c
      → (persist_event prisma parsed s).0 ≡ returned true
      → (c' : Campaign) × ((view (persist_event prisma parsed s).1).campaigns k ≡ some c')
        × (account_after parsed.payload (account_of c) ≡ some (account_of c'))
  persist_event_refines parsed k c s e i at r =
      (persist_event-IsBooked parsed k c e i).row s true at r
