-- ===== src/Indexer/Persist/Partial.antt =====
-- `persistEvent` is no transaction: what stays when the audit row is refused.
use agrocylo_pip.Prelude.{◌≡◌, refl, ap, sym, ◌∙◌, none, some, true, String}
use agrocylo_pip.Indexer.Types.{ParsedEvent}
use agrocylo_pip.Indexer.Handlers.{handle}
use agrocylo_pip.Indexer.Parse.Spec.{campaign_of}
use agrocylo_pip.Indexer.Persist.{transaction_of, persist_new, persist_event}
use agrocylo_pip.Indexer.Persist.Accounts.{account_of, account_after}
use agrocylo_pip.Indexer.Persist.Writes.{handle-Performs}
use agrocylo_pip.Indexer.Persist.Refines.{handle-Books}
use agrocylo_pip.Store.Tables.{Campaign}
use agrocylo_pip.Store.Client.{create_transaction, Prisma}
use agrocylo_pip.Store.Action.{Fault, returned, threw, pure, ◌>>=◌, run, find_transaction}
use agrocylo_pip.Store.Trace.{Trace-keeps}
use agrocylo_pip.Store.Laws.{domain_write_transactions}
use agrocylo_pip.Store.Returns.{
  bind_step, bind_threw, view-find_transaction, view-run_threw, find_transaction_returned,
}

module _ (prisma : Prisma) where
  open prisma use {State, view}

  -- Where the event is new, its handler returns and the audit row is refused, `persistEvent` throws,
  -- but the campaign that the event names has moved as the event says, and the event still has no
  -- audit row.
  pub unrecorded_stays :
      (parsed : ParsedEvent) (k : String) (c : Campaign) (s : State) (x : Fault)
      → let s0 = (find_transaction prisma parsed.id s).1 in
        let s1 = (handle prisma parsed parsed.payload s0).1 in
        campaign_of parsed.payload ≡ some k
        → c.id ≡ k
        → (view s).campaigns k ≡ some c
        → (find_transaction prisma parsed.id s).0 ≡ returned none
        → (handle prisma parsed parsed.payload s0).0 ≡ returned tt
        → (run prisma (create_transaction (transaction_of parsed)) s1).0 ≡ threw x
        → ((persist_event prisma parsed s).0 ≡ threw x)
          × ((view (persist_event prisma parsed s).1).transactions parsed.id ≡ none)
          × (c' : Campaign) × ((view (persist_event prisma parsed s).1).campaigns k ≡ some c')
          × (account_after parsed.payload (account_of c) ≡ some (account_of c'))
  unfolding persist_event persist_new
  unrecorded_stays parsed k c s x e i at fresh handled refused =
      let s0 = (find_transaction prisma parsed.id s).1 in
      let found =
        bind_step (find_transaction prisma parsed.id) (persist_new prisma parsed) s none fresh in
      let step =
        bind_step (handle prisma parsed parsed.payload)
          (λ _. run prisma (create_transaction (transaction_of parsed)) >>= λ _. pure true) s0 tt
          handled in
      let stop =
        bind_threw (run prisma (create_transaction (transaction_of parsed))) _ _ x refused in
      let all = found ∙ step ∙ stop in
      let kept = view-find_transaction prisma parsed.id s in
      let (c', at', booked) =
        (handle-Books prisma parsed parsed.payload k c e i).row s0 tt
          (ap (λ v. v.campaigns k) kept ∙ at) handled in
      let same = view-run_threw prisma (create_transaction (transaction_of parsed)) _ x refused in
      let unwritten =
        Trace-keeps (λ v. v.transactions ≡ (view s0).transactions)
          (λ w v v' h e' r. domain_write_transactions _ w v v' h e' ∙ r)
          ((handle-Performs prisma parsed parsed.payload).trace s0) refl in
      rw all (
        refl,
        ap (λ v. v.transactions parsed.id) same
            ∙ ap (λ t. t parsed.id) unwritten
            ∙ ap (λ v. v.transactions parsed.id) kept
            ∙ sym (find_transaction_returned prisma parsed.id s none fresh),
        c',
        ap (λ v. v.campaigns k) same ∙ at',
        booked,
      )
