-- ===== src/Indexer/PersistTests.antt =====
-- Contributions persisted over a client in memory, and the theorems of `persistEvent` at them.
use agrocylo_pip.Prelude.{
  ◌≡◌, refl, ap, Option, none, some, str_eq, Bool, true, false, [], ◌∷◌, List, String,
}
use agrocylo_pip.Prelude.Int.{pos, ◌+ℤ◌}
use agrocylo_pip.Prelude.Decimal.{parse_ℤ}
use agrocylo_pip.Js.{int, string, nil, array}
use agrocylo_pip.Indexer.Types.{ParsedEvent, Payload}
use agrocylo_pip.Indexer.Handlers.{
  new_campaign, ensure_user, handle_campaign_invested, handle_contrib_reconciled, handle,
}
use agrocylo_pip.Indexer.Persist.{transaction_of, persist_event, persist_new}
use agrocylo_pip.Indexer.Persist.Accounts.{account_of, account_after}
use agrocylo_pip.Indexer.Persist.Refines.{persist_event_refines}
use agrocylo_pip.Indexer.Persist.Frame.{persist_event_frame}
use agrocylo_pip.Indexer.Persist.Partial.{unrecorded_stays}
use agrocylo_pip.Store.Client.{create_transaction}
use agrocylo_pip.Store.Action.{
  returned, threw, call_refused, ◌>>=◌, run, find_transaction, big_int_of_number, big_int_of_text,
}
use agrocylo_pip.Store.Tables.{Campaign, put}
use agrocylo_pip.Store.Memory.{Memory, in_memory, no_rows, write}

unfoldable persisting : Unit {0}
unfolding persist_event persist_new handle ensure_user handle_campaign_invested
    handle_contrib_reconciled ◌>>=◌ run find_transaction big_int_of_number big_int_of_text write
    parse_ℤ
persisting = tt

-- 250 given to campaign 7
abbrev invested : ParsedEvent
invested = record {
  id = "0002-1";
  payload = Payload.invested (record {
    campaign_id = "7";
    investor = "GINVESTOR";
    amount = "250";
    timestamp = int (pos 1800);
  });
  contract_event = "ContribReceived";
  contract_id = "CESCROW";
  ledger = 15;
  tx_hash = "cd34";
  raw_topics = string "ContribReceived" ∷ [];
  raw_value = array nil;
  campaign_id = some "7";
  user_address = some "GINVESTOR";
  amount = some (pos 250);
}

abbrev campaign : String → Campaign
campaign id = record (new_campaign id "GFARMER" (pos 1700)) { total_funded = pos 1000 }

abbrev two_campaigns : List Bool → Memory
two_campaigns schedule = record {
  tables = record no_rows {
    campaigns = put "7" (campaign "7") (put "8" (campaign "8") (λ k. none));
  };
  schedule = schedule;
}

invested_returned : (persist_event in_memory invested (two_campaigns [])).0 ≡ returned true
unfolding persisting
invested_returned = refl

persist_event_refines_example :
    let m = (persist_event in_memory invested (two_campaigns [])).1 in
    (c' : Campaign) × (m.tables.campaigns "7" ≡ some c')
    × (account_after invested.payload (account_of (campaign "7")) ≡ some (account_of c'))
persist_event_refines_example =
    persist_event_refines in_memory invested "7" (campaign "7") (two_campaigns []) refl refl refl
      invested_returned

invested_total :
    let m = (persist_event in_memory invested (two_campaigns [])).1 in
    m.tables.campaigns "7" ≡ some (record (campaign "7") { total_funded = pos 1250 })
unfolding persisting ◌+ℤ◌
invested_total = refl

abbrev is_seven : Option String → Bool
is_seven none = false
is_seven (some k) = str_eq k "7"

persist_event_frame_example :
    let m = (persist_event in_memory invested (two_campaigns [])).1 in
    m.tables.campaigns "8" ≡ some (campaign "8")
persist_event_frame_example =
    persist_event_frame in_memory invested "8" (campaign "8") (two_campaigns [])
      (λ e. cc (ap is_seven e)) refl refl

-- 250 that the contract found on its account, at an outage right before the audit row
abbrev reconciled : ParsedEvent
reconciled = record invested {
  id = "0003-1";
  payload = Payload.contrib_reconciled (record {
    campaign_id = "7";
    investor = "GINVESTOR";
    amount = "250";
    timestamp = int (pos 1800);
  });
  contract_event = "ContribReconciled";
}

abbrev outage : Memory
outage = two_campaigns (true ∷ true ∷ true ∷ false ∷ [])

reconciled_handled :
    let s0 = (find_transaction in_memory "0003-1" outage).1 in
    ((handle in_memory reconciled reconciled.payload s0).0 ≡ returned tt)
    × ((run in_memory
          (create_transaction (transaction_of reconciled))
          (handle in_memory reconciled reconciled.payload s0).1).0
        ≡ threw (call_refused "connection"))
unfolding persisting
reconciled_handled = (refl, refl)

reconciled_fresh : (find_transaction in_memory "0003-1" outage).0 ≡ returned none
unfolding persisting
reconciled_fresh = refl

unrecorded_stays_example :
    let r = persist_event in_memory reconciled outage in
    (r.0 ≡ threw (call_refused "connection"))
    × (r.1.tables.transactions "0003-1" ≡ none)
    × (c' : Campaign) × (r.1.tables.campaigns "7" ≡ some c')
    × (account_after reconciled.payload (account_of (campaign "7")) ≡ some (account_of c'))
unrecorded_stays_example =
    unrecorded_stays in_memory reconciled "7" (campaign "7") outage (call_refused "connection") refl
      refl refl reconciled_fresh reconciled_handled.0 reconciled_handled.1

-- The same event again once the connection is up: its 250 are counted twice.
counted_twice :
    let m = (persist_event in_memory reconciled outage).1 in
    (persist_event in_memory reconciled m).1.tables.campaigns "7"
    ≡ some (record (campaign "7") { total_funded = pos 1500 })
unfolding persisting ◌+ℤ◌
counted_twice = refl
