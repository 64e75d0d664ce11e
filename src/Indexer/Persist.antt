-- ===== src/Indexer/Persist.antt =====
-- `persistEvent` of indexer/parsers/event-parser.service.ts: one audit row for each event.
pub mod Writes
pub mod Once
pub mod Accounts
pub mod Books
pub mod Refines
pub mod Frame
pub mod Partial
use agrocylo_pip.Prelude.{Option, none, some, Bool, true, false}
use agrocylo_pip.Prelude.Int.{pos}
use agrocylo_pip.Indexer.Types.{ParsedEvent, event_type}
use agrocylo_pip.Indexer.Handlers.{handle}
use agrocylo_pip.Store.Tables.{Transaction}
use agrocylo_pip.Store.Client.{create_transaction, Prisma}
use agrocylo_pip.Store.Action.{Action, pure, ◌>>=◌, ◌>>◌, run, find_transaction}

abbrev pub transaction_of : ParsedEvent → Transaction
transaction_of parsed = record {
  id = parsed.id;
  type = event_type parsed.payload;
  campaign_id = parsed.campaign_id;
  user_id = parsed.user_address;
  amount = parsed.amount;
  tx_hash = some parsed.tx_hash;
  status = "Confirmed";
  timestamp = some (pos parsed.ledger);
  content = parsed;
}

module _ (prisma : Prisma) where
  -- The part of `persistEvent` after the look-up
  unfoldable pub persist_new : ParsedEvent → Option Transaction → Action prisma.State Bool
  persist_new parsed (some _) = pure false
  persist_new parsed none = do
    handle prisma parsed parsed.payload
    run prisma (create_transaction (transaction_of parsed))
    pure true

  -- True for an event that was not seen before and is now persisted
  unfoldable pub persist_event : ParsedEvent → Action prisma.State Bool
  persist_event parsed = find_transaction prisma parsed.id >>= persist_new parsed
