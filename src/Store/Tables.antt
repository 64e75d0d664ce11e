-- ===== src/Store/Tables.antt =====
-- The rows of server/prisma/schema.prisma that the indexer writes. Left out are the columns that the
-- database fills by its clock. `data` of a `Transaction` is the parsed event that its JSON text
-- serialises. Big integer columns are ℤ.
use agrocylo_pip.Prelude.{ℕ, Option, some, String, str_eq, if◌then◌else◌}
use agrocylo_pip.Prelude.Int.{ℤ}
use agrocylo_pip.Js.{Number}
use agrocylo_pip.Indexer.Types.{ParsedEvent}

pub record Campaign : Type 0 where
  pub id : String
  pub farmer : String
  pub title : String
  pub description : String
  pub target_amount : Option ℤ
  pub token_address : Option String
  pub deadline : Option ℤ
  pub status : String
  pub total_funded : ℤ
  pub escrow_contract : String
  pub tranche_count : Option Number
  pub harvest_outcome : Option String
  pub harvest_reported_at : Option ℤ
  pub refundable : ℤ
  pub returnable : ℤ
  pub created_at : ℤ

pub record Investment : Type 0 where
  pub id : String
  pub campaign_id : String
  pub investor : String
  pub amount : ℤ
  pub tx_hash : Option String
  pub timestamp : Option ℤ

pub record User : Type 0 where
  pub address : String
  pub name : Option String
  pub first_seen_at : Option ℤ

pub record Transaction : Type 0 where
  pub id : String
  pub type : String
  pub campaign_id : Option String
  pub user_id : Option String
  pub amount : Option ℤ
  pub tx_hash : Option String
  pub status : String
  pub timestamp : Option ℤ
  pub content : ParsedEvent

pub record Dispute : Type 0 where
  pub id : String
  pub campaign_id : String
  pub opener : String
  pub reason : String
  pub status : String
  pub resolution : Option String
  pub admin : Option String
  pub payout_to_farmer : Option ℤ
  pub refundable_to_investors : Option ℤ
  pub opened_at : ℤ
  pub resolved_at : Option ℤ
  pub ledger_sequence : Option Number

pub record Tranche : Type 0 where
  pub id : String
  pub campaign_id : String
  pub recipient : String
  pub amount : ℤ
  pub released_at : ℤ
  pub tx_hash : Option String

pub record IndexerCursor : Type 0 where
  pub contract_id : String
  pub last_processed_ledger : ℕ

-- A table by its primary key.
abbrev pub Table : Type 0 → Type 0
Table Row = String → Option Row

abbrev pub put : {Row : Type 0} → String → Row → Table Row → Table Row
put k r t j = if str_eq k j then some r else t j

pub record Snapshot : Type 0 where
  pub campaigns : Table Campaign
  pub investments : Table Investment
  pub users : Table User
  pub transactions : Table Transaction
  pub disputes : Table Dispute
  pub tranches : Table Tranche
  pub cursors : Table IndexerCursor
