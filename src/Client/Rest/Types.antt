-- ===== src/Client/Rest/Types.antt =====
-- lib/api/types.ts: the responses. `NumericString` and `IsoDateString` are texts.
use agrocylo_pip.Prelude.{Option, String, ℕ}

pub record Campaign : Type 0 where
  pub id : String
  pub farmer : String
  pub title : String
  pub description : String
  pub target_amount : Option String
  pub token_address : Option String
  pub deadline : Option String
  pub status : String
  pub total_funded : String
  pub escrow_contract : String
  pub tranche_count : Option ℕ
  pub harvest_outcome : Option String
  pub harvest_reported_at : Option String
  pub refundable : Option String
  pub created_at : String
  pub updated_at : String

pub record Investment : Type 0 where
  pub id : String
  pub campaign_id : String
  pub investor : String
  pub amount : String
  pub tx_hash : Option String
  pub timestamp : Option String
  pub created_at : String

pub record Order : Type 0 where
  pub id : String
  pub campaign_id : Option String
  pub buyer : String
  pub amount : Option String
  pub status : String
  pub confirmed_at : Option String
  pub tx_hash : Option String
  pub created_at : String
  pub updated_at : String

pub record User : Type 0 where
  pub address : String
  pub name : Option String
  pub first_seen_at : Option String
  pub created_at : String
  pub updated_at : String

pub record Transaction : Type 0 where
  pub id : String
  pub type_name : String
  pub campaign_id : Option String
  pub user_id : Option String
  pub amount : Option String
  pub tx_hash : Option String
  pub status : String
  pub timestamp : Option String
  pub data_text : String
  pub created_at : String
