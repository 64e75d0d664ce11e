-- ===== src/Client/Rest/Local.antt =====
-- lib/api/fallback.ts: the records that are served without the backend. Nothing here changes a record, so
-- that `clone` is left out.
use agrocylo_pip.Prelude.{
  Bool, List, Option, String, [], false, filter_by, find_by, none, some, str_eq, ◌∷◌,
}
use agrocylo_pip.Client.Rest.Types.{Campaign, Investment, Order, Transaction, User}

abbrev farmer_address : String
farmer_address = "GFARMER00000000000000000000000000000000000000000000000A1"

abbrev investor_address : String
investor_address = "GINVESTOR000000000000000000000000000000000000000000000B2"

abbrev buyer_address : String
buyer_address = "GBUYER0000000000000000000000000000000000000000000000000C3"

abbrev token_address_text : String
token_address_text = "CTOKEN0000000000000000000000000000000000000000000000000D4"

abbrev pub campaigns : List Campaign
campaigns =
    record {
      id = "camp-101";
      farmer = farmer_address;
      title = "Organic Maize Irrigation & Harvesting PIP";
      description = "Drip irrigation and harvesting for a 40-acre organic maize farm.";
      target_amount = some "10000";
      token_address = some token_address_text;
      deadline = some "1793000000";
      status = "Funding";
      total_funded = "2500";
      escrow_contract = "CESCROW000000000000000000000000000000000000000000000101";
      tranche_count = some 3;
      harvest_outcome = none;
      harvest_reported_at = none;
      refundable = some "0";
      created_at = "1789000000";
      updated_at = "2026-07-15T10:00:00.000Z";
    }
    ∷ record {
      id = "camp-102";
      farmer = farmer_address;
      title = "Solar-Powered Cold Chain Logistics PIP";
      description = "Solar cold storage to reduce post-harvest losses in transit.";
      target_amount = some "5000";
      token_address = some token_address_text;
      deadline = some "1788000000";
      status = "Settled";
      total_funded = "5000";
      escrow_contract = "CESCROW000000000000000000000000000000000000000000000102";
      tranche_count = some 2;
      harvest_outcome = some "Success";
      harvest_reported_at = some "1790500000";
      refundable = some "0";
      created_at = "1785000000";
      updated_at = "2026-06-01T14:30:00.000Z";
    }
    ∷ record {
      id = "camp-103";
      farmer = farmer_address;
      title = "Bio-Organic Fertilizer Expansion PIP";
      description = "Scaling a bio-organic fertilizer line for smallholder farms.";
      target_amount = some "4000";
      token_address = some token_address_text;
      deadline = some "1787000000";
      status = "Failed";
      total_funded = "1500";
      escrow_contract = "CESCROW000000000000000000000000000000000000000000000103";
      tranche_count = none;
      harvest_outcome = none;
      harvest_reported_at = none;
      refundable = some "1500";
      created_at = "1783000000";
      updated_at = "2026-05-20T09:15:00.000Z";
    }
    ∷ []

abbrev pub investments : List Investment
investments =
    record {
      id = "inv-1";
      campaign_id = "camp-101";
      investor = investor_address;
      amount = "2500";
      tx_hash = some "a1b2c3d4e5f60718293a4b5c6d7e8f90112233445566778899aabbccddeeff00";
      timestamp = some "1789100000";
      created_at = "2026-07-15T10:05:00.000Z";
    }
    ∷ record {
      id = "inv-2";
      campaign_id = "camp-102";
      investor = investor_address;
      amount = "5000";
      tx_hash = some "b2c3d4e5f60718293a4b5c6d7e8f90112233445566778899aabbccddeeff0011";
      timestamp = some "1785200000";
      created_at = "2026-06-01T14:35:00.000Z";
    }
    ∷ record {
      id = "inv-3";
      campaign_id = "camp-103";
      investor = investor_address;
      amount = "1500";
      tx_hash = none;
      timestamp = some "1783300000";
      created_at = "2026-05-20T09:20:00.000Z";
    }
    ∷ []

abbrev pub orders : List Order
orders =
    record {
      id = "order-1";
      campaign_id = some "camp-102";
      buyer = buyer_address;
      amount = some "1000";
      status = "Confirmed";
      confirmed_at = some "1790600000";
      tx_hash = some "c3d4e5f60718293a4b5c6d7e8f90112233445566778899aabbccddeeff001122";
      created_at = "2026-06-10T08:00:00.000Z";
      updated_at = "2026-06-11T08:00:00.000Z";
    }
    ∷ record {
      id = "order-2";
      campaign_id = some "camp-101";
      buyer = buyer_address;
      amount = some "500";
      status = "Pending";
      confirmed_at = none;
      tx_hash = none;
      created_at = "2026-07-16T08:00:00.000Z";
      updated_at = "2026-07-16T08:00:00.000Z";
    }
    ∷ []

abbrev pub users : List User
users =
    record {
      address = investor_address;
      name = some "Demo Investor";
      first_seen_at = some "1783300000";
      created_at = "2026-05-20T09:20:00.000Z";
      updated_at = "2026-07-15T10:05:00.000Z";
    }
    ∷ record {
      address = farmer_address;
      name = some "Demo Farmer";
      first_seen_at = some "1783000000";
      created_at = "2026-05-20T09:00:00.000Z";
      updated_at = "2026-07-15T10:00:00.000Z";
    }
    ∷ []

abbrev pub transactions : List Transaction
transactions =
    record {
      id = "tx-1";
      type_name = "Investment";
      campaign_id = some "camp-101";
      user_id = some investor_address;
      amount = some "2500";
      tx_hash = some "a1b2c3d4e5f60718293a4b5c6d7e8f90112233445566778899aabbccddeeff00";
      status = "Confirmed";
      timestamp = some "1789100000";
      data_text = "{}";
      created_at = "2026-07-15T10:05:00.000Z";
    }
    ∷ record {
      id = "tx-2";
      type_name = "Refund";
      campaign_id = some "camp-103";
      user_id = some investor_address;
      amount = some "1500";
      tx_hash = none;
      status = "Pending";
      timestamp = some "1783300000";
      data_text = "{\"reason\":\"campaign_failed\"}";
      created_at = "2026-05-20T09:20:00.000Z";
    }
    ∷ []

abbrev pub is_some_of : String → Option String → Bool
is_some_of s none = false
is_some_of s (some t) = str_eq t s

-- The members of `localData`; `campaigns` is one of them.
abbrev pub local_campaign : String → Option Campaign
local_campaign id = find_by (λ c. str_eq c.id id) campaigns

abbrev pub campaign_investments : String → List Investment
campaign_investments id = filter_by (λ i. str_eq i.campaign_id id) investments

abbrev pub investments_by_user : String → List Investment
investments_by_user address = filter_by (λ i. str_eq i.investor address) investments

abbrev pub campaign_orders : String → List Order
campaign_orders id = filter_by (λ o. is_some_of id o.campaign_id) orders

abbrev pub local_order : String → Option Order
local_order id = find_by (λ o. str_eq o.id id) orders

abbrev pub local_user : String → Option User
local_user address = find_by (λ u. str_eq u.address address) users

abbrev pub transactions_by_user : String → List Transaction
transactions_by_user address = filter_by (λ t. is_some_of address t.user_id) transactions
