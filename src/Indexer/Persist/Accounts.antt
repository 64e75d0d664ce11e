-- ===== src/Indexer/Persist/Accounts.antt =====
-- The abstract view of a campaign: its status and its three balances, and what each event does to
-- them, written independently of the handlers and of the database.
use agrocylo_pip.Prelude.{Option, none, some, String, str_eq, if◌then◌else◌}
use agrocylo_pip.Prelude.Int.{ℤ, ◌+ℤ◌}
use agrocylo_pip.Prelude.Decimal.{parse_ℤ}
use agrocylo_pip.Indexer.Types.{Payload}
use agrocylo_pip.Store.Tables.{Campaign}

pub record Account : Type 0 where
  pub status : String
  pub total_funded : ℤ
  pub refundable : ℤ
  pub returnable : ℤ

abbrev pub account_of : Campaign → Account
account_of c = record {
  status = c.status;
  total_funded = c.total_funded;
  refundable = c.refundable;
  returnable = c.returnable;
}

-- Moves an account by the amount that a text denotes.
abbrev pub moved : Option ℤ → (ℤ → Account) → Option Account
moved none f = none
moved (some n) f = some (f n)

abbrev pub restated : Option String → Account → Account
restated none a = a
restated (some status) a = if str_eq status "" then a else record a { status = status }

-- The account after an event that names its campaign; none where an amount is no number.
abbrev pub account_after : Payload → Account → Option Account
account_after (Payload.invested d) a =
    moved (parse_ℤ d.amount) (λ n. record a { total_funded = a.total_funded +ℤ n })
account_after (Payload.contrib_reconciled d) a =
    moved (parse_ℤ d.amount) (λ n. record a { total_funded = a.total_funded +ℤ n })
account_after (Payload.funded d) a =
    moved (parse_ℤ d.total_funded) (λ n. record a { status = "Funded"; total_funded = n })
account_after (Payload.tranche_released d) a =
    some (if str_eq a.status "Funded" then record a { status = "InProduction" } else a)
account_after (Payload.harvest_reported d) a = some (record a { status = "Harvested" })
account_after (Payload.failed d) a =
    moved (parse_ℤ d.refundable) (λ n. record a { status = "Failed"; refundable = n })
account_after (Payload.dispute_opened d) a = some (record a { status = "Disputed" })
account_after (Payload.dispute_resolved d) a =
    moved (parse_ℤ d.refundable_to_investors)
      (λ n. record a { status = "Resolved"; refundable = a.refundable +ℤ n })
account_after (Payload.settled d) a =
    moved (parse_ℤ d.investor_returns)
      (λ n. record a { status = "Settled"; returnable = a.returnable +ℤ n })
account_after (Payload.status_updated d) a = some (restated d.new_status a)
account_after _ a = some a
