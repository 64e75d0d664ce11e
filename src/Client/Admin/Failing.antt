-- ===== src/Client/Admin/Failing.antt =====
-- `MarkFailedForm` of components/admin/CampaignAdminPanel.tsx, which asks again before it sends.
use agrocylo_pip.Prelude.{Bool, Option, String, false, if◌then◌else◌, none, some, true}
use agrocylo_pip.Client.ContractClient.{Answer, rejected, resolved}
use agrocylo_pip.Client.Mutations.{Mutation, mark_failed}
use agrocylo_pip.Client.Admin.{Notice, cleared, failure_notice, succeeded}

pub record FailForm : Type 0 where
  pub confirming : Bool
  pub notice : Notice

-- The button `Mark campaign as failed`, and `Cancel` of the two that take its place
abbrev pub ask : FailForm → FailForm
ask f = record f { confirming = true }

abbrev pub cancel : FailForm → FailForm
cancel f = record f { confirming = false }

-- `handleConfirm`, of a button that is there only while the form asks for confirmation
unfoldable pub submit_fail : (campaign_id : String) → FailForm → FailForm × Option Mutation
submit_fail id f =
    if f.confirming then (record f { notice = cleared }, some (mark_failed id)) else (f, none)

unfoldable pub settled_fail : Answer (Unit {0}) → FailForm → FailForm
settled_fail (resolved _) f = record { confirming = false; notice = succeeded }
settled_fail (rejected x) f = record f { notice = failure_notice x }
