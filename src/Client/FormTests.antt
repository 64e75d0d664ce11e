-- ===== src/Client/FormTests.antt =====
-- An administrator's forms for a funded campaign, a user who creates one, and a reason for a dispute.
use agrocylo_pip.Prelude.{
  Bool, IsListed, List, String, [], false, length, none, not, refl, some, true, ◌||◌, ◌∷◌, ◌≡◌,
}
use agrocylo_pip.Prelude.BigInt.{big_int}
use agrocylo_pip.Prelude.Int.{pos, ◌-ℤ◌}
use agrocylo_pip.Client.CampaignStatus.{funded, harvested, includes, resolved}
use agrocylo_pip.Prelude.Decimal.{is_digit, scan}
use agrocylo_pip.Client.Symbols.{is_valid_contract_symbol, parse_whole_amount}
use agrocylo_pip.Prelude.Text.{trim}
use agrocylo_pip.Client.Reason.{DisputeForm, submit_dispute, symbol_submitted}
use agrocylo_pip.Client.Failures.{error}
use agrocylo_pip.Client.ContractClient.{rejected, resolved}
use agrocylo_pip.Client.Mutations.{
  Mutation, full_refund, mark_failed, open_dispute, release_tranche,
}
use agrocylo_pip.Client.Admin.{Campaign, Notice, escrow_held, submit_release}
use agrocylo_pip.Client.Admin.Failing.{FailForm, ask, cancel, settled_fail, submit_fail}
use agrocylo_pip.Client.EscrowGuards.{AdminAction, accepts, admits, fail, release}
use agrocylo_pip.Client.Panel.{Forms, actionable_statuses, shown, submit}
use agrocylo_pip.Client.Accepted.{
  is_refused, is_shown, panel_offers, shows_none, submitted_admitted,
}
use agrocylo_pip.Client.CreateCampaign.{
  opened, Browser, deadline, description, go_back, go_next, handle_confirm, harvest_metadata,
  target_amount, title, token_address, update,
}
use agrocylo_pip.Client.Wizard.{Action, IsSafe, act_all, back, confirm, next, times, types}
use agrocylo_pip.Client.WizardSafe.{page-IsSafe}

abbrev funded_campaign : Campaign
funded_campaign = record {
  farmer = "GFARMER";
  status = funded;
  total_funded = pos 100;
  released = pos 30;
  refundable = pos 0;
  returnable = pos 0;
}

abbrev nothing_shown : Notice
nothing_shown = record { form_error = none; success = false }

abbrev idle : FailForm
idle = record { confirming = false; notice = nothing_shown }

abbrev filled : Forms
filled = record {
  configure_form = record {
    rows =
        record { amount = "60"; milestone = "seeds" }
        ∷ record { amount = "40"; milestone = "harvest" }
        ∷ [];
    notice = nothing_shown;
  };
  release_form = record { recipient = "GFARMER"; amount = "70"; notice = nothing_shown };
  resolve_form = record { resolution = full_refund; payout_amount = ""; notice = nothing_shown };
  settle_form = record { farmer_payout = "70"; notice = nothing_shown };
  fail_form = idle;
}

abbrev any_text : String → Bool
any_text s = true

abbrev release_70 : Mutation
release_70 = release_tranche "7" "GFARMER" (pos 70)

release_is_sent : submit any_text any_text release "7" funded_campaign filled ≡ some release_70
unfolding submit submit_release escrow_held parse_whole_amount scan is_digit ◌-ℤ◌
release_is_sent = refl

submitted_admitted_example : admits funded_campaign release_70 ≡ true
unfolding shown
submitted_admitted_example =
    submitted_admitted any_text any_text funded_campaign "7" release filled release_70 refl refl
      refl release_is_sent

-- A call is sent only while the form asks, and a failed one can be confirmed again.
asked_again :
    ((submit_fail "7" idle).1 ≡ none)
    × ((submit_fail "7" (cancel (ask idle))).1 ≡ none)
    × ((submit_fail "7" (ask idle)).1 ≡ some (mark_failed "7"))
    × ((submit_fail "7" (settled_fail (rejected (error "boom")) (ask idle))).1
        ≡ some (mark_failed "7"))
    × ((submit_fail "7" (settled_fail (resolved tt) (ask idle))).1 ≡ none)
unfolding submit_fail settled_fail
asked_again = (refl, refl, refl, refl, refl)

panel_offers_example :
    (includes actionable_statuses funded ≡ not (shows_none (shown funded)))
    × ((a : AdminAction) → is_shown a (shown funded) ≡ accepts a funded || is_refused a funded)
    × (accepts fail harvested ≡ false)
panel_offers_example = panel_offers funded

-- Every text is a contract's address and the date of the first millisecond of 2030.
abbrev browser : Browser
browser = record {
  is_valid_contract = any_text;
  date_ms = λ s. some (pos 1893456000000);
  seconds_of = λ ms. pos 1893456000;
}

-- The first confirmation fails at creating, the second at registering, and the third succeeds.
abbrev three_attempts : List Action
three_attempts =
    types title "Maize"
    ∷ next (pos 0)
    ∷ types description "Two hectares"
    ∷ types harvest_metadata "maize_2030"
    ∷ next (pos 0)
    ∷ types target_amount "500"
    ∷ types token_address "CTOKEN"
    ∷ next (pos 0)
    ∷ back
    ∷ next (pos 0)
    ∷ types deadline "2030-01-01"
    ∷ next (pos 0)
    ∷ confirm (some "GFARMER") 5 1 (rejected (error "boom")) (resolved tt)
    ∷ confirm (some "GFARMER") 6 2 (resolved tt) (rejected (error "boom"))
    ∷ back
    ∷ confirm (some "GFARMER") 7 3 (resolved tt) (resolved tt)
    ∷ []

page-IsSafe_example :
    IsSafe browser (λ t. IsListed t (times three_attempts)) (act_all browser three_attempts opened)
page-IsSafe_example = page-IsSafe browser three_attempts

-- One campaign is created, in four calls.
three_attempts_end :
    let p = act_all browser three_attempts opened in
    (p.campaign_id ≡ some (pos 6002)) × (length p.calls ≡ 4)
unfolding update go_next go_back handle_confirm scan is_digit big_int
three_attempts_end = (refl, refl)

abbrev typed_reason : String → DisputeForm
typed_reason s = record { reason = s; form_error = some "A reason is required to open a dispute." }

symbol_submitted_example :
    (submit_dispute "7" "GFARMER" (typed_reason "late_harvest")).1
    ≡ some (open_dispute "7" "GFARMER" "late_harvest")
unfolding is_valid_contract_symbol
symbol_submitted_example = symbol_submitted "7" "GFARMER" (typed_reason "late_harvest") refl

-- A reason that is no symbol is sent too.
spaced_reason :
    ((submit_dispute "7" "GFARMER" (typed_reason " no harvest ")).1
      ≡ some (open_dispute "7" "GFARMER" "no harvest"))
    × (is_valid_contract_symbol "no harvest" ≡ false)
unfolding submit_dispute is_valid_contract_symbol trim
spaced_reason = (refl, refl)
