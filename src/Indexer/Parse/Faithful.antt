-- ===== src/Indexer/Parse/Faithful.antt =====
-- Every parser yields a faithful event of the type of its case.
use agrocylo_pip.Prelude.{
  ◌≡◌, refl, sym, ap, ◌∙◌, eq_iff, Option, none, some, List, [], ◌∷◌, String, arith, All, str_eq,
  Bool-cases, inl, inr,
}
use agrocylo_pip.Prelude.Int.{ℤ}
use agrocylo_pip.Prelude.Decimal.{parse_ℤ-print_ℤ}
use mathlib.Core.Path.{subst₂}
use agrocylo_pip.Js.{Value, string, at, or_else}
use agrocylo_pip.Indexer.Types.{RawSorobanEvent, ParsedEvent, Payload, event_type}
use agrocylo_pip.Indexer.Decode.{Result, ok, thrown, as_string, ◌>>=◌, bind-eq-ok}
use agrocylo_pip.Indexer.Build.{Parser, build_event}
use agrocylo_pip.Indexer.Escrow.{
  parse_campaign_escrow_created, parse_campaign_invested, parse_contrib_reconciled,
  parse_campaign_funded, parse_tranches_configured, parse_tranche_released, parse_harvest_reported,
  parse_campaign_failed, parse_return_claimed, parse_refund_claimed, parse_dispute_opened,
  parse_dispute_resolved, parse_campaign_settled,
}
use agrocylo_pip.Indexer.Registry.{
  parse_admin_initialized, parse_admin_updated, parse_contract_approved, parse_contract_revoked,
  parse_farmer_registered, parse_campaign_registered, parse_campaign_escrow_linked,
  parse_campaign_status_updated, parse_activity_recorded,
}
use agrocylo_pip.Indexer.Parse.{cases, lookup, run_case, payload_array, parse_event}
use agrocylo_pip.Indexer.Parse.Spec.{campaign_of, user_of, amount_of, IsFaithful, indexed_types}

-- What a result of a parser satisfies, where it is one.
pub record Yields (raw : RawSorobanEvent) (type : String) (m : Result ParsedEvent) : Type 0 where
  pub at : (e : ParsedEvent) → m ≡ ok e → IsFaithful raw e × (event_type e.payload ≡ type)

module _ {raw : RawSorobanEvent} {type : String} where
  Yields-bind :
      {A : Type 0} (m : Result A) (f : A → Result ParsedEvent)
      → ((a : A) → Yields raw type (f a))
      → Yields raw type (m >>= f)
  Yields-bind (ok a) f h = h a
  Yields-bind (thrown x) f h = record { at = λ e p. cc }

  Yields-build :
      (topics : List Value) (p : Payload) (c u : Option String) (a : Option ℤ)
      → campaign_of p ≡ c
      → user_of p ≡ u
      → amount_of p ≡ a
      → event_type p ≡ type
      → Yields raw type (build_event raw topics p c u a)
  unfolding build_event
  Yields-build topics p c u a hc hu ha ht = record { at = λ e h. ground arith }

ruleset yields_rules = (Yields-bind, Yields-build, parse_ℤ-print_ℤ)

-- A parser whose results are faithful and have one type
abbrev HasType : String → Parser → Type 0
HasType type parser =
    (raw : RawSorobanEvent) (topics arr : List Value) → Yields raw type (parser raw topics arr)

parse_campaign_escrow_created-Yields :
    HasType "campaign.escrow_created" parse_campaign_escrow_created
unfolding parse_campaign_escrow_created
parse_campaign_escrow_created-Yields raw topics arr = search yields_rules depth 12

parse_campaign_invested-Yields : HasType "campaign.invested" parse_campaign_invested
unfolding parse_campaign_invested
parse_campaign_invested-Yields raw topics arr = search yields_rules depth 12

parse_contrib_reconciled-Yields : HasType "campaign.contrib_reconciled" parse_contrib_reconciled
unfolding parse_contrib_reconciled
parse_contrib_reconciled-Yields raw topics arr = search yields_rules depth 12

parse_campaign_funded-Yields : HasType "campaign.funded" parse_campaign_funded
unfolding parse_campaign_funded
parse_campaign_funded-Yields raw topics arr = search yields_rules depth 12

parse_tranches_configured-Yields : HasType "campaign.tranches_configured" parse_tranches_configured
unfolding parse_tranches_configured
parse_tranches_configured-Yields raw topics arr = search yields_rules depth 12

parse_tranche_released-Yields : HasType "campaign.tranche_released" parse_tranche_released
unfolding parse_tranche_released
parse_tranche_released-Yields raw topics arr = search yields_rules depth 12

parse_harvest_reported-Yields : HasType "campaign.harvest_reported" parse_harvest_reported
unfolding parse_harvest_reported
parse_harvest_reported-Yields raw topics arr = search yields_rules depth 12

parse_campaign_failed-Yields : HasType "campaign.failed" parse_campaign_failed
unfolding parse_campaign_failed
parse_campaign_failed-Yields raw topics arr = search yields_rules depth 12

parse_return_claimed-Yields : HasType "campaign.return_claimed" parse_return_claimed
unfolding parse_return_claimed
parse_return_claimed-Yields raw topics arr = search yields_rules depth 12

parse_refund_claimed-Yields : HasType "campaign.refund_claimed" parse_refund_claimed
unfolding parse_refund_claimed
parse_refund_claimed-Yields raw topics arr = search yields_rules depth 12

parse_dispute_opened-Yields : HasType "campaign.dispute_opened" parse_dispute_opened
unfolding parse_dispute_opened
parse_dispute_opened-Yields raw topics arr = search yields_rules depth 12

parse_dispute_resolved-Yields : HasType "campaign.dispute_resolved" parse_dispute_resolved
unfolding parse_dispute_resolved
parse_dispute_resolved-Yields raw topics arr = search yields_rules depth 12

parse_campaign_settled-Yields : HasType "campaign.settled" parse_campaign_settled
unfolding parse_campaign_settled
parse_campaign_settled-Yields raw topics arr = search yields_rules depth 12

parse_admin_initialized-Yields : HasType "registry.admin_initialized" parse_admin_initialized
unfolding parse_admin_initialized
parse_admin_initialized-Yields raw topics arr = search yields_rules depth 12

parse_admin_updated-Yields : HasType "registry.admin_updated" parse_admin_updated
unfolding parse_admin_updated
parse_admin_updated-Yields raw topics arr = search yields_rules depth 12

parse_contract_approved-Yields : HasType "registry.contract_approved" parse_contract_approved
unfolding parse_contract_approved
parse_contract_approved-Yields raw topics arr = search yields_rules depth 12

parse_contract_revoked-Yields : HasType "registry.contract_revoked" parse_contract_revoked
unfolding parse_contract_revoked
parse_contract_revoked-Yields raw topics arr = search yields_rules depth 12

parse_farmer_registered-Yields : HasType "registry.farmer_registered" parse_farmer_registered
unfolding parse_farmer_registered
parse_farmer_registered-Yields raw topics arr = search yields_rules depth 12

parse_campaign_registered-Yields : HasType "campaign.created" parse_campaign_registered
unfolding parse_campaign_registered
parse_campaign_registered-Yields raw topics arr = search yields_rules depth 12

parse_campaign_escrow_linked-Yields : HasType "campaign.escrow_linked" parse_campaign_escrow_linked
unfolding parse_campaign_escrow_linked
parse_campaign_escrow_linked-Yields raw topics arr = search yields_rules depth 12

parse_campaign_status_updated-Yields :
    HasType "campaign.status_updated" parse_campaign_status_updated
unfolding parse_campaign_status_updated
parse_campaign_status_updated-Yields raw topics arr = search yields_rules depth 12

parse_activity_recorded-Yields : HasType "registry.activity_recorded" parse_activity_recorded
unfolding parse_activity_recorded
parse_activity_recorded-Yields raw topics arr = search yields_rules depth 12

abbrev IsCaseOk : String × Parser → Type 0
IsCaseOk (label, parser) =
    (type : String) × (lookup label indexed_types ≡ some type) × HasType type parser

cases-IsCaseOk : All IsCaseOk cases
unfolding lookup
cases-IsCaseOk = (
  ("campaign.escrow_created", refl, parse_campaign_escrow_created-Yields),
  (
    ("campaign.invested", refl, parse_campaign_invested-Yields),
    (
      ("campaign.contrib_reconciled", refl, parse_contrib_reconciled-Yields),
      (
        ("campaign.funded", refl, parse_campaign_funded-Yields),
        (
          ("campaign.tranches_configured", refl, parse_tranches_configured-Yields),
          (
            ("campaign.tranche_released", refl, parse_tranche_released-Yields),
            (
              ("campaign.harvest_reported", refl, parse_harvest_reported-Yields),
              (
                ("campaign.failed", refl, parse_campaign_failed-Yields),
                (
                  ("campaign.return_claimed", refl, parse_return_claimed-Yields),
                  (
                    ("campaign.refund_claimed", refl, parse_refund_claimed-Yields),
                    (
                      ("campaign.dispute_opened", refl, parse_dispute_opened-Yields),
                      (
                        ("campaign.dispute_resolved", refl, parse_dispute_resolved-Yields),
                        (
                          ("campaign.settled", refl, parse_campaign_settled-Yields),
                          (
                            ("registry.admin_initialized", refl, parse_admin_initialized-Yields),
                            (
                              ("registry.admin_updated", refl, parse_admin_updated-Yields),
                              (
                                (
                                  "registry.contract_approved", refl,
                                  parse_contract_approved-Yields,
                                ),
                                (
                                  (
                                    "registry.contract_revoked", refl,
                                    parse_contract_revoked-Yields,
                                  ),
                                  (
                                    (
                                      "registry.farmer_registered", refl,
                                      parse_farmer_registered-Yields,
                                    ),
                                    (
                                      ("campaign.created", refl, parse_campaign_registered-Yields),
                                      (
                                        (
                                          "campaign.escrow_linked", refl,
                                          parse_campaign_escrow_linked-Yields,
                                        ),
                                        (
                                          (
                                            "campaign.status_updated", refl,
                                            parse_campaign_status_updated-Yields,
                                          ),
                                          (
                                            (
                                              "registry.activity_recorded", refl,
                                              parse_activity_recorded-Yields,
                                            ),
                                            tt,
                                          ),
                                        ),
                                      ),
                                    ),
                                  ),
                                ),
                              ),
                            ),
                          ),
                        ),
                      ),
                    ),
                  ),
                ),
              ),
            ),
          ),
        ),
      ),
    ),
  ),
)

-- What holds of every case holds of the one that is found.
lookup-All {ℓ} :
    {A : Type ℓ} (P : String × A → Type ℓ) (name : String) (table : List (String × A)) (a : A)
    → All P table
    → lookup name table ≡ some a
    → P (name, a)
unfolding lookup
lookup-All P name [] a h e = cc
lookup-All P name ((label, b) ∷ rest) a (good, h) e = elim (Bool-cases (str_eq label name)) [
  | inl same ↦
      let e' : some b ≡ some a = rw same at e in
      let found : b ≡ a = cc e' in subst₂ (λ l c. P (l, c)) ((eq_iff label name).0 same) found good
  | inr other ↦ lookup-All P name rest a h (rw other at e)
]

run_case_lem :
    (raw : RawSorobanEvent) (name : String) (o : Option Parser) (e : ParsedEvent)
    → lookup name cases ≡ o
    → run_case raw o ≡ ok (some e)
    → IsFaithful raw e × (lookup name indexed_types ≡ some (event_type e.payload))
run_case_lem raw name none e found h = cc
run_case_lem raw name (some parser) e found h =
    let (type, listed, yields) = lookup-All IsCaseOk name cases parser cases-IsCaseOk found in
    let (e', parsed, same) = bind-eq-ok (parser raw raw.topic (payload_array raw.value)) _ h in
    let same' : e' ≡ e = cc same in
    let (faithful, typed) =
      (yields raw raw.topic (payload_array raw.value)).at e (cc (parsed, same')) in
    (faithful, listed ∙ ap some (sym typed))

-- A parsed event keeps the id, ledger and hash of the raw event; its campaign, user and amount are
-- those of its payload, the amount as the number that the payload's text denotes; and its type is
-- the one that the name in topic 0 stands for.
pub parse_event_faithful :
    (raw : RawSorobanEvent) (e : ParsedEvent)
    → parse_event raw ≡ ok (some e)
    → IsFaithful raw e
      × (name : String) × (as_string (or_else (at raw.topic 0) (string "")) "eventName" ≡ ok name)
      × (lookup name indexed_types ≡ some (event_type e.payload))
unfolding parse_event
parse_event_faithful raw e h =
    let (name, named, h') =
      bind-eq-ok (as_string (or_else (at raw.topic 0) (string "")) "eventName") _ h in
    let (faithful, typed) = run_case_lem raw name (lookup name cases) e refl h' in
    (faithful, name, named, typed)
