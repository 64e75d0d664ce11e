-- ===== src/Client/Signatures.antt =====
-- The functions that a mutation is to call, by the signatures in contracts/production_escrow/src/lib.rs
-- and contracts/registry/src/lib.rs.
use agrocylo_pip.Prelude.{
  List, Option, Option-cases, String, [], ap, false, inl, inr, map, none, refl, some, sym, ◌∙◌, ◌∷◌,
  ◌≡◌,
}
use agrocylo_pip.Prelude.Int.{ℤ}
use agrocylo_pip.Prelude.BigInt.{big_int}
use agrocylo_pip.Client.ContractClient.{
  Answer, Argument, Arguments, Contract, Tranche, bigint, escrow, registry, rejected, resolved,
  text, tranches, variant,
}
use agrocylo_pip.Client.Mutations.{
  DisputeResolutionTag, Mutation, TrancheInput, claim_refund, claim_return, configure_tranches,
  create_campaign, full_payout, full_refund, fund_campaign, mark_failed, open_dispute,
  partial_settlement, pending, register_campaign, register_farmer, release_tranche, report_harvest,
  resolution_name, resolve_dispute, settle_campaign, unreleased, with_campaign_id,
}
use agrocylo_pip.Client.Mutations.Hooks.{hook_of}

abbrev pub contract_for : Mutation → Contract
contract_for (register_farmer farmer name location) = registry
contract_for (register_campaign input) = registry
contract_for m = escrow

abbrev pub function_of : Mutation → String
function_of (create_campaign input) = "create_campaign"
function_of (fund_campaign id investor amount) = "fund_campaign"
function_of (report_harvest id farmer outcome) = "report_harvest"
function_of (open_dispute id opener reason) = "open_dispute"
function_of (configure_tranches id rows) = "configure_tranches"
function_of (release_tranche id recipient amount) = "release_tranche"
function_of (resolve_dispute id resolution payout) = "resolve_dispute"
function_of (settle_campaign id farmer payout) = "settle_campaign"
function_of (mark_failed id) = "mark_failed"
function_of (claim_refund id investor) = "claim_refund"
function_of (claim_return id investor) = "claim_return"
function_of (register_farmer farmer name location) = "register_farmer"
function_of (register_campaign input) = "register_campaign"

abbrev variant_of : DisputeResolutionTag → Argument
variant_of pending = variant "Pending"
variant_of full_refund = variant "FullRefund"
variant_of partial_settlement = variant "PartialSettlement"
variant_of full_payout = variant "FullPayout"

-- A tranche that is configured has not been released.
abbrev configured_tranches : List TrancheInput → List Tranche
configured_tranches [] = []
configured_tranches (t ∷ ts) =
    record { amount = t.amount; milestone = t.milestone; released = false } ∷ configured_tranches ts

-- The arguments after the campaign's id, where that is an integer
abbrev of_campaign : Option ℤ → Arguments → Option Arguments
of_campaign none rest = none
of_campaign (some n) rest = some (("campaign_id", bigint n) ∷ rest)

-- The parameters by their names, in order
abbrev pub parameters_of : Mutation → Option Arguments
parameters_of (create_campaign input) = of_campaign (some input.campaign_id) (
    ("farmer", text input.farmer)
    ∷ ("target_amount", bigint input.target_amount)
    ∷ ("token_address", text input.token_address)
    ∷ ("deadline", bigint input.deadline)
    ∷ ("harvest_metadata", text input.harvest_metadata)
    ∷ [])
parameters_of (fund_campaign id investor amount) =
    of_campaign (big_int id) (("investor", text investor) ∷ ("amount", bigint amount) ∷ [])
parameters_of (report_harvest id farmer outcome) =
    of_campaign (big_int id) (("farmer", text farmer) ∷ ("outcome", text outcome) ∷ [])
parameters_of (open_dispute id opener reason) =
    of_campaign (big_int id) (("opener", text opener) ∷ ("reason", text reason) ∷ [])
parameters_of (configure_tranches id rows) =
    of_campaign (big_int id) (("tranches", tranches (configured_tranches rows)) ∷ [])
parameters_of (release_tranche id recipient amount) =
    of_campaign (big_int id) (("recipient", text recipient) ∷ ("amount", bigint amount) ∷ [])
parameters_of (resolve_dispute id resolution payout) =
    of_campaign (big_int id)
      (("resolution", variant_of resolution) ∷ ("payout_amount", bigint payout) ∷ [])
parameters_of (settle_campaign id farmer payout) =
    of_campaign (big_int id) (("farmer", text farmer) ∷ ("farmer_payout", bigint payout) ∷ [])
parameters_of (mark_failed id) = of_campaign (big_int id) []
parameters_of (claim_refund id investor) =
    of_campaign (big_int id) (("investor", text investor) ∷ [])
parameters_of (claim_return id investor) =
    of_campaign (big_int id) (("investor", text investor) ∷ [])
parameters_of (register_farmer farmer name location) =
    some (("farmer", text farmer) ∷ ("name", text name) ∷ ("location", text location) ∷ [])
parameters_of (register_campaign input) = of_campaign (some input.campaign_id) (
    ("farmer", text input.farmer)
    ∷ ("title", text input.title)
    ∷ ("description", text input.description)
    ∷ [])

-- The arguments of an answer, if there are any
abbrev resolved_args : Answer Arguments → Option Arguments
resolved_args (resolved args) = some args
resolved_args (rejected x) = none

variant_of-resolution : (r : DisputeResolutionTag) → variant (resolution_name r) ≡ variant_of r
variant_of-resolution pending = refl
variant_of-resolution full_refund = refl
variant_of-resolution partial_settlement = refl
variant_of-resolution full_payout = refl

configured-unreleased : (rows : List TrancheInput) → map unreleased rows ≡ configured_tranches rows
configured-unreleased [] = refl
configured-unreleased (t ∷ ts) = ap (λ rest. unreleased t ∷ rest) (configured-unreleased ts)

with_campaign_id_lem :
    (id : String) (rest : Arguments)
    → resolved_args (with_campaign_id id rest) ≡ of_campaign (big_int id) rest
with_campaign_id_lem id rest = elim (Option-cases (big_int id)) [
  | inl bad ↦ rw (with_campaign_id, bad) refl
  | inr (n, good) ↦ rw (with_campaign_id, good) refl
]

args_lem : (m : Mutation) → resolved_args (hook_of m).args ≡ parameters_of m
unfolding hook_of
args_lem (create_campaign input) = refl
args_lem (fund_campaign id investor amount) = with_campaign_id_lem id _
args_lem (report_harvest id farmer outcome) = with_campaign_id_lem id _
args_lem (open_dispute id opener reason) = with_campaign_id_lem id _
args_lem (configure_tranches id rows) =
    with_campaign_id_lem id _
    ∙ ap (λ ts. of_campaign (big_int id) (("tranches", tranches ts) ∷ []))
        (configured-unreleased rows)
args_lem (release_tranche id recipient amount) = with_campaign_id_lem id _
args_lem (resolve_dispute id resolution payout) =
    with_campaign_id_lem id _
    ∙ ap (λ r. of_campaign (big_int id) (("resolution", r) ∷ ("payout_amount", bigint payout) ∷ []))
        (variant_of-resolution resolution)
args_lem (settle_campaign id farmer payout) = with_campaign_id_lem id _
args_lem (mark_failed id) = with_campaign_id_lem id _
args_lem (claim_refund id investor) = with_campaign_id_lem id _
args_lem (claim_return id investor) = with_campaign_id_lem id _
args_lem (register_farmer farmer name location) = refl
args_lem (register_campaign input) = refl

callee_lem :
    (m : Mutation) → ((hook_of m).contract ≡ contract_for m) × ((hook_of m).method ≡ function_of m)
unfolding hook_of
callee_lem (create_campaign input) = (refl, refl)
callee_lem (fund_campaign id investor amount) = (refl, refl)
callee_lem (report_harvest id farmer outcome) = (refl, refl)
callee_lem (open_dispute id opener reason) = (refl, refl)
callee_lem (configure_tranches id rows) = (refl, refl)
callee_lem (release_tranche id recipient amount) = (refl, refl)
callee_lem (resolve_dispute id resolution payout) = (refl, refl)
callee_lem (settle_campaign id farmer payout) = (refl, refl)
callee_lem (mark_failed id) = (refl, refl)
callee_lem (claim_refund id investor) = (refl, refl)
callee_lem (claim_return id investor) = (refl, refl)
callee_lem (register_farmer farmer name location) = (refl, refl)
callee_lem (register_campaign input) = (refl, refl)

-- A hook calls the function of its mutation's contract, with its parameters.
pub hook_of-function :
    (m : Mutation)
    → ((hook_of m).contract ≡ contract_for m)
      × ((hook_of m).method ≡ function_of m)
      × ((args : Arguments) → (hook_of m).args ≡ resolved args → parameters_of m ≡ some args)
hook_of-function m =
    let (contract, method) = callee_lem m in
    (contract, method, λ args e. sym (args_lem m) ∙ ap resolved_args e)
