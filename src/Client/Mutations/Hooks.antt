-- ===== src/Client/Mutations/Hooks.antt =====
-- The hook of a mutation.
use agrocylo_pip.Client.Mutations.{
  Hook, Mutation, create_campaign, fund_campaign, report_harvest, open_dispute, configure_tranches,
  release_tranche, resolve_dispute, settle_campaign, mark_failed, claim_refund, claim_return,
  register_campaign, register_farmer,
}
use agrocylo_pip.Client.Mutations.Escrow.{
  use_create_campaign, use_fund_campaign, use_report_harvest, use_open_dispute,
  use_configure_tranches, use_release_tranche, use_resolve_dispute, use_settle_campaign,
  use_mark_failed, use_claim_refund, use_claim_return,
}
use agrocylo_pip.Client.Mutations.Registry.{use_register_campaign, use_register_farmer}

unfoldable pub hook_of : Mutation → Hook
hook_of (create_campaign input) = use_create_campaign input
hook_of (fund_campaign id investor amount) = use_fund_campaign id investor amount
hook_of (report_harvest id farmer outcome) = use_report_harvest id farmer outcome
hook_of (open_dispute id opener reason) = use_open_dispute id opener reason
hook_of (configure_tranches id rows) = use_configure_tranches id rows
hook_of (release_tranche id recipient amount) = use_release_tranche id recipient amount
hook_of (resolve_dispute id resolution payout) = use_resolve_dispute id resolution payout
hook_of (settle_campaign id farmer payout) = use_settle_campaign id farmer payout
hook_of (mark_failed id) = use_mark_failed id
hook_of (claim_refund id investor) = use_claim_refund id investor
hook_of (claim_return id investor) = use_claim_return id investor
hook_of (register_farmer farmer name location) = use_register_farmer farmer name location
hook_of (register_campaign input) = use_register_campaign input
