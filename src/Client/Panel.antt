-- ===== src/Client/Panel.antt =====
-- `CampaignAdminPanel` of components/admin/CampaignAdminPanel.tsx: the forms that are shown of a
-- campaign, and what each sends.
use agrocylo_pip.Prelude.{Bool, List, Option, String, [], ◌∷◌}
use agrocylo_pip.Client.CampaignStatus.{
  CampaignStatusTag, active, disputed, failed, funded, funding, harvested, in_production, resolved,
  settled,
}
use agrocylo_pip.Client.Mutations.{Mutation}
use agrocylo_pip.Client.Admin.Failing.{FailForm, submit_fail}
use agrocylo_pip.Client.Admin.{
  Campaign, ConfigureForm, ReleaseForm, ResolveForm, SettleForm, escrow_held, submit_configure,
  submit_release, submit_resolve, submit_settle,
}
use agrocylo_pip.Client.EscrowGuards.{AdminAction, configure, fail, release, resolve, settle}

-- The forms shown in a status
unfoldable pub shown : CampaignStatusTag → List AdminAction
shown active = fail ∷ []
shown funding = fail ∷ []
shown funded = configure ∷ release ∷ fail ∷ []
shown in_production = release ∷ fail ∷ []
shown harvested = settle ∷ fail ∷ []
shown disputed = resolve ∷ []
shown resolved = []
shown settled = []
shown failed = []

-- `ACTIONABLE_STATUSES` of lib/campaignStatus.ts, by which the dashboard lists campaigns
abbrev pub actionable_statuses : List CampaignStatusTag
actionable_statuses = active ∷ funding ∷ funded ∷ in_production ∷ harvested ∷ disputed ∷ []

-- What the forms hold
pub record Forms : Type 0 where
  pub configure_form : ConfigureForm
  pub release_form : ReleaseForm
  pub resolve_form : ResolveForm
  pub settle_form : SettleForm
  pub fail_form : FailForm

module _ (is_valid_public_key is_valid_contract : String → Bool) where
  -- The call that submitting a form makes, if any
  unfoldable pub submit : AdminAction → (campaign_id : String) → Campaign → Forms → Option Mutation
  unfolding submit_configure submit_release submit_resolve submit_settle submit_fail escrow_held
  submit configure id c f = (submit_configure id c.total_funded f.configure_form).1
  submit release id c f =
      (submit_release is_valid_public_key is_valid_contract id (escrow_held c) f.release_form).1
  submit resolve id c f = (submit_resolve id (escrow_held c) f.resolve_form).1
  submit settle id c f = (submit_settle id c.farmer (escrow_held c) f.settle_form).1
  submit fail id c f = (submit_fail id f.fail_form).1
