-- ===== src/Client/EscrowGuards.antt =====
-- contracts/production_escrow/src/lib.rs: when an administrator's call of the escrow contract does not
-- panic, as far as the campaign's status and sums go. Who may call, tranches that are configured already
-- and the token are left out.
use agrocylo_pip.Prelude.{Bool, List, [], false, not, true, ◌&&◌, ◌∷◌}
use agrocylo_pip.Prelude.Int.{ltb_ℤ, pos, ℤ, ◌+ℤ◌, ◌-ℤ◌}
use agrocylo_pip.Client.CampaignStatus.{
  CampaignStatusTag, active, disputed, funded, funding, harvested, in_production, includes,
}
use agrocylo_pip.Client.Mutations.{
  DisputeResolutionTag, Mutation, TrancheInput, configure_tranches, full_payout, full_refund,
  mark_failed, partial_settlement, pending, release_tranche, resolve_dispute, settle_campaign,
}
use agrocylo_pip.Client.Admin.{Campaign}

pub data AdminAction : Type 0 where
  configure : AdminAction
  release : AdminAction
  resolve : AdminAction
  settle : AdminAction
  fail : AdminAction

-- `escrow_held` of the contract, from its own record of the campaign
unfoldable pub held_on_chain : Campaign → ℤ
held_on_chain c = c.total_funded -ℤ c.released -ℤ c.refundable -ℤ c.returnable

-- In which statuses the contract takes an action
abbrev pub accepts_configure : CampaignStatusTag → Bool
accepts_configure s = includes (funded ∷ []) s

abbrev pub accepts_release : CampaignStatusTag → Bool
accepts_release s = includes (funded ∷ in_production ∷ []) s

abbrev pub accepts_resolve : CampaignStatusTag → Bool
accepts_resolve s = includes (disputed ∷ []) s

abbrev pub accepts_settle : CampaignStatusTag → Bool
accepts_settle s = includes (harvested ∷ []) s

abbrev pub accepts_fail : CampaignStatusTag → Bool
accepts_fail s = includes (active ∷ funding ∷ funded ∷ in_production ∷ []) s

abbrev pub accepts : AdminAction → CampaignStatusTag → Bool
accepts configure s = accepts_configure s
accepts release s = accepts_release s
accepts resolve s = accepts_resolve s
accepts settle s = accepts_settle s
accepts fail s = accepts_fail s

abbrev pub all_positive : List TrancheInput → Bool
all_positive [] = true
all_positive (t ∷ ts) = ltb_ℤ (pos 0) t.amount && all_positive ts

abbrev pub sum_amounts : List TrancheInput → ℤ
sum_amounts [] = pos 0
sum_amounts (t ∷ ts) = t.amount +ℤ sum_amounts ts

abbrev pub is_empty : List TrancheInput → Bool
is_empty [] = true
is_empty (t ∷ ts) = false

abbrev pub accepts_payout : DisputeResolutionTag → (payout held : ℤ) → Bool
accepts_payout pending payout held = false
accepts_payout full_refund payout held = not (ltb_ℤ payout (pos 0)) && not (ltb_ℤ (pos 0) payout)
accepts_payout full_payout payout held = not (ltb_ℤ payout (pos 0)) && not (ltb_ℤ (pos 0) payout)
accepts_payout partial_settlement payout held = ltb_ℤ (pos 0) payout && ltb_ℤ payout held

abbrev pub admits_configure : Campaign → List TrancheInput → Bool
admits_configure c ts =
    accepts configure c.status
    && not (is_empty ts)
    && all_positive ts
    && not (ltb_ℤ c.total_funded (sum_amounts ts))

abbrev pub admits_release : Campaign → (amount : ℤ) → Bool
admits_release c amount =
    ltb_ℤ (pos 0) amount && accepts release c.status && not (ltb_ℤ (held_on_chain c) amount)

abbrev pub admits_resolve : Campaign → DisputeResolutionTag → (payout : ℤ) → Bool
admits_resolve c resolution payout =
    accepts resolve c.status && accepts_payout resolution payout (held_on_chain c)

abbrev pub admits_settle : Campaign → (payout : ℤ) → Bool
admits_settle c payout =
    not (ltb_ℤ payout (pos 0)) && accepts settle c.status && not (ltb_ℤ (held_on_chain c) payout)

-- The checks of an administrator's call
unfoldable pub admits : Campaign → Mutation → Bool
unfolding held_on_chain
admits c (configure_tranches id ts) = admits_configure c ts
admits c (release_tranche id recipient amount) = admits_release c amount
admits c (resolve_dispute id resolution payout) = admits_resolve c resolution payout
admits c (settle_campaign id farmer payout) = admits_settle c payout
admits c (mark_failed id) = accepts fail c.status
admits c m = false
