-- ===== src/Client/Presentation.antt =====
-- The badge and the stepper agree, and the stepper never goes back.
use agrocylo_pip.Prelude.{Bool-cases, Option, arith, inl, inr, length, none, refl, ◌<◌, ◌≡◌, ◌≤◌}
use agrocylo_pip.Client.CampaignStatus.{
  CampaignStatusTag, ProductionProgress, active, disputed, failed, funded, funding, harvested,
  in_production, is_derived_in_production, lifecycle_step_index, lifecycle_steps,
  presentational_campaign_status, resolved, settled,
}

-- The steps of a campaign without a dispute or a failure
pub data Advances : CampaignStatusTag → CampaignStatusTag → Type 0 where
  first_contribution : Advances active funding
  target_reached_at_once : Advances active funded
  target_reached : Advances funding funded
  tranche_released : Advances funded in_production
  harvest_reported : Advances in_production harvested
  harvest_without_release : Advances funded harvested
  settlement : Advances harvested settled

funded_lem :
    (progress : Option ProductionProgress)
    → (lifecycle_step_index funded progress
        ≡ lifecycle_step_index (presentational_campaign_status funded progress) none)
      × (lifecycle_step_index funded progress ≤ 2)
      × (1 ≤ lifecycle_step_index funded progress)
unfolding lifecycle_step_index presentational_campaign_status
funded_lem progress = elim (Bool-cases (is_derived_in_production funded progress)) [
  | inl under_way ↦
      rw under_way (unfold is_derived_in_production in (refl, ground arith, ground arith))
  | inr not_yet ↦ rw not_yet (unfold is_derived_in_production in (refl, ground arith, ground arith))
]

-- The stepper of a campaign with its progress stands where that of the status in the badge stands,
-- and at one of the five steps.
pub stepper_agrees :
    (status : CampaignStatusTag) (progress : Option ProductionProgress)
    → (lifecycle_step_index status progress
        ≡ lifecycle_step_index (presentational_campaign_status status progress) none)
      × (lifecycle_step_index status progress < length lifecycle_steps)
unfolding lifecycle_step_index presentational_campaign_status is_derived_in_production
stepper_agrees active progress = (refl, ground arith)
stepper_agrees funding progress = (refl, ground arith)
stepper_agrees funded progress =
    let (same, below, above) = funded_lem progress in (same, omega arith)
stepper_agrees in_production progress = (refl, ground arith)
stepper_agrees harvested progress = (refl, ground arith)
stepper_agrees disputed progress = (refl, ground arith)
stepper_agrees resolved progress = (refl, ground arith)
stepper_agrees settled progress = (refl, ground arith)
stepper_agrees failed progress = (refl, ground arith)

-- When a campaign advances without a dispute or a failure, the stepper does not go back, whatever is
-- known of its progress before and after.
pub stepper_monotone :
    (before after : CampaignStatusTag) (progress later : Option ProductionProgress)
    → Advances before after
    → lifecycle_step_index before progress ≤ lifecycle_step_index after later
unfolding lifecycle_step_index is_derived_in_production
stepper_monotone _ _ progress later first_contribution = ground arith
stepper_monotone _ _ progress later target_reached_at_once = ground arith
stepper_monotone _ _ progress later target_reached = ground arith
stepper_monotone _ _ progress later tranche_released =
    let (same, below, above) = funded_lem progress in omega arith
stepper_monotone _ _ progress later harvest_reported = ground arith
stepper_monotone _ _ progress later harvest_without_release =
    let (same, below, above) = funded_lem progress in omega arith
stepper_monotone _ _ progress later settlement = ground arith
