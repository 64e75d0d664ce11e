-- ===== src/Client/CampaignStatus.antt =====
-- lib/campaignStatus.ts: what the badges and the stepper show of a campaign.
use agrocylo_pip.Prelude.{
  Bool, List, Option, String, [], false, if◌then◌else◌, none, not, some, str_eq, true, ℕ, ◌+◌, ◌==◌,
  ◌||◌, ◌∷◌,
}
use agrocylo_pip.Prelude.Int.{ltb_ℤ, pos, ℤ}

-- `CampaignStatusTag` of lib/soroban/types.ts
pub data CampaignStatusTag : Type 0 where
  active : CampaignStatusTag
  funding : CampaignStatusTag
  funded : CampaignStatusTag
  in_production : CampaignStatusTag
  harvested : CampaignStatusTag
  disputed : CampaignStatusTag
  resolved : CampaignStatusTag
  settled : CampaignStatusTag
  failed : CampaignStatusTag

-- Each status has its place in the union.
abbrev pub place_of : CampaignStatusTag → ℕ
place_of active = 0
place_of funding = 1
place_of funded = 2
place_of in_production = 3
place_of harvested = 4
place_of disputed = 5
place_of resolved = 6
place_of settled = 7
place_of failed = 8

-- `===`, and `includes`
abbrev pub equals : CampaignStatusTag → CampaignStatusTag → Bool
equals a b = place_of a == place_of b

abbrev pub includes : List CampaignStatusTag → CampaignStatusTag → Bool
includes [] a = false
includes (b ∷ bs) a = equals b a || includes bs a

-- The tranches' `released`, and the campaign's
pub record ProductionProgress : Type 0 where
  pub tranches : Option (List Bool)
  pub released_amount : Option ℤ

abbrev any_released : Option (List Bool) → Bool
any_released none = false
any_released (some []) = false
any_released (some (released ∷ ts)) = released || any_released (some ts)

abbrev is_positive : Option ℤ → Bool
is_positive none = false
is_positive (some amount) = ltb_ℤ (pos 0) amount

abbrev is_under_way : Option ProductionProgress → Bool
is_under_way none = false
is_under_way (some progress) =
    if any_released progress.tranches then true else is_positive progress.released_amount

-- `isDerivedInProduction`
unfoldable pub is_derived_in_production : CampaignStatusTag → Option ProductionProgress → Bool
is_derived_in_production status progress =
    if not (equals status funded) then false else is_under_way progress

unfoldable pub presentational_campaign_status :
    CampaignStatusTag → Option ProductionProgress → CampaignStatusTag
unfolding is_derived_in_production
presentational_campaign_status status progress =
    if is_derived_in_production status progress then in_production else status

-- The keys of `LIFECYCLE_STEPS`, each with its statuses
abbrev pub lifecycle_steps : List (String × List CampaignStatusTag)
lifecycle_steps =
    ("funding", active ∷ funding ∷ [])
    ∷ ("funded", funded ∷ [])
    ∷ ("production", in_production ∷ [])
    ∷ ("harvested", harvested ∷ [])
    ∷ ("settled", settled ∷ [])
    ∷ []

-- `findIndex`, from an index on
abbrev find_index_from :
    (String × List CampaignStatusTag → Bool) → ℕ → List (String × List CampaignStatusTag) → Option ℕ
find_index_from test n [] = none
find_index_from test n (step ∷ steps) =
    let rest = find_index_from test (n + 1) steps in if test step then some n else rest

-- `PRODUCTION_STEP_INDEX`; `findIndex` answers -1 where there is no such step.
abbrev index_or : ℕ → Option ℕ → ℕ
index_or n none = n
index_or n (some i) = i

unfoldable pub lifecycle_step_index : CampaignStatusTag → Option ProductionProgress → ℕ
unfolding is_derived_in_production
lifecycle_step_index status progress =
    if is_derived_in_production status progress
    then index_or 0 (find_index_from (λ step. str_eq step.0 "production") 0 lifecycle_steps)
    else index_or 1 (find_index_from (λ step. includes step.1 status) 0 lifecycle_steps)
