-- ===== src/Client/Replay.antt =====
-- The counts of the analytics page cover every campaign once.
use agrocylo_pip.Prelude.{List, [], arith, length, refl, ℕ, ◌+◌, ◌∷◌, ◌≡◌}
use agrocylo_pip.Client.CampaignStatus.{
  active, disputed, equals, failed, funded, funding, harvested, in_production, includes, resolved,
  settled,
}
use agrocylo_pip.Client.Analytics.{
  EscrowEvent, Statuses, campaign_statuses, compute_analytics_metrics, count_all, count_where,
  replay, sorted, target_reached_statuses,
}

abbrev pub total : List ℕ → ℕ
total [] = 0
total (n ∷ ns) = n + total ns

-- How many campaigns are still in one of the two statuses of fundraising
abbrev pub raising : Statuses → ℕ
raising cs = count_where (equals active) cs + count_where (equals funding) cs

counts_lem :
    (cs : Statuses)
    → (total (count_all campaign_statuses cs) ≡ length cs)
      × (count_where (includes target_reached_statuses) cs
            + raising cs
            + count_where (equals failed) cs
          ≡ length cs)
counts_lem [] = (refl, refl)
counts_lem ((k, active) ∷ cs) = let (all_, split_) = counts_lem cs in (omega arith, omega arith)
counts_lem ((k, funding) ∷ cs) = let (all_, split_) = counts_lem cs in (omega arith, omega arith)
counts_lem ((k, funded) ∷ cs) = let (all_, split_) = counts_lem cs in (omega arith, omega arith)
counts_lem ((k, in_production) ∷ cs) =
    let (all_, split_) = counts_lem cs in (omega arith, omega arith)
counts_lem ((k, harvested) ∷ cs) = let (all_, split_) = counts_lem cs in (omega arith, omega arith)
counts_lem ((k, disputed) ∷ cs) = let (all_, split_) = counts_lem cs in (omega arith, omega arith)
counts_lem ((k, resolved) ∷ cs) = let (all_, split_) = counts_lem cs in (omega arith, omega arith)
counts_lem ((k, settled) ∷ cs) = let (all_, split_) = counts_lem cs in (omega arith, omega arith)
counts_lem ((k, failed) ∷ cs) = let (all_, split_) = counts_lem cs in (omega arith, omega arith)

-- Over any events, the counts by status come together to the number of campaigns, and so do those that
-- reached the target, are still raising, and failed; those still raising are the ones in the status
-- Active or Funding.
pub counts_cover :
    (events : List EscrowEvent)
    → let m = compute_analytics_metrics events in
      (total m.campaigns_by_status ≡ m.total_campaigns)
      × (m.reached_target + m.still_raising + m.failed_campaigns ≡ m.total_campaigns)
      × (m.still_raising ≡ raising (replay (sorted events) []))
unfolding compute_analytics_metrics
counts_cover events =
    let (all_, split_) = counts_lem (replay (sorted events) []) in (all_, omega arith, omega arith)
