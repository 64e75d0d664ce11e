-- ===== src/Api/Campaigns/Paging.antt =====
-- The pages of `list` together.
use native.Mathlib.Nat.{zero-mul}
use mathlib.Core.List.{map-append}
use mathlib.Core.Path.{ap₂}
use agrocylo_pip.Prelude.Division.{div-mul_bounds}
use agrocylo_pip.Prelude.{
  Bool-cases, List, String, [], ap, arith, drop, inl, inr, leb, leb→le, length, map, refl, suc, sym,
  take, take-add, take-eq_of_length-le, zero, ℕ, ◌*◌, ◌++◌, ◌+◌, ◌-◌, ◌/◌, ◌<◌, ◌∙◌, ◌∷◌, ◌≡◌, ◌≤◌,
}
use agrocylo_pip.Store.Tables.{Campaign, Table}
use agrocylo_pip.Api.Rows.{Answer, Stamped, failed, found, not_found}
use agrocylo_pip.Api.Campaigns.{
  done, CampaignList, CampaignSummary, ListCampaignsQuery, is_selected, list_campaigns, skip_of,
  to_campaign_summary, total_pages,
}
use agrocylo_pip.Api.Campaigns.Order.{AreDistinct, Enumerates, enumeration_unique}

-- What Prisma documents of `findMany` with `skip` and `take`: a slice of the selected rows in some
-- order of the kind that is asked for
pub record IsSlice (t : Table Campaign) (q : ListCampaignsQuery) (rows : List (Stamped Campaign))
    : Type 0 where
  pub every : List Campaign
  pub enumerates : Enumerates t (is_selected q) every
  pub slice : map (λ (c : Stamped Campaign). c.row) rows ≡ take q.limit (drop (skip_of q) every)

-- The ids that an answer of `list` holds
abbrev pub ids_of : Answer CampaignList → List String
ids_of (found body) = map (λ (c : CampaignSummary). c.id) body.content
ids_of (not_found id) = []
ids_of (failed why) = []

-- The pages 1 to n, in order
abbrev pub pages : ℕ → (ℕ → List String) → List String
pages zero page = []
pages (suc n) page = pages n page ++ page (suc n)

abbrev id_of : Campaign → String
id_of c = c.id

total_pages_enough : (total limit : ℕ) → 0 < limit → total ≤ total_pages total limit * limit
unfolding total_pages
total_pages_enough total limit h =
    let (_, above) = div-mul_bounds (total + limit - 1) limit h in
    elim (Bool-cases (leb ((total + limit - 1) / limit) 1)) [
      | inl few ↦ rw few (grind (arith, above, leb→le _ _ few))
      | inr many ↦ rw many (omega arith)
    ]

summary_ids :
    (rows : List (Stamped Campaign))
    → map (λ (c : CampaignSummary). c.id) (map to_campaign_summary rows)
      ≡ map id_of (map (λ (c : Stamped Campaign). c.row) rows)
unfolding to_campaign_summary
summary_ids [] = refl
summary_ids (c ∷ cs) = ap (◌∷◌ c.row.id) (summary_ids cs)

module _ (t : Table Campaign) (distinct : AreDistinct t) (q : ListCampaignsQuery)
    (positive : 0 < q.limit) (rows : ℕ → List (Stamped Campaign))
    (slices : (p : ℕ) → IsSlice t (record q { page = suc p }) (rows (suc p)))
    (every : List Campaign) (enumerates : Enumerates t (is_selected q) every) where
  abbrev answer : ℕ → Answer CampaignList
  answer p = list_campaigns (record q { page = p }) (done (rows p)) (done (length every))

  page_ids : (p : ℕ) → ids_of (answer (suc p)) ≡ map id_of (take q.limit (drop (p * q.limit) every))
  unfolding list_campaigns is_selected
  page_ids p =
      let s = slices p in
      let before : (suc p - 1 ≡ p) = omega arith in
      summary_ids (rows (suc p))
      ∙ ap (map id_of) (
          s.slice
          ∙ ap₂ (λ k xs. take q.limit (drop (k * q.limit) xs)) before
              (enumeration_unique t distinct (is_selected q) s.every every s.enumerates enumerates))

  pages_ids : (n : ℕ) → pages n (λ p. ids_of (answer p)) ≡ map id_of (take (n * q.limit) every)
  pages_ids zero = ap (map id_of) (sym (ap (λ k. take k every) (zero-mul q.limit)))
  pages_ids (suc n) =
      ap₂ ◌++◌ (pages_ids n) (page_ids n)
      ∙ sym (map-append id_of (take (n * q.limit) every) _)
      ∙ ap (map id_of)
          (sym (take-add (n * q.limit) q.limit every) ∙ ap (λ k. take k every) (omega arith))

  -- Where no two campaigns were created at the same time and the table does not change between the
  -- requests, the pages from 1 to `totalPages` hold together the ids of exactly the campaigns that
  -- the query selects, each once, the latest first.
  pub pages_cover :
      pages (total_pages (length every) q.limit) (λ p. ids_of (answer p)) ≡ map id_of every
  pages_cover =
      pages_ids (total_pages (length every) q.limit)
      ∙ ap (map id_of)
          (take-eq_of_length-le _ every (total_pages_enough (length every) q.limit positive))
