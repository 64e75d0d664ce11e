-- ===== src/Api/Investors/Shares.antt =====
-- What a portfolio adds up to, and what the shares of a campaign add up to.
use mathlib.Core.Path.{ap₂}
use native.Mathlib.Nat.{le_of_mul-le-mul_right, mul_comm}
use agrocylo_pip.Prelude.{
  All, Bool, Bool-cases, List, String, [], ap, arith, false, inl, inr, length, map, refl, some,
  true, ℕ, ◌&&◌, ◌*◌, ◌+◌, ◌/◌, ◌<◌, ◌∙◌, ◌∷◌, ◌≡◌, ◌≤◌,
}
use agrocylo_pip.Prelude.Int.{
  +ℤ_assoc, int_laws, ltb_ℤ, neg_part, negsuc, pos, pos_part, ℤ, ◌*ℤ◌, ◌+ℤ◌, ◌≤ℤ◌,
}
use agrocylo_pip.Prelude.Decimal.{parse_ℤ, parse_ℤ-print_ℤ, print_ℤ}
use agrocylo_pip.Prelude.Division.{div-mul_bounds, ◌/ℤ◌}
use agrocylo_pip.Store.Tables.{Campaign}
use agrocylo_pip.Store.Client.{done}
use agrocylo_pip.Store.Action.{returned}
use agrocylo_pip.Api.Investors.{
  add_to, Joined, Portfolio, claimable_from, claimable_of, claimable_pool_by_status, invested_from,
  pool_in, portfolio, share, to_position,
}

-- What the investor may claim of one position
abbrev pub share_of : Joined → ℤ
share_of j =
    share j.investment.amount (pool_in (claimable_pool_by_status j.campaign.status) j.campaign)
      j.campaign.total_funded

abbrev pub sum : List ℤ → ℤ
sum [] = pos 0
sum (z ∷ zs) = z +ℤ sum zs

zero_plus : (z : ℤ) → pos 0 +ℤ z ≡ z
zero_plus z = omega int_laws

claimable_of_lem : (j : Joined) → parse_ℤ (claimable_of j) ≡ some (share_of j)
unfolding claimable_of
claimable_of_lem j = parse_ℤ-print_ℤ _

claimable_from_lem :
    (acc : ℤ) (js : List Joined)
    → claimable_from (some acc) (map to_position js) ≡ some (acc +ℤ sum (map share_of js))
unfolding claimable_from to_position
claimable_from_lem acc [] = ap some (omega int_laws)
claimable_from_lem acc (j ∷ js) =
    ap (λ o. claimable_from o (map to_position js)) (ap (add_to acc) (claimable_of_lem j))
    ∙ claimable_from_lem (acc +ℤ share_of j) js
    ∙ ap some (+ℤ_assoc acc (share_of j) _)

invested_from_lem :
    (acc : ℤ) (js : List Joined)
    → invested_from acc js ≡ acc +ℤ sum (map (λ (j : Joined). j.investment.amount) js)
unfolding invested_from
invested_from_lem acc [] = omega int_laws
invested_from_lem acc (j ∷ js) =
    invested_from_lem (acc +ℤ j.investment.amount) js ∙ +ℤ_assoc acc j.investment.amount _

-- Over any rows of the database the portfolio returns: it has the position of each row in their
-- order, and its totals are the sums of the amounts and of the shares of the rows.
pub portfolio_totals :
    (address : String) (js : List Joined)
    → (p : Portfolio) × (portfolio address (done js) ≡ returned p)
      × (p.positions ≡ map to_position js)
      × (parse_ℤ p.total_invested ≡ some (sum (map (λ (j : Joined). j.investment.amount) js)))
      × (parse_ℤ p.total_claimable ≡ some (sum (map share_of js)))
      × (p.position_count ≡ length js)
unfolding portfolio
portfolio_totals address js =
    let claimed = claimable_from_lem (pos 0) js ∙ ap some (zero_plus (sum (map share_of js))) in
    let invested =
      invested_from_lem (pos 0) js
      ∙ zero_plus (sum (map (λ (j : Joined). j.investment.amount) js)) in
    (
      record {
        address = address;
        positions = map to_position js;
        total_invested = print_ℤ (invested_from (pos 0) js);
        total_claimable = print_ℤ (sum (map share_of js));
        position_count = length js;
      },
      rw claimed refl,
      refl,
      parse_ℤ-print_ℤ (invested_from (pos 0) js) ∙ ap some invested,
      parse_ℤ-print_ℤ (sum (map share_of js)),
      refl,
    )

share_pos : (a p t : ℕ) → 0 < p → 0 < t → share (pos a) (pos p) (pos t) ≡ pos (a * p / t)
unfolding share ◌*ℤ◌ ◌/ℤ◌
share_pos a p t hp ht = ground arith

nonneg : (z : ℤ) → pos 0 ≤ℤ z → (n : ℕ) × (z ≡ pos n)
nonneg (pos n) h = (n, refl)
nonneg (negsuc n) h = absurd (omega arith)

+ℤ_pos : (a b : ℕ) → pos a +ℤ pos b ≡ pos (a + b)
+ℤ_pos a b = omega int_laws

share_closed : (a p t : ℤ) → (ltb_ℤ (pos 0) t && ltb_ℤ (pos 0) p) ≡ false → share a p t ≡ pos 0
unfolding share
share_closed a p t h = rw h

-- The sums of the amounts and of the shares of a campaign's investments
module _ (c : Campaign) (p t : ℕ) (pool : pool_in (claimable_pool_by_status c.status) c ≡ pos p)
    (total : c.total_funded ≡ pos t) (open_ : 0 < p) (funded : 0 < t) where
  share_of_lem :
      (j : Joined) (a : ℕ)
      → j.campaign ≡ c
      → j.investment.amount ≡ pos a
      → share_of j ≡ pos (a * p / t)
  share_of_lem j a same amount =
      ap₂ (λ x d. share x (pool_in (claimable_pool_by_status d.status) d) d.total_funded) amount
        same
      ∙ ap₂ (share (pos a)) pool total
      ∙ share_pos a p t open_ funded

  sums :
      (js : List Joined)
      → All (λ (j : Joined). j.campaign ≡ c) js
      → All (λ (j : Joined). pos 0 ≤ℤ j.investment.amount) js
      → (n : ℕ) × (m : ℕ) × (sum (map (λ (j : Joined). j.investment.amount) js) ≡ pos n)
        × (sum (map share_of js) ≡ pos m)
        × (m * t ≤ n * p)
  sums [] _ _ = (0, 0, refl, refl, omega arith)
  sums (j ∷ js) (same, sames) (h, hs) =
      let (a, amount) = nonneg j.investment.amount h in
      let (n, m, is_n, is_m, le) = sums js sames hs in
      (
        a + n,
        a * p / t + m,
        ap₂ ◌+ℤ◌ amount is_n ∙ +ℤ_pos a n,
        ap₂ ◌+ℤ◌ (share_of_lem j a same amount) is_m ∙ +ℤ_pos (a * p / t) m,
        grind (arith, div-mul_bounds (a * p) t, le),
      )

both : {a b : Bool} → (a && b) ≡ true → (a ≡ true) × (b ≡ true)
both {a} {b} h = ground arith

positive_ℤ : (z : ℤ) → ltb_ℤ (pos 0) z ≡ true → (n : ℕ) × (z ≡ pos n) × (0 < n)
positive_ℤ (pos n) h = (n, refl, ground arith)
positive_ℤ (negsuc n) h = absurd (ground arith)

closed_sums :
    (c : Campaign)
    → (ltb_ℤ (pos 0) c.total_funded
        && ltb_ℤ (pos 0) (pool_in (claimable_pool_by_status c.status) c))
      ≡ false
    → (js : List Joined) → All (λ (j : Joined). j.campaign ≡ c) js
    → sum (map share_of js) ≡ pos 0
closed_sums c closed [] _ = refl
closed_sums c closed (j ∷ js) (same, sames) =
    ap₂ ◌+ℤ◌
      (ap
          (λ (d : Campaign).
            share j.investment.amount (pool_in (claimable_pool_by_status d.status) d)
              d.total_funded)
          same
        ∙ share_closed _ _ _ closed)
      (closed_sums c closed js sames)
    ∙ +ℤ_pos 0 0

quotient_le : (m n p t : ℕ) → m * t ≤ n * p → n ≤ t → 0 < t → m ≤ p
quotient_le m n p t le small h = le_of_mul-le-mul_right {k = t} (grind (arith, mul_comm t p)) h

-- Investments of one campaign, of amounts that are not negative and come to no more than its total
-- funding, have shares that are together not negative and no more than the pool that the campaign's
-- status opens, whatever that status is, where this pool is not negative.
pub shares_within_pool :
    (c : Campaign) (js : List Joined)
    → All (λ (j : Joined). j.campaign ≡ c) js
    → All (λ (j : Joined). pos 0 ≤ℤ j.investment.amount) js
    → sum (map (λ (j : Joined). j.investment.amount) js) ≤ℤ c.total_funded
    → pos 0 ≤ℤ pool_in (claimable_pool_by_status c.status) c
    → (pos 0 ≤ℤ sum (map share_of js))
      × (sum (map share_of js) ≤ℤ pool_in (claimable_pool_by_status c.status) c)
shares_within_pool c js same amounts covered pool =
    elim (Bool-cases (
      ltb_ℤ (pos 0) c.total_funded
      && ltb_ℤ (pos 0) (pool_in (claimable_pool_by_status c.status) c))) [
        | inl open_ ↦
            let (positive, filled) = both open_ in
            let (t, total, funded) = positive_ℤ c.total_funded positive in
            let (p, is_p, some_pool) =
              positive_ℤ (pool_in (claimable_pool_by_status c.status) c) filled in
            let (n, m, is_n, is_m, le) = sums c p t is_p total some_pool funded js same amounts in
            let small : (n ≤ t) =
              omega
                (arith, ap pos_part is_n, ap neg_part is_n, ap pos_part total, ap neg_part total) in
            omega (
              arith,
              quotient_le m n p t le small funded,
              ap pos_part is_m,
              ap neg_part is_m,
              ap pos_part is_p,
              ap neg_part is_p,
            )
        | inr closed ↦ rw (closed_sums c closed js same) (omega arith, pool)
      ]
