-- ===== src/Client/MayDispute.antt =====
-- Where a dispute is offered, against the rule of `open_dispute` in contracts/production_escrow/src/lib.rs
-- and contracts/INTEGRATION.md.
use mathlib.Core.Option.{some-injective}
use mathlib.Core.Path.{subst}
use agrocylo_pip.Prelude.{
  Bool-cases, Option, String, ap, arith, eq_iff, false, inl, inr, none, refl, some, suc, sym, true,
  zero, ℕ, ◌↔◌, ◌∙◌, ◌≡◌, ◌≢◌, ◌⊎◌,
}
use agrocylo_pip.Prelude.Int.{negsuc, pos, ℤ}
use agrocylo_pip.Prelude.Text.{is_blank}
use agrocylo_pip.Client.CampaignStatus.{
  CampaignStatusTag, active, disputed, failed, funded, funding, harvested, in_production, includes,
  resolved, settled,
}
use agrocylo_pip.Client.Dispute.{
  DisputeEligibility, DisputeEligibilityInput, DisputeOpenerRole, admin, contributor,
  disputable_statuses, evaluate_dispute_eligibility, evaluate_role, evaluate_status,
  evaluate_wallet, farmer, granted, has_contributed, is_owner, not_eligible,
}

-- The statuses in which the contract opens a dispute
pub data IsDisputable : CampaignStatusTag → Type 0 where
  while_active : IsDisputable active
  while_funding : IsDisputable funding
  while_funded : IsDisputable funded
  while_in_production : IsDisputable in_production

-- The wallet is the one of the role.
abbrev pub Acts : String → DisputeEligibilityInput → DisputeOpenerRole → Type 0
Acts wallet input farmer = input.farmer_address ≡ some wallet
Acts wallet input admin = input.admin_address ≡ some wallet
Acts wallet input contributor = (n : ℕ) × (input.contribution ≡ some (pos (suc n)))

-- A connected wallet, a status that is known and lets disputes be opened, and a role of the wallet
pub record MayDispute (input : DisputeEligibilityInput) (role : DisputeOpenerRole) : Type 0 where
  pub wallet : String
  pub status : CampaignStatusTag
  pub connected : input.wallet_address ≡ some wallet
  pub named : is_blank wallet ≡ false
  pub known : input.status ≡ some status
  pub disputable : IsDisputable status
  pub acts : Acts wallet input role

is_owner_iff :
    (wallet : String) (owner : Option String)
    → is_blank wallet ≡ false
    → (is_owner wallet owner ≡ true) ↔ (owner ≡ some wallet)
is_owner_iff wallet none named = (λ e. cc, λ e. cc)
is_owner_iff wallet (some owner) named = (
  λ e. ground (arith, eq_iff wallet owner),
  λ e. ground (arith, named, eq_iff wallet owner, some-injective _ _ e),
)

has_contributed_iff :
    (c : Option ℤ) → (has_contributed c ≡ true) ↔ ((n : ℕ) × (c ≡ some (pos (suc n))))
has_contributed_iff none = (λ e. cc, λ h. cc (h.1))
has_contributed_iff (some (pos zero)) = (λ e. cc, λ h. cc (h.1))
has_contributed_iff (some (pos (suc n))) = (λ e. (n, refl), λ h. ground arith)
has_contributed_iff (some (negsuc n)) = (λ e. ground arith, λ h. cc (h.1))

includes-IsDisputable :
    (s : CampaignStatusTag) → includes disputable_statuses s ≡ true → IsDisputable s
includes-IsDisputable active e = while_active
includes-IsDisputable funding e = while_funding
includes-IsDisputable funded e = while_funded
includes-IsDisputable in_production e = cc
includes-IsDisputable harvested e = cc
includes-IsDisputable disputed e = cc
includes-IsDisputable resolved e = cc
includes-IsDisputable settled e = cc
includes-IsDisputable failed e = cc

IsDisputable-includes :
    (s : CampaignStatusTag)
    → IsDisputable s
    → (includes disputable_statuses s ≡ true) ⊎ (s ≡ in_production)
IsDisputable-includes _ while_active = inl refl
IsDisputable-includes _ while_funding = inl refl
IsDisputable-includes _ while_funded = inl refl
IsDisputable-includes _ while_in_production = inr refl

-- The roles of a named wallet, in the order of the tests
evaluate_role_lem :
    (wallet : String) (input : DisputeEligibilityInput)
    → is_blank wallet ≡ false
    → ((role : DisputeOpenerRole) × (evaluate_role wallet input ≡ granted role)
        × Acts wallet input role)
      ⊎ ((reason : String) × (evaluate_role wallet input ≡ not_eligible reason)
          × ((role : DisputeOpenerRole) → ¬ Acts wallet input role))
unfolding evaluate_role
evaluate_role_lem wallet input named =
    let farms = is_owner_iff wallet input.farmer_address named in
    let runs = is_owner_iff wallet input.admin_address named in
    let gave = has_contributed_iff input.contribution in
    elim (Bool-cases (is_owner wallet input.farmer_address)) [
      | inl f ↦ inl (farmer, rw f refl, farms.0 f)
      | inr nf ↦ elim (Bool-cases (is_owner wallet input.admin_address)) [
        | inl a ↦ inl (admin, rw (nf, a) refl, runs.0 a)
        | inr na ↦ elim (Bool-cases (has_contributed input.contribution)) [
          | inl c ↦ inl (contributor, rw (nf, na, c) refl, gave.0 c)
          | inr nc ↦ inr (
            "Only the campaign farmer, a contributing investor, or an admin can open a dispute.",
            rw (nf, na, nc) refl,
            λ role. elim role as (λ r. ¬ Acts wallet input r) [
              | farmer ↦ λ h. cc (nf, farms.1 h)
              | contributor ↦ λ h. cc (nc, gave.1 h)
              | admin ↦ λ h. cc (na, runs.1 h)
            ],
          )
        ]
      ]
    ]

-- A role is granted, the wallet may open a dispute in it, and the campaign is not in production; or a
-- reason is given, and the wallet may open one in some role only while the campaign is in production.
abbrev pub Decides : DisputeEligibilityInput → DisputeEligibility → Type 0
Decides input e =
    ((role : DisputeOpenerRole) × (e ≡ granted role)
      × MayDispute input role
      × (input.status ≢ some in_production))
    ⊎ ((reason : String) × (e ≡ not_eligible reason)
        × ((role : DisputeOpenerRole) → MayDispute input role → input.status ≡ some in_production))

not_disputable :
    (input : DisputeEligibilityInput) (status : CampaignStatusTag) (role : DisputeOpenerRole)
    → input.status ≡ some status
    → includes disputable_statuses status ≡ false
    → MayDispute input role
    → input.status ≡ some in_production
not_disputable input status role same shut h =
    let one : h.status ≡ status = some-injective _ _ (sym h.known ∙ same) in
    elim (IsDisputable-includes h.status h.disputable) [
      | inl open_ ↦ cc (open_, ap (includes disputable_statuses) one, shut)
      | inr producing ↦ h.known ∙ ap some producing
    ]

disputable_now :
    (input : DisputeEligibilityInput) (status : CampaignStatusTag)
    → input.status ≡ some status
    → includes disputable_statuses status ≡ true
    → input.status ≢ some in_production
disputable_now input status same open_ producing =
    let one : status ≡ in_production = some-injective _ _ (sym same ∙ producing) in
    let shut : includes disputable_statuses in_production ≡ false = refl in
    cc (open_, ap (includes disputable_statuses) one, shut)

other_wallet :
    (input : DisputeEligibilityInput) (wallet : String) (role : DisputeOpenerRole)
    → input.wallet_address ≡ some wallet
    → ¬ Acts wallet input role
    → ¬ MayDispute input role
other_wallet input wallet role at no_act h =
    no_act (subst (λ w. Acts w input role) (some-injective _ _ (sym h.connected ∙ at)) h.acts)

blank_wallet :
    (input : DisputeEligibilityInput) (wallet : String) (role : DisputeOpenerRole)
    → input.wallet_address ≡ some wallet
    → is_blank wallet ≡ true
    → ¬ MayDispute input role
blank_wallet input wallet role at blank h =
    let one : h.wallet ≡ wallet = some-injective _ _ (sym h.connected ∙ at) in
    cc (h.named, ap is_blank one, blank)

evaluate_status_lem :
    (input : DisputeEligibilityInput) (wallet : String) (status : Option CampaignStatusTag)
    → input.wallet_address ≡ some wallet
    → is_blank wallet ≡ false
    → input.status ≡ status
    → Decides input (evaluate_status wallet status input)
unfolding evaluate_status
evaluate_status_lem input wallet none at named same =
    inr ("Campaign status is still loading.", refl, λ role h. absurd (cc (h.known, same)))
evaluate_status_lem input wallet (some status) at named same =
    elim (Bool-cases (includes disputable_statuses status)) [
      | inr shut ↦ rw shut (
          inr (
            "Disputes can only be opened while a campaign is Active, Funding, Funded.",
            refl,
            λ role. not_disputable input status role same shut,
          ))
      | inl open_ ↦ rw open_ (elim (evaluate_role_lem wallet input named) [
        | inl (role, e, acts) ↦ inl (
          role,
          e,
          record {
            wallet = wallet;
            status = status;
            connected = at;
            named = named;
            known = same;
            disputable = includes-IsDisputable status open_;
            acts = acts;
          },
          disputable_now input status same open_,
        )
        | inr (reason, e, no_role) ↦
            inr (reason, e, λ role h. absurd (other_wallet input wallet role at (no_role role) h))
      ])
    ]

evaluate_wallet_lem :
    (input : DisputeEligibilityInput) (o : Option String)
    → input.wallet_address ≡ o
    → Decides input (evaluate_wallet o input)
unfolding evaluate_wallet
evaluate_wallet_lem input none at =
    inr ("Connect your wallet to open a dispute.", refl, λ role h. absurd (cc (h.connected, at)))
evaluate_wallet_lem input (some wallet) at = elim (Bool-cases (is_blank wallet)) [
  | inl blank ↦ rw blank (
      inr (
        "Connect your wallet to open a dispute.",
        refl,
        λ role h. absurd (blank_wallet input wallet role at blank h),
      ))
  | inr named ↦ rw named (evaluate_status_lem input wallet input.status at named refl)
]

-- evaluateDisputeEligibility grants a role in which the contract lets the wallet open a dispute,
-- while the campaign is not in production, or it refuses with a reason, and then the contract lets
-- the wallet open one at most while the campaign is in production. The contract lets it where the
-- campaign is Active, Funding, Funded or InProduction, and the wallet is the farmer, is the admin,
-- or has contributed more than nothing; of the input, the wallet has to be connected and the status
-- known.
pub evaluate_dispute_eligibility_lem :
    (input : DisputeEligibilityInput) → Decides input (evaluate_dispute_eligibility input)
unfolding evaluate_dispute_eligibility
evaluate_dispute_eligibility_lem input = evaluate_wallet_lem input input.wallet_address refl
