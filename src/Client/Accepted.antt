-- ===== src/Client/Accepted.antt =====
-- The administrator's forms against the contract: which are shown, and what they send.
use agrocylo_pip.Client.Symbols.{parse_whole_amount}
use mathlib.Core.Option.{some-injective}
use agrocylo_pip.Prelude.{
  Bool, Bool-cases, List, Option, String, [], arith, false, inl, inr, none, not, refl, some, suc,
  true, zero, ℕ, ◌&&◌, ◌<◌, ◌||◌, ◌∷◌, ◌≡◌,
}
use agrocylo_pip.Prelude.Int.{ltb_ℤ, pos}
use agrocylo_pip.Client.CampaignStatus.{CampaignStatusTag, equals, harvested, includes}
use agrocylo_pip.Client.Mutations.{
  DisputeResolutionTag, Mutation, full_payout, full_refund, partial_settlement, pending,
}
use agrocylo_pip.Client.Admin.{
  Campaign, ConfigureForm, ReleaseForm, ResolveForm, SettleForm, Validation, check_amount,
  escrow_held, invalid, is_offered, on_validation, release_amount, release_to, resolve_by,
  resolve_partially, settle_amount, valid, validate,
}
use agrocylo_pip.Client.Admin.Failing.{FailForm, submit_fail}
use agrocylo_pip.Client.EscrowGuards.{
  AdminAction, accepts, admits, configure, fail, held_on_chain, release, resolve, settle,
}
use agrocylo_pip.Client.Panel.{Forms, actionable_statuses, shown, submit}
use agrocylo_pip.Client.Validated.{check_amount_pos, validate_lem}

abbrev pub is_same : AdminAction → AdminAction → Bool
is_same configure configure = true
is_same release release = true
is_same resolve resolve = true
is_same settle settle = true
is_same fail fail = true
is_same a b = false

abbrev pub is_shown : AdminAction → List AdminAction → Bool
is_shown a [] = false
is_shown a (b ∷ bs) = is_same b a || is_shown a bs

-- A campaign that is harvested can be marked failed in the panel, and not in the contract.
abbrev pub is_refused : AdminAction → CampaignStatusTag → Bool
is_refused a s = is_same a fail && equals s harvested

shown_lem :
    (a : AdminAction) (s : CampaignStatusTag) → is_shown a (shown s) ≡ accepts a s || is_refused a s
unfolding shown
shown_lem configure s = ground arith
shown_lem release s = ground arith
shown_lem resolve s = ground arith
shown_lem settle s = ground arith
shown_lem fail s = ground arith

abbrev pub shows_none : List AdminAction → Bool
shows_none [] = true
shows_none (a ∷ as_) = false

-- The dashboard lists a campaign exactly where the panel has a form for it, and in each status the panel
-- shows exactly the forms that the contract takes in it, and that of marking a harvested campaign as
-- failed, which it does not.
pub panel_offers :
    (s : CampaignStatusTag)
    → (includes actionable_statuses s ≡ not (shows_none (shown s)))
      × ((a : AdminAction) → is_shown a (shown s) ≡ accepts a s || is_refused a s)
      × (accepts fail harvested ≡ false)
unfolding shown
panel_offers s = (ground arith, λ a. shown_lem a s, refl)

-- The contract admits the call, if there is one.
abbrev AdmitsAny : Campaign → Option Mutation → Type 0
AdmitsAny c none = Unit {0}
AdmitsAny c (some m) = admits c m ≡ true

-- The panel reckons what the escrow holds as the contract does.
held_same : (c : Campaign) → held_on_chain c ≡ escrow_held c
unfolding held_on_chain escrow_held
held_same c = refl

AdmitsAny-some :
    (c : Campaign) (o : Option Mutation) (m : Mutation)
    → o ≡ some m
    → AdmitsAny c o
    → admits c m ≡ true
AdmitsAny-some c none m e h = cc e
AdmitsAny-some c (some n) m e h = rw (← some-injective _ _ e) h

module _ (valid_key valid_contract : String → Bool) (c : Campaign) (id : String) where
  configure-AdmitsAny :
      (f : ConfigureForm) (v : Validation)
      → validate c.total_funded f.rows ≡ v
      → accepts configure c.status ≡ true
      → AdmitsAny c (on_validation id f v).1
  unfolding admits
  configure-AdmitsAny f (invalid message) e s = tt
  configure-AdmitsAny f (valid ts) e s =
      let (filled, (k, added, positive, within)) = validate_lem c.total_funded f.rows ts e in
      rw (s, filled, positive, added) (ground arith)

  release-AdmitsAny :
      (f : ReleaseForm) (o : Option ℕ)
      → ((n : ℕ) → check_amount o ≡ some n → 0 < n)
      → accepts release c.status ≡ true
      → AdmitsAny c
          (release_amount valid_key valid_contract id (escrow_held c) f (check_amount o)).1
  unfolding admits
  release-AdmitsAny f none above s = tt
  release-AdmitsAny f (some zero) above s = tt
  release-AdmitsAny f (some (suc n)) above s =
      elim (Bool-cases (ltb_ℤ (escrow_held c) (pos (suc n)))) [
        | inl over ↦ rw over tt
        | inr within ↦ rw (within, held_same c) (rw within (ground arith))
      ]

  resolve-AdmitsAny :
      (f : ResolveForm) (r : DisputeResolutionTag)
      → is_offered r ≡ true
      → accepts resolve c.status ≡ true
      → AdmitsAny c (resolve_by r id (escrow_held c) f).1
  unfolding admits
  resolve-AdmitsAny f pending o s = cc o
  resolve-AdmitsAny f full_refund o s = rw s refl
  resolve-AdmitsAny f full_payout o s = rw s refl
  resolve-AdmitsAny f partial_settlement o s = partially (parse_whole_amount f.payout_amount)
    where
      partially :
          (o : Option ℕ) → AdmitsAny c (resolve_partially id (escrow_held c) f (check_amount o)).1
      partially none = tt
      partially (some zero) = tt
      partially (some (suc n)) = elim (Bool-cases (ltb_ℤ (pos (suc n)) (escrow_held c))) [
        | inl less ↦ rw (less, held_same c) (rw (s, less) (ground arith))
        | inr more ↦ rw more tt
      ]

  settle-AdmitsAny :
      (f : SettleForm) (o : Option ℕ)
      → accepts settle c.status ≡ true
      → AdmitsAny c (settle_amount id c.farmer (escrow_held c) f o).1
  unfolding admits
  settle-AdmitsAny f none s = tt
  settle-AdmitsAny f (some n) s = elim (Bool-cases (ltb_ℤ (escrow_held c) (pos n))) [
    | inl over ↦ rw over tt
    | inr within ↦ rw (within, held_same c) (rw (s, within) (ground arith))
  ]

  release_to-AdmitsAny :
      (is_valid : Bool) (f : ReleaseForm)
      → accepts release c.status ≡ true
      → AdmitsAny c (release_to valid_key valid_contract is_valid id (escrow_held c) f).1
  release_to-AdmitsAny false f s = tt
  release_to-AdmitsAny true f s =
      release-AdmitsAny f _ (check_amount_pos (parse_whole_amount f.amount)) s

  fail-AdmitsAny : (f : FailForm) → accepts fail c.status ≡ true → AdmitsAny c (submit_fail id f).1
  unfolding admits submit_fail
  fail-AdmitsAny f s = elim (Bool-cases f.confirming) [
    | inl confirming ↦ rw confirming s
    | inr idle ↦ rw idle tt
  ]

  submit-AdmitsAny :
      (a : AdminAction) (f : Forms)
      → is_offered f.resolve_form.resolution ≡ true
      → accepts a c.status ≡ true
      → AdmitsAny c (submit valid_key valid_contract a id c f)
  unfolding submit
  submit-AdmitsAny configure f o s = configure-AdmitsAny f.configure_form _ refl s
  submit-AdmitsAny release f o s = release_to-AdmitsAny _ f.release_form s
  submit-AdmitsAny resolve f o s = resolve-AdmitsAny f.resolve_form f.resolve_form.resolution o s
  submit-AdmitsAny settle f o s =
      settle-AdmitsAny f.settle_form (parse_whole_amount f.settle_form.farmer_payout) s
  submit-AdmitsAny fail f o s = fail-AdmitsAny f.fail_form s

  -- A form of the admin panel that is shown in the campaign's status sends, whatever was typed into
  -- it, only a call that the contract's checks of status and sums let through, where the resolution
  -- is one that its form offers and the contract holds the campaign as the panel shows it; the form
  -- that marks a harvested campaign as failed is left out.
  pub submitted_admitted :
      (a : AdminAction) (f : Forms) (m : Mutation)
      → is_shown a (shown c.status) ≡ true
      → is_refused a c.status ≡ false
      → is_offered f.resolve_form.resolution ≡ true
      → submit valid_key valid_contract a id c f ≡ some m
      → admits c m ≡ true
  submitted_admitted a f m on_panel taken offered sent =
      AdmitsAny-some c (submit valid_key valid_contract a id c f) m sent
        (submit-AdmitsAny a f offered (ground (arith, shown_lem a c.status)))
