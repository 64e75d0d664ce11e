-- ===== src/Client/Wizard.antt =====
-- What holds of the page for creating a campaign, whatever its user does and however its calls end.
use agrocylo_pip.Client.Mutations.{
  Mutation, claim_refund, claim_return, configure_tranches, create_campaign, fund_campaign,
  mark_failed, open_dispute, register_campaign, register_farmer, release_tranche, report_harvest,
  resolve_dispute, settle_campaign,
}
use mathlib.Core.List.{append-nil, append_assoc}
use native.Mathlib.Numerals.{unary_clauses}
use agrocylo_pip.Prelude.{
  All, List, Option, String, [], ap, arith, false, none, some, suc, sym, true, zero, ℕ, ◌++◌, ◌-◌,
  ◌∙◌, ◌∷◌, ◌≡◌,
}
use agrocylo_pip.Prelude.Int.{ltb_ℤ, pos, ℤ}
use agrocylo_pip.Prelude.Decimal.{parse_ℕ}
use agrocylo_pip.Prelude.Text.{is_blank, trim}
use agrocylo_pip.Client.ContractClient.{Answer, resolved}
use agrocylo_pip.Client.Symbols.{is_valid_contract_symbol}
use agrocylo_pip.Client.CreateCampaign.{
  Browser, Field, FormState, Page, above_zero, deadline, description, go_back, go_next,
  handle_confirm, harvest_metadata, has_none, is_past, next_step, step_errors, step_of,
  target_amount, title, token_address, update, with_field,
}

-- What the user does; a confirmation comes with how its calls end.
pub data Action : Type 0 where
  types : Field → String → Action
  next : (now : ℤ) → Action
  back : Action
  confirm :
      (public_key : Option String) (now random : ℕ) (created registered : Answer (Unit {0}))
      → Action

-- The times at which the user went on to the next step
abbrev pub times : List Action → List ℤ
times [] = []
times (next now ∷ actions) = now ∷ times actions
times (a ∷ actions) = times actions

module _ (browser : Browser) where
  abbrev pub act : Action → Page → Page
  act (types f s) p = update f s p
  act (next now) p = go_next browser now p
  act back p = go_back p
  act (confirm key now random created registered) p =
      handle_confirm browser key now random created registered p

  abbrev pub act_all : List Action → Page → Page
  act_all [] p = p
  act_all (a ∷ as_) p = act_all as_ (act a p)

-- `IsNow t` says of a time that the user went on then.
module _ (browser : Browser) (IsNow : ℤ → Type 0) where
  -- What each step lets through
  abbrev pub HasDetails : FormState → Type 0
  HasDetails form =
      (is_blank (trim form.title) ≡ false)
      × (is_blank (trim form.description) ≡ false)
      × (is_valid_contract_symbol form.harvest_metadata ≡ true)

  abbrev pub HasFunding : FormState → Type 0
  HasFunding form =
      (above_zero (parse_ℕ form.target_amount) ≡ true)
      × (browser.is_valid_contract form.token_address ≡ true)

  -- The deadline is no date, or lay in the future when the user went on.
  abbrev pub HasDeadline : FormState → Type 0
  HasDeadline form = (t : ℤ) × IsNow t × (is_past (browser.date_ms form.deadline) t ≡ false)

  abbrev pub HasPassed : ℕ → FormState → Type 0
  HasPassed zero form = Unit {0}
  HasPassed (suc zero) form = HasDetails form
  HasPassed (suc (suc zero)) form = HasDetails form × HasFunding form
  HasPassed (suc (suc (suc n))) form = HasDetails form × HasFunding form × HasDeadline form

  pub HasPassed-typed :
      (f : Field) (s : String) (n : ℕ) (form : FormState)
      → step_of f ≡ n
      → HasPassed n form
      → HasPassed n (with_field f s form)
  HasPassed-typed f s zero form e h = tt
  HasPassed-typed target_amount s (suc zero) form e h = h
  HasPassed-typed token_address s (suc zero) form e h = h
  HasPassed-typed title s (suc zero) form e h = absurd (omega arith)
  HasPassed-typed description s (suc zero) form e h = absurd (omega arith)
  HasPassed-typed harvest_metadata s (suc zero) form e h = absurd (omega arith)
  HasPassed-typed deadline s (suc zero) form e h = absurd (omega arith)
  HasPassed-typed deadline s (suc (suc zero)) form e h = h
  HasPassed-typed title s (suc (suc n)) form e h = absurd (omega arith)
  HasPassed-typed description s (suc (suc n)) form e h = absurd (omega arith)
  HasPassed-typed harvest_metadata s (suc (suc n)) form e h = absurd (omega arith)
  HasPassed-typed target_amount s (suc (suc n)) form e h = absurd (omega arith)
  HasPassed-typed token_address s (suc (suc n)) form e h = absurd (omega arith)
  HasPassed-typed deadline s (suc (suc (suc n))) form e h = absurd (omega arith)

  pub HasPassed-back : (n : ℕ) (form : FormState) → HasPassed n form → HasPassed (n - 1) form
  HasPassed-back zero form h = tt
  HasPassed-back (suc zero) form h = tt
  HasPassed-back (suc (suc zero)) form h = h.0
  HasPassed-back (suc (suc (suc zero))) form h = (h.0, h.1)
  HasPassed-back (suc (suc (suc (suc n)))) form h = simp unary_clauses h

  pub HasPassed-next :
      (n : ℕ) (form : FormState) (now : ℤ)
      → has_none (step_errors browser n form now) ≡ true
      → IsNow now
      → HasPassed n form
      → HasPassed (next_step n) form
  unfolding step_errors
  HasPassed-next zero form now none_ at h = (ground arith, ground arith, ground arith)
  HasPassed-next (suc zero) form now none_ at h = (h, (ground arith, ground arith))
  HasPassed-next (suc (suc zero)) form now none_ at h = (h.0, h.1, (now, at, ground arith))
  HasPassed-next (suc (suc (suc n))) form now none_ at h = ground arith

  -- What is known of a call, with the id of the page
  abbrev pub IsSound : Option ℤ → Mutation × Answer (Unit {0}) → Type 0
  IsSound id (create_campaign input, answer) =
      (ltb_ℤ (pos 0) input.target_amount ≡ true)
      × (browser.is_valid_contract input.token_address ≡ true)
      × (is_valid_contract_symbol input.harvest_metadata ≡ true)
      × ((ms : ℤ) × (t : ℤ) × IsNow t
          × (input.deadline ≡ browser.seconds_of ms)
          × (ltb_ℤ t ms ≡ true))
  IsSound id (register_campaign input, answer) =
      (id ≡ some input.campaign_id)
      × (is_blank (trim input.title) ≡ false)
      × (is_blank (trim input.description) ≡ false)
  IsSound id (m, answer) = ⊥

  -- The ids of the campaigns that were created
  abbrev pub created_by : Mutation × Answer (Unit {0}) → List ℤ
  created_by (create_campaign input, resolved _) = input.campaign_id ∷ []
  created_by call = []

  abbrev pub created_ids : List (Mutation × Answer (Unit {0})) → List ℤ
  created_ids [] = []
  created_ids (call ∷ calls) = created_by call ++ created_ids calls

  abbrev pub listed_id : Option ℤ → List ℤ
  listed_id none = []
  listed_id (some id) = id ∷ []

  -- What holds of the page: the steps that lie behind are filled in; every call was sound; and the page
  -- has the id of the one campaign that was created, or none was.
  pub record IsSafe (p : Page) : Type 0 where
    pub passed : HasPassed p.step p.form
    pub sound : All (IsSound p.campaign_id) p.calls
    pub created : created_ids p.calls ≡ listed_id p.campaign_id

  pub All-snoc :
      (id : Option ℤ) (calls : List (Mutation × Answer (Unit {0})))
      (call : Mutation × Answer (Unit {0}))
      → All (IsSound id) calls
      → IsSound id call
      → All (IsSound id) (calls ++ call ∷ [])
  All-snoc id [] call h new = (new, tt)
  All-snoc id (c ∷ calls) call (h, hs) new = (h, All-snoc id calls call hs new)

  pub created_ids-snoc :
      (calls : List (Mutation × Answer (Unit {0}))) (call : Mutation × Answer (Unit {0}))
      → created_ids (calls ++ call ∷ []) ≡ created_ids calls ++ created_by call
  created_ids-snoc [] call = append-nil (created_by call)
  created_ids-snoc (c ∷ calls) call =
      ap (λ ids. created_by c ++ ids) (created_ids-snoc calls call)
      ∙ sym (append_assoc (created_by c) (created_ids calls) (created_by call))

  -- A page without an id has registered nothing, so that any id will do for its calls.
  pub IsSound-none :
      (id : Option ℤ) (call : Mutation × Answer (Unit {0})) → IsSound none call → IsSound id call
  IsSound-none id (create_campaign input, answer) h = h
  IsSound-none id (register_campaign input, answer) h = cc (h.0)
  IsSound-none id (fund_campaign a b c, answer) h = absurd h
  IsSound-none id (report_harvest a b c, answer) h = absurd h
  IsSound-none id (open_dispute a b c, answer) h = absurd h
  IsSound-none id (configure_tranches a b, answer) h = absurd h
  IsSound-none id (release_tranche a b c, answer) h = absurd h
  IsSound-none id (resolve_dispute a b c, answer) h = absurd h
  IsSound-none id (settle_campaign a b c, answer) h = absurd h
  IsSound-none id (mark_failed a, answer) h = absurd h
  IsSound-none id (claim_refund a b, answer) h = absurd h
  IsSound-none id (claim_return a b, answer) h = absurd h
  IsSound-none id (register_farmer a b c, answer) h = absurd h
