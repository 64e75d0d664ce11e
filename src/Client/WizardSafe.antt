-- ===== src/Client/WizardSafe.antt =====
-- Every action keeps the page safe: at most one campaign is created, and its form was checked.
use agrocylo_pip.Client.Failures.{Failure}
use agrocylo_pip.Client.ContractClient.{Answer, given, is_given, rejected, resolved}
use mathlib.Core.List.{append-nil}
use mathlib.Core.Option.{some-injective}
use agrocylo_pip.Prelude.{
  ==_iff, All, Bool-cases, IsListed, List, Option, String, [], ap, arith, false, inl, inr, none,
  refl, some, sym, true, ℕ, ◌&&◌, ◌++◌, ◌==◌, ◌∙◌, ◌∷◌, ◌≡◌,
}
use agrocylo_pip.Prelude.Int.{ltb_ℤ, pos, ℤ}
use agrocylo_pip.Client.CreateCampaign.{
  opened, Browser, Field, FormState, Page, above_zero, after_register, create, create_or_register,
  creation_at, failed_flow, generate_campaign_id, go_back, go_back_unless, go_next, handle_confirm,
  has_none, is_past, register, registration, step_errors, step_of, update,
}
use agrocylo_pip.Client.Mutations.{Mutation}
use agrocylo_pip.Prelude.Text.{has}
use agrocylo_pip.Prelude.Decimal.{parse_ℕ}
use agrocylo_pip.Prelude.BigInt.{big_int}
use agrocylo_pip.Prelude.Digits.{big_int-parse_ℕ}
use agrocylo_pip.Client.Wizard.{
  Action, All-snoc, HasDeadline, HasDetails, HasFunding, HasPassed-back, HasPassed-next,
  HasPassed-typed, IsSafe, IsSound, IsSound-none, act, act_all, back, confirm, created_by,
  created_ids, created_ids-snoc, listed_id, next, times, types,
}

module _ (browser : Browser) (IsNow : ℤ → Type 0) where
  opened-IsSafe : IsSafe browser IsNow opened
  opened-IsSafe = record { passed = tt; sound = tt; created = refl }

  update-IsSafe :
      (f : Field) (s : String) (p : Page)
      → IsSafe browser IsNow p
      → IsSafe browser IsNow (update f s p)
  unfolding update
  update-IsSafe f s p h = elim (Bool-cases (step_of f == p.step)) [
    | inr elsewhere ↦ rw elsewhere h
    | inl here ↦ rw here (record {
      passed =
          HasPassed-typed browser IsNow f s p.step p.form ((==_iff (step_of f) p.step).0 here)
            h.passed;
      sound = h.sound;
      created = h.created;
    })
  ]

  go_next-IsSafe :
      (now : ℤ) (p : Page)
      → IsNow now
      → IsSafe browser IsNow p
      → IsSafe browser IsNow (go_next browser now p)
  unfolding go_next
  go_next-IsSafe now p at h = elim (Bool-cases (has_none (step_errors browser p.step p.form now))) [
    | inr some_ ↦ rw some_ (record { passed = h.passed; sound = h.sound; created = h.created })
    | inl none_ ↦ rw none_ (record {
      passed = HasPassed-next browser IsNow p.step p.form now none_ at h.passed;
      sound = h.sound;
      created = h.created;
    })
  ]

  go_back_unless-IsSafe :
      (o : Option ℤ) (p : Page) → IsSafe browser IsNow p → IsSafe browser IsNow (go_back_unless o p)
  go_back_unless-IsSafe (some id) p h = h
  go_back_unless-IsSafe none p h = record {
    passed = HasPassed-back browser IsNow p.step p.form h.passed;
    sound = h.sound;
    created = h.created;
  }

  -- On the last step the form has passed every check.
  abbrev HasAll : FormState → Type 0
  HasAll form =
      HasDetails browser IsNow form × HasFunding browser IsNow form × HasDeadline browser IsNow form

  after_register-IsSafe :
      (id : ℤ) (answer : Answer (Unit {0})) (p : Page)
      → IsSafe browser IsNow p
      → IsSafe browser IsNow (after_register id answer p)
  after_register-IsSafe id (resolved _) p h = record {
    passed = h.passed;
    sound = h.sound;
    created = h.created;
  }
  after_register-IsSafe id (rejected x) p h = record {
    passed = h.passed;
    sound = h.sound;
    created = h.created;
  }

  register-IsSafe :
      (id : ℤ) (farmer : String) (answer : Answer (Unit {0})) (p : Page)
      → p.campaign_id ≡ some id
      → HasAll p.form
      → IsSafe browser IsNow p
      → IsSafe browser IsNow (register id farmer answer p)
  register-IsSafe id farmer answer p e (details, _, _) h =
      let call : Mutation × Answer (Unit {0}) = (registration id farmer p.form, answer) in
      after_register-IsSafe id answer _ (record {
        passed = h.passed;
        sound = All-snoc browser IsNow p.campaign_id p.calls call h.sound (e, details.0, details.1);
        created =
            created_ids-snoc browser IsNow p.calls call
            ∙ append-nil (created_ids browser IsNow p.calls)
            ∙ h.created;
      })

  failed_flow-IsSafe :
      (x : Failure) (p : Page) → IsSafe browser IsNow p → IsSafe browser IsNow (failed_flow x p)
  failed_flow-IsSafe x p h = record { passed = h.passed; sound = h.sound; created = h.created }

  -- What the form says of its target and of its deadline, as they are sent
  above_zero_lem :
      (o : Option ℕ) (s : String) (target : ℤ)
      → parse_ℕ s ≡ o
      → above_zero o ≡ true
      → big_int s ≡ some target
      → ltb_ℤ (pos 0) target ≡ true
  above_zero_lem none s target e above sent = cc above
  above_zero_lem (some n) s target e above sent =
      rw (some-injective _ _ (sym sent ∙ big_int-parse_ℕ s n e)) (ground arith)

  is_past_lem :
      (o : Option ℤ) (now ms : ℤ) → is_past o now ≡ false → o ≡ some ms → ltb_ℤ now ms ≡ true
  is_past_lem none now ms ahead e = cc e
  is_past_lem (some d) now ms ahead e = rw (← some-injective _ _ e) (ground arith)

  IsSound-for :
      (id : Option ℤ) (calls : List (Mutation × Answer (Unit {0})))
      → All (IsSound browser IsNow none) calls
      → All (IsSound browser IsNow id) calls
  IsSound-for id [] h = tt
  IsSound-for id (c ∷ calls) (h, hs) = (IsSound-none browser IsNow id c h, IsSound-for id calls hs)

  after_create-IsSafe :
      (id : ℤ) (farmer : String) (created registered : Answer (Unit {0})) (p : Page) (m : Mutation)
      → p.campaign_id ≡ none
      → HasAll p.form
      → ((o : Option ℤ) (answer : Answer (Unit {0})) → IsSound browser IsNow o (m, answer))
      → ((answer : Unit {0}) → created_by browser IsNow (m, resolved answer) ≡ id ∷ [])
      → ((x : Failure) → created_by browser IsNow (m, rejected x) ≡ [])
      → IsSafe browser IsNow p
      → IsSafe browser IsNow (create id farmer created registered (resolved m) p)
  after_create-IsSafe id farmer (rejected x) registered p m fresh has is_sound made not_made h =
      failed_flow-IsSafe x (record p { calls = p.calls ++ (m, rejected x) ∷ [] })
        (record {
          passed = h.passed;
          sound =
              All-snoc browser IsNow p.campaign_id p.calls (m, rejected x) h.sound
                (is_sound p.campaign_id (rejected x));
          created =
              created_ids-snoc browser IsNow p.calls (m, rejected x)
              ∙ ap (λ ids. created_ids browser IsNow p.calls ++ ids) (not_made x)
              ∙ append-nil (created_ids browser IsNow p.calls)
              ∙ h.created;
        })
  after_create-IsSafe id farmer (resolved u) registered p m fresh has is_sound made not_made h =
      register-IsSafe id farmer registered
        (record p { campaign_id = some id; calls = p.calls ++ (m, resolved u) ∷ [] }) refl has
        (record {
          passed = h.passed;
          sound =
              All-snoc browser IsNow (some id) p.calls (m, resolved u)
                (IsSound-for (some id) p.calls (rw fresh at h.sound))
                (is_sound (some id) (resolved u));
          created =
              created_ids-snoc browser IsNow p.calls (m, resolved u)
              ∙ ap (λ ids. created_ids browser IsNow p.calls ++ ids) (made u)
              ∙ ap (λ ids. ids ++ id ∷ []) (h.created ∙ ap (listed_id browser IsNow) fresh);
        })

  create-IsSafe :
      (id : ℤ) (farmer : String) (created registered : Answer (Unit {0})) (target ms : Option ℤ)
      (p : Page)
      → big_int p.form.target_amount ≡ target
      → browser.date_ms p.form.deadline ≡ ms
      → p.campaign_id ≡ none
      → HasAll p.form
      → IsSafe browser IsNow p
      → IsSafe browser IsNow
          (create id farmer created registered (creation_at browser id farmer p.form target ms) p)
  create-IsSafe id farmer created registered none ms p e d fresh has h = failed_flow-IsSafe _ p h
  create-IsSafe id farmer created registered (some target) none p e d fresh has h =
      failed_flow-IsSafe _ p h
  create-IsSafe id farmer created registered (some target) (some ms) p e d fresh has h =
      let (details, funding, (t, at, ahead)) = has in
      after_create-IsSafe id farmer created registered p _ fresh has
        (λ o answer. (
          above_zero_lem _ p.form.target_amount target refl funding.0 e,
          funding.1,
          details.2,
          (ms, t, at, refl, is_past_lem _ t ms ahead d),
        ))
        (λ u. refl) (λ x. refl) h

  create_or_register-IsSafe :
      (o : Option ℤ) (new_id : ℤ) (farmer : String) (created registered : Answer (Unit {0}))
      (p : Page)
      → p.campaign_id ≡ o
      → HasAll p.form
      → IsSafe browser IsNow p
      → IsSafe browser IsNow (create_or_register browser o new_id farmer created registered p)
  create_or_register-IsSafe (some id) new_id farmer created registered p e has h =
      register-IsSafe id farmer registered p e has h
  create_or_register-IsSafe none new_id farmer created registered p e has h =
      create-IsSafe new_id farmer created registered _ _ p refl refl e has h

  handle_confirm-IsSafe :
      (key : Option String) (now random : ℕ) (created registered : Answer (Unit {0})) (p : Page)
      → IsSafe browser IsNow p
      → IsSafe browser IsNow (handle_confirm browser key now random created registered p)
  unfolding handle_confirm
  handle_confirm-IsSafe key now random created registered p h =
      elim (Bool-cases (p.step == 3 && is_given key)) [
        | inr idle ↦ rw idle h
        | inl ready ↦
            let last : p.step ≡ 3 = ground arith in
            let has : HasAll p.form = rw last at h.passed in
            rw ready (
              create_or_register-IsSafe p.campaign_id (generate_campaign_id now random) (given key)
                created registered (record p { flow_error = none }) refl has
                (record { passed = h.passed; sound = h.sound; created = h.created }))
      ]

  act-IsSafe :
      (a : Action) (p : Page)
      → All IsNow (times (a ∷ []))
      → IsSafe browser IsNow p
      → IsSafe browser IsNow (act browser a p)
  unfolding go_back
  act-IsSafe (types f s) p at h = update-IsSafe f s p h
  act-IsSafe (next now) p at h = go_next-IsSafe now p at.0 h
  act-IsSafe back p at h = go_back_unless-IsSafe p.campaign_id p h
  act-IsSafe (confirm key now random created registered) p at h =
      handle_confirm-IsSafe key now random created registered p h

  All-times :
      (a : Action) (actions : List Action)
      → All IsNow (times (a ∷ actions))
      → All IsNow (times (a ∷ [])) × All IsNow (times actions)
  All-times (types f s) actions at = (tt, at)
  All-times (next now) actions at = ((at.0, tt), at.1)
  All-times back actions at = (tt, at)
  All-times (confirm key now random created registered) actions at = (tt, at)

  act_all-IsSafe :
      (actions : List Action) (p : Page)
      → All IsNow (times actions)
      → IsSafe browser IsNow p
      → IsSafe browser IsNow (act_all browser actions p)
  act_all-IsSafe [] p at h = h
  act_all-IsSafe (a ∷ actions) p at h =
      let (first, later) = All-times a actions at in
      act_all-IsSafe actions (act browser a p) later (act-IsSafe a p first h)

All-listed : (P : ℤ → Type 0) (zs : List ℤ) → ((z : ℤ) → IsListed z zs → P z) → All P zs
All-listed P [] f = tt
All-listed P (z ∷ zs) f = (f z (inl refl), All-listed P zs (λ y l. f y (inr l)))

-- After any actions on the page for creating a campaign, its calls ending in any way: the steps
-- that lie behind are filled in, the last with a deadline that lay in the future at a time when the
-- user went on to the next step, or that is no date; every creation had a target above zero, a
-- token's address, a symbol for its metadata, and a deadline that lay in the future at such a time,
-- and every registration a title and a description and the page's id; and the page has the id of
-- the one campaign that was created, or none was.
pub page-IsSafe :
    (browser : Browser) (actions : List Action)
    → IsSafe browser (λ t. IsListed t (times actions)) (act_all browser actions opened)
page-IsSafe browser actions =
    act_all-IsSafe browser (λ t. IsListed t (times actions)) actions opened
      (All-listed (λ t. IsListed t (times actions)) (times actions) (λ t l. l))
      (opened-IsSafe browser (λ t. IsListed t (times actions)))
