-- ===== src/Client/CreateCampaign.antt =====
-- pages/CreateCampaignPage.tsx: the steps of creating a campaign. A text field can be typed into on its
-- own step only, where it is rendered.
use agrocylo_pip.Prelude.{
  Bool, List, Option, String, [], false, if◌then◌else◌, ltb, none, not, some, suc, true, zero, ℕ,
  ◌&&◌, ◌*◌, ◌++◌, ◌+◌, ◌-◌, ◌==◌, ◌||◌, ◌∷◌,
}
use agrocylo_pip.Prelude.Int.{ltb_ℤ, pos, ℤ}
use agrocylo_pip.Prelude.BigInt.{big_int}
use agrocylo_pip.Prelude.Decimal.{parse_ℕ, print_ℤ}
use agrocylo_pip.Prelude.Text.{concat, is_blank, trim}
use agrocylo_pip.Client.Failures.{Failure, error, to_user_facing_error}
use agrocylo_pip.Client.ContractClient.{Answer, given, is_given, rejected, resolved}
use agrocylo_pip.Client.Mutations.{Mutation, create_campaign, register_campaign}
use agrocylo_pip.Client.Symbols.{contract_symbol_hint, is_valid_contract_symbol}

-- `StrKey.isValidContract`; `new Date(s).getTime()`, none where that is NaN; and `Math.floor(ms / 1000)`
pub record Browser : Type 0 where
  pub is_valid_contract : String → Bool
  pub date_ms : String → Option ℤ
  pub seconds_of : ℤ → ℤ

pub record FormState : Type 0 where
  pub title : String
  pub description : String
  pub harvest_metadata : String
  pub target_amount : String
  pub token_address : String
  pub deadline : String

abbrev pub initial_state : FormState
initial_state = record {
  title = "";
  description = "";
  harvest_metadata = "";
  target_amount = "";
  token_address = "";
  deadline = "";
}

pub data Field : Type 0 where
  title : Field
  description : Field
  harvest_metadata : Field
  target_amount : Field
  token_address : Field
  deadline : Field

-- `errors`, by field
abbrev pub Errors : Type 0
Errors = List (Field × String)

abbrev pub error_if : Bool → Field → String → Errors
error_if b f message = if b then (f, message) ∷ [] else []

abbrev pub metadata_errors : String → Errors
metadata_errors s =
    if is_blank s
    then (harvest_metadata, "Harvest metadata tag is required.") ∷ []
    else error_if (not (is_valid_contract_symbol s)) harvest_metadata contract_symbol_hint

-- `/^\d+$/.test(s) && BigInt(s) > 0n`
abbrev pub above_zero : Option ℕ → Bool
above_zero none = false
above_zero (some n) = ltb 0 n

-- `ms <= now`, which is false of NaN
abbrev pub is_past : Option ℤ → (now : ℤ) → Bool
is_past none now = false
is_past (some ms) now = not (ltb_ℤ now ms)

abbrev pub deadline_errors : (deadline : String) → Option ℤ → (now : ℤ) → Errors
deadline_errors s ms now =
    if is_blank s
    then (deadline, "Deadline is required.") ∷ []
    else error_if (is_past ms now) deadline "Deadline must be in the future."

module _ (browser : Browser) where
  unfoldable pub step_errors : (step : ℕ) → FormState → (now : ℤ) → Errors
  unfolding trim parse_ℕ is_valid_contract_symbol
  step_errors zero form now =
      error_if (is_blank (trim form.title)) title "Title is required."
      ++ error_if (is_blank (trim form.description)) description "Description is required."
      ++ metadata_errors form.harvest_metadata
  step_errors (suc zero) form now =
      error_if (not (above_zero (parse_ℕ form.target_amount))) target_amount
        "Enter a whole number greater than zero."
      ++ error_if
          (is_blank form.token_address || not (browser.is_valid_contract form.token_address))
          token_address "Enter a valid token contract address (C...)."
  step_errors (suc (suc zero)) form now =
      deadline_errors form.deadline (browser.date_ms form.deadline) now
  step_errors (suc (suc (suc n))) form now = []

-- The page's state, with what it has called and how the calls ended, the latest last
pub record Page : Type 0 where
  pub step : ℕ
  pub form : FormState
  pub touched : Bool
  pub campaign_id : Option ℤ
  pub flow_error : Option String
  pub calls : List (Mutation × Answer (Unit {0}))
  pub navigated : Option String

abbrev pub opened : Page
opened = record {
  step = 0;
  form = initial_state;
  touched = false;
  campaign_id = none;
  flow_error = none;
  calls = [];
  navigated = none;
}

abbrev pub step_of : Field → ℕ
step_of title = 0
step_of description = 0
step_of harvest_metadata = 0
step_of target_amount = 1
step_of token_address = 1
step_of deadline = 2

abbrev pub with_field : Field → String → FormState → FormState
with_field title s form = record form { title = s }
with_field description s form = record form { description = s }
with_field harvest_metadata s form = record form { harvest_metadata = s }
with_field target_amount s form = record form { target_amount = s }
with_field token_address s form = record form { token_address = s }
with_field deadline s form = record form { deadline = s }

-- `update`, by typing into a field that is rendered
unfoldable pub update : Field → String → Page → Page
update f s p = if step_of f == p.step then record p { form = with_field f s p.form } else p

abbrev pub has_none : Errors → Bool
has_none [] = true
has_none (e ∷ es) = false

abbrev pub next_step : ℕ → ℕ
next_step n = if ltb (n + 1) 3 then n + 1 else 3

unfoldable pub go_next : Browser → (now : ℤ) → Page → Page
unfolding step_errors
go_next browser now p =
    if has_none (step_errors browser p.step p.form now)
    then record p { touched = false; step = next_step p.step }
    else record p { touched = true }

-- `Math.max(s - 1, 0)`; on the last step the button is disabled once the campaign is created.
abbrev pub go_back_unless : Option ℤ → Page → Page
go_back_unless none p = record p { touched = false; step = p.step - 1 }
go_back_unless (some id) p = p

unfoldable pub go_back : Page → Page
go_back p = go_back_unless p.campaign_id p

abbrev pub failed_flow : Failure → Page → Page
failed_flow x p = record p { flow_error = some (to_user_facing_error x) }

abbrev pub registration : ℤ → (farmer : String) → FormState → Mutation
registration id farmer form = register_campaign (record {
  campaign_id = id;
  farmer = farmer;
  title = form.title;
  description = form.description;
})

abbrev pub after_register : ℤ → Answer (Unit {0}) → Page → Page
after_register id (resolved _) p = record p { navigated = some (concat "/campaigns/" (print_ℤ id)) }
after_register id (rejected x) p = failed_flow x p

-- The second call of `handleConfirm`
abbrev pub register : ℤ → (farmer : String) → Answer (Unit {0}) → Page → Page
register id farmer answer p =
    after_register id answer
      (record p { calls = p.calls ++ (registration id farmer p.form, answer) ∷ [] })

-- The first call; making its arguments throws where a number cannot be read.
abbrev pub creation_at :
    Browser → ℤ → (farmer : String) → FormState → Option ℤ → Option ℤ → Answer Mutation
creation_at browser id farmer form none ms =
    rejected (error (concat "Cannot convert " (concat form.target_amount " to a BigInt")))
creation_at browser id farmer form (some target) none =
    rejected (error "The number NaN cannot be converted to a BigInt because it is not an integer")
creation_at browser id farmer form (some target) (some ms) = resolved (
    create_campaign (record {
      campaign_id = id;
      farmer = farmer;
      target_amount = target;
      token_address = form.token_address;
      deadline = browser.seconds_of ms;
      harvest_metadata = form.harvest_metadata;
    }))

abbrev pub creation : Browser → ℤ → (farmer : String) → FormState → Answer Mutation
creation browser id farmer form =
    creation_at browser id farmer form (big_int form.target_amount) (browser.date_ms form.deadline)

abbrev pub after_create :
    ℤ → (farmer : String) → (created registered : Answer (Unit {0})) → Page → Page
after_create id farmer (rejected x) registered p = failed_flow x p
after_create id farmer (resolved _) registered p =
    register id farmer registered (record p { campaign_id = some id })

abbrev pub create :
    ℤ → (farmer : String) → (created registered : Answer (Unit {0})) → Answer Mutation → Page → Page
create id farmer created registered (rejected x) p = failed_flow x p
create id farmer created registered (resolved m) p =
    after_create id farmer created registered (record p { calls = p.calls ++ (m, created) ∷ [] })

abbrev pub create_or_register :
    Browser
    → Option ℤ
    → (new_id : ℤ) → (farmer : String) → (created registered : Answer (Unit {0})) → Page
    → Page
create_or_register browser (some id) new_id farmer created registered p =
    register id farmer registered p
create_or_register browser none new_id farmer created registered p =
    create new_id farmer created registered (creation browser new_id farmer p.form) p

-- `generateCampaignId` at a time and with a random number below 1000
abbrev pub generate_campaign_id : (now random : ℕ) → ℤ
generate_campaign_id now random = pos (now * 1000 + random)

-- `handleConfirm`, whose button is on the last step; `created` and `registered` are how its calls end,
-- if they are made.
unfoldable pub handle_confirm :
    Browser
    → (public_key : Option String) → (now random : ℕ) → (created registered : Answer (Unit {0}))
    → Page
    → Page
handle_confirm browser key now random created registered p =
    if p.step == 3 && is_given key
    then create_or_register browser p.campaign_id (generate_campaign_id now random) (given key)
        created registered (record p { flow_error = none })
    else p
