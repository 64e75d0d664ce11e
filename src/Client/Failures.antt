-- ===== src/Client/Failures.antt =====
-- lib/soroban/userFacingError.ts and describeContractError of lib/soroban/contractClient.ts: what the
-- user is told of a failure.
use Prim.Native.Char.{code}
use agrocylo_pip.Prelude.{
  Bool, List, Option, String, [], false, if◌then◌else◌, leb, none, some, true, ℕ, ◌&&◌, ◌+◌, ◌==◌,
  ◌∷◌,
}
use agrocylo_pip.Prelude.Text.{split}

-- What was thrown: an `Error`, another object with a text as its `message`, or any other value by its
-- text, which is `String(err ?? '')`
pub data Failure : Type 0 where
  error : String → Failure
  message_object : String → Failure
  other : String → Failure

-- A regular expression of the table: texts, one of which occurs, in letters of either case
pub record KnownFailure : Type 0 where
  pub match : List String
  pub message : String

abbrev known : List String → String → KnownFailure
known match message = record { match = match; message = message }

unfoldable pub known_failures : List KnownFailure
known_failures =
    known ("connect your wallet" ∷ []) "Connect your wallet to continue."
    ∷ known ("not configured" ∷ [])
        "Soroban RPC or contract IDs are not configured. Check your environment variables."
    ∷ known ("campaign already exists" ∷ []) "A campaign with this ID already exists."
    ∷ known ("campaign already registered" ∷ []) "This campaign is already registered."
    ∷ known ("farmer already registered" ∷ []) "This farmer is already registered."
    ∷ known ("target amount must be greater than zero" ∷ [])
        "Target amount must be greater than zero."
    ∷ known ("amount must be positive" ∷ []) "Amount must be greater than zero."
    ∷ known ("campaign not accepting contributions" ∷ [])
        "This campaign is not currently accepting contributions."
    ∷ known ("contribution exceeds remaining target" ∷ [])
        "Contribution exceeds the remaining funding target."
    ∷ known ("campaign target not reached" ∷ [])
        "The campaign funding target has not been reached yet."
    ∷ known ("can only configure tranches for a funded campaign" ∷ [])
        "Tranches can only be configured after a campaign is funded."
    ∷ known ("total tranche amounts exceed funded amount" ∷ [])
        "Total tranche amounts exceed the funded amount."
    ∷ known ("amount exceeds escrow balance" ∷ []) "Amount exceeds the escrow balance still held."
    ∷ known ("cannot release tranche: campaign is in a terminal state" ∷ [])
        "Cannot release a tranche for a campaign in a terminal state."
    ∷ known ("campaign not funded or in production" ∷ [])
        "Campaign must be funded or in production for this action."
    ∷ known ("not authorized to report harvest" ∷ [])
        "Only the campaign farmer can report a harvest."
    ∷ known ("campaign not disputable" ∷ [])
        "This campaign cannot be disputed in its current state."
    ∷ known ("not authorized to open dispute" ∷ [])
        "You are not authorized to open a dispute on this campaign."
    ∷ known ("campaign not disputed" ∷ []) "This campaign is not currently in dispute."
    ∷ known ("dispute already resolved" ∷ []) "This dispute has already been resolved."
    ∷ known ("invalid partial settlement amount" ∷ [])
        "Partial settlement amount is invalid for the held escrow balance."
    ∷ known ("no refund available" ∷ "nothing to refund" ∷ [])
        "No refund is available for this contribution."
    ∷ known ("campaign is disputed" ∷ []) "This action is blocked while the campaign is disputed."
    ∷ known ("campaign not harvested" ∷ []) "Campaign must be harvested before it can be settled."
    ∷ known ("payout exceeds escrow balance" ∷ []) "Payout exceeds the escrow balance still held."
    ∷ known ("campaign cannot be marked failed" ∷ [])
        "This campaign cannot be marked failed in its current state."
    ∷ known ("campaign not settled" ∷ []) "Campaign must be settled before returns can be claimed."
    ∷ known ("nothing to return" ∷ []) "No return payout is available for this contribution."
    ∷ known ("unauthorized" ∷ []) "You are not authorized to perform this action."
    ∷ known ("user declined" ∷ "rejected" ∷ "denied" ∷ "cancelled" ∷ "canceled" ∷ [])
        "Wallet signature was cancelled."
    ∷ known ("network" ∷ "rpc" ∷ "fetch failed" ∷ "failed to fetch" ∷ "timeout" ∷ [])
        "Network request failed. Check your connection and try again."
    ∷ []

abbrev pub lower : ℕ → ℕ
lower c = if leb b'A' c && leb c b'Z' then c + 32 else c

-- Whether a text begins with another, in letters of either case
unfoldable pub begins : String → String → Bool
begins String.[] s = true
begins (String.◌∷◌ c p) String.[] = false
begins (String.◌∷◌ c p) (String.◌∷◌ d s) =
    let rest = begins p s in if lower (code c) == lower (code d) then rest else false

unfoldable pub occurs : String → String → Bool
unfolding begins
occurs p String.[] = begins p String.[]
occurs p (String.◌∷◌ c s) =
    let rest = occurs p s in if begins p (String.◌∷◌ c s) then true else rest

-- `match.test(text)`
unfoldable pub test : List String → String → Bool
unfolding occurs
test [] text = false
test (p ∷ ps) text = let rest = test ps text in if occurs p text then true else rest

abbrev pub full_error_text : Failure → String
full_error_text (error m) = m
full_error_text (message_object m) = m
full_error_text (other s) = s

abbrev pub first_line : String → String
first_line s = elim (split 10 s) [ [] ↦ "" | line ∷ _ ↦ line ]

unfoldable pub describe_contract_error : Failure → String
unfolding split
describe_contract_error (error m) = first_line m
describe_contract_error (message_object m) = first_line m
describe_contract_error (other s) =
    "An unknown error occurred while talking to the Soroban network."

-- `for (const { match, message } of KNOWN_FAILURES)`
unfoldable pub first_known : List KnownFailure → String → Option String
unfolding test
first_known [] text = none
first_known (k ∷ ks) text =
    let rest = first_known ks text in if test k.match text then some k.message else rest

abbrev pub or_else : Option String → String → String
or_else none s = s
or_else (some m) s = m

unfoldable pub to_user_facing_error : Failure → String
unfolding first_known known_failures describe_contract_error
to_user_facing_error err =
    or_else (first_known known_failures (full_error_text err)) (describe_contract_error err)
