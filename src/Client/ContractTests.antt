-- ===== src/Client/ContractTests.antt =====
-- A wallet that signs everything and a network that logs what it is asked, with mutations upon them.
use agrocylo_pip.Prelude.{List, Option, String, [], inl, none, refl, some, true, ◌∷◌, ◌≡◌}
use agrocylo_pip.Prelude.BigInt.{big_int}
use agrocylo_pip.Client.Failures.{
  describe_contract_error, error, full_error_text, known_failures, to_user_facing_error,
}
use agrocylo_pip.Client.FirstMatch.{Tells, to_user_facing_error_lem}
use agrocylo_pip.Client.ContractClient.{
  Answer, Config, Sdk, State, get_client, invoke_contract_write, rejected, resolved,
}
use agrocylo_pip.Client.Mutations.{Mutation, mark_failed, register_farmer}
use agrocylo_pip.Client.Mutations.Hooks.{hook_of}
use agrocylo_pip.Client.Mutate.{mutate_async}
use agrocylo_pip.Client.Sent.{WasSent, success_sent}
use agrocylo_pip.Client.MadeOnce.{IsCounted, counted, made_once, mutate_all}

-- The first fetch of an interface fails.
abbrev from_log : String → List String → Answer String × List String
from_log id [] = (rejected (error "Failed to fetch"), "offline" ∷ [])
from_log id (l ∷ ls) = (resolved id, "from" ∷ l ∷ ls)

abbrev logging : Sdk
logging = record {
  World = List String;
  Client = String;
  Assembled = String;
  from = λ id url w. from_log id w;
  has_method = λ c method. true;
  call = λ c method args key w. (resolved method, method ∷ w);
  sign_and_send = λ tx w. (resolved tt, "sent" ∷ w);
}

abbrev testnet : Config
testnet = record {
  rpc_url = some "https://rpc";
  escrow_contract_id = some "CESCROW";
  registry_contract_id = some "CREGISTRY";
}

abbrev online : State logging testnet
online = (record { escrow_client = none; registry_client = none }, "online" ∷ [])

success_sent_example :
    WasSent logging testnet
      (mark_failed "7")
      (some "GADMIN")
      online
      (mutate_async logging testnet (mark_failed "7") (some "GADMIN") online).1.1
unfolding mutate_async big_int invoke_contract_write get_client hook_of
success_sent_example =
    success_sent logging testnet (mark_failed "7") (some "GADMIN") online "Campaign marked failed"
      "Campaign #7 marked as failed." (inl refl)

-- The interface is fetched once for two calls.
two_calls :
    (mutate_all logging testnet
      ((mark_failed "7", some "GADMIN") ∷ (mark_failed "8", some "GADMIN") ∷ [])
      online).1
    ≡ "sent" ∷ "mark_failed" ∷ "sent" ∷ "mark_failed" ∷ "from" ∷ "online" ∷ []
unfolding mutate_async big_int invoke_contract_write get_client hook_of
two_calls = refl

abbrev offline : State (counted logging) testnet
offline = (record { escrow_client = none; registry_client = none }, ([], 0))

-- Offline at first, with no wallet for the third
abbrev attempts : List (Mutation × Option String)
attempts =
    (mark_failed "7", some "GADMIN")
    ∷ (mark_failed "7", some "GADMIN")
    ∷ (register_farmer "GFARMER" "Ama" "Accra", none)
    ∷ (mark_failed "8", some "GADMIN")
    ∷ []

made_once_example :
    IsCounted logging testnet (mutate_all (counted logging) testnet attempts offline)
made_once_example = made_once logging testnet attempts offline refl

to_user_facing_error_lem_example :
    Tells known_failures
      (full_error_text (error "HostError: Error(WasmVm): Already Registered"))
      (describe_contract_error (error "HostError: Error(WasmVm): Already Registered"))
      (to_user_facing_error (error "HostError: Error(WasmVm): Already Registered"))
to_user_facing_error_lem_example =
    to_user_facing_error_lem (error "HostError: Error(WasmVm): Already Registered")

-- A failure that no entry knows
unknown_failure : to_user_facing_error (error "boom") ≡ "boom"
unfolding to_user_facing_error
unknown_failure = refl
