-- ===== src/Client/Mutate.antt =====
-- What a hook of hooks/contract does with its mutation: `mutationFn`, then `onSuccess` or `onError`,
-- with the toasts of mutationToasts.ts.
use agrocylo_pip.Prelude.{List, Option, String, [], map, ◌∷◌}
use agrocylo_pip.Client.Failures.{to_user_facing_error}
use agrocylo_pip.Client.ContractClient.{
  Answer, Arguments, Config, Sdk, State, get_client, invoke_contract_write, rejected, resolved,
}
use agrocylo_pip.Client.QueryKeys.{QueryKey}
use agrocylo_pip.Client.Mutations.{Mutation}
use agrocylo_pip.Client.Mutations.Hooks.{hook_of}

-- What a mutation does besides its call, in order: a toast of `useMutationToasts`, or
-- `invalidateQueries`
pub data Effect : Type 0 where
  toast_success : (title description : String) → Effect
  toast_error : (title description : String) → Effect
  invalidate : QueryKey → Effect

-- `onSuccess` and `onError`
unfoldable pub settled_effects : Mutation → Answer (Unit {0}) → List Effect
settled_effects m (resolved _) =
    toast_success (hook_of m).success_title (hook_of m).success_description
    ∷ map invalidate (hook_of m).invalidated
settled_effects m (rejected x) = toast_error (hook_of m).error_title (to_user_facing_error x) ∷ []

module _ (sdk : Sdk) (config : Config) where
  abbrev pub with_args :
      Answer sdk.Client × State sdk config
      → Answer Arguments
      → (method : String) → (public_key : Option String) → Answer (Unit {0}) × State sdk config
  with_args client (rejected x) method public_key = (rejected x, client.1)
  with_args client (resolved args) method public_key =
      invoke_contract_write sdk config client method args public_key

  -- `mutationFn`: the client is asked for, then the arguments are made.
  unfoldable pub mutation_fn :
      Mutation
      → (public_key : Option String) → State sdk config
      → Answer (Unit {0}) × State sdk config
  unfolding hook_of
  mutation_fn m public_key s =
      let client = get_client sdk config (hook_of m).contract s in
      with_args client (hook_of m).args (hook_of m).method public_key

  -- `mutateAsync` of the mutation's hook, with what it does besides
  unfoldable pub mutate_async :
      Mutation
      → (public_key : Option String) → State sdk config
      → Answer (Unit {0}) × State sdk config × List Effect
  unfolding mutation_fn settled_effects
  mutate_async m public_key s =
      let (r, s') = mutation_fn m public_key s in (r, s', settled_effects m r)
