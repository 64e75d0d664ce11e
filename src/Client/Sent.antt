-- ===== src/Client/Sent.antt =====
-- What is known of the contract when a hook reports success.
use mathlib.Core.Path.{subst}
use agrocylo_pip.Prelude.{
  Bool-cases, IsListed, Option, String, ap, inl, inr, none, refl, some, sym, true, ◌&&◌, ◌≡◌, ◌⊎◌,
}
use agrocylo_pip.Client.Mutate.{
  mutate_async, mutation_fn, settled_effects, toast_success, with_args,
}
use agrocylo_pip.Client.ContractClient.{
  Answer, Arguments, Clients, Config, Contract, Sdk, State, call_method, client_of, client_or_new,
  contract_id_of, escrow, get_client, given, invoke_contract_write, is_configured, is_given,
  keep_client, registry, rejected, resolved, send,
}
use agrocylo_pip.Client.Mutations.{Mutation}
use agrocylo_pip.Client.Mutations.Hooks.{hook_of}
use agrocylo_pip.Client.Signatures.{contract_for, function_of, hook_of-function, parameters_of}

module _ (sdk : Sdk) (config : Config) where
  open sdk use {World, Client, Assembled}

  -- The ids of the contracts in the configuration, and the clients that were got before
  abbrev pub id_for : Contract → Option String
  id_for escrow = config.escrow_contract_id
  id_for registry = config.registry_contract_id

  abbrev pub kept_for : Contract → Clients Client → Option Client
  kept_for escrow cs = cs.escrow_client
  kept_for registry cs = cs.registry_client

  -- The contract is configured, and the client is the one that was kept for it, or is made of its id.
  abbrev pub IsClientOf : Contract → State sdk config → Client → Type 0
  IsClientOf k s c =
      (is_given config.rpc_url && is_given (id_for k) ≡ true)
      × ((kept_for k s.0 ≡ some c)
          ⊎ ((w : World) × (sdk.from (given (id_for k)) (given config.rpc_url) s.1
                ≡ (resolved c, w))))

  -- A transaction that calls the mutation's function with its parameters was made for the wallet's key
  -- by a client of its contract, and signed and sent.
  pub record WasSent (m : Mutation) (public_key : Option String) (s : State sdk config)
      (after : World) : Type 0 where
    pub client : Client
    pub args : Arguments
    pub transaction : Assembled
    pub before : World
    pub made : World
    pub of_contract : IsClientOf (contract_for m) s client
    pub connected : is_given public_key ≡ true
    pub arguments : parameters_of m ≡ some args
    pub available : sdk.has_method client (function_of m) ≡ true
    pub called :
        sdk.call client (function_of m) args (given public_key) before
        ≡ (resolved transaction, made)
    pub sent : sdk.sign_and_send transaction made ≡ (resolved tt, after)

  send_lem :
      (cs : Clients Client) (a : Answer Assembled) (w : World)
      → (send sdk config cs (a, w)).0 ≡ resolved tt
      → (tx : Assembled) × (a ≡ resolved tx)
        × (sdk.sign_and_send tx w ≡ (resolved tt, (send sdk config cs (a, w)).1.1))
  send_lem cs (rejected x) w h = cc
  send_lem cs (resolved tx) w h = (tx, refl, ap (λ r. (r, (sdk.sign_and_send tx w).1)) h)

  call_method_lem :
      (m : Mutation) (args : Arguments) (key : Option String) (c : Client) (s s' : State sdk config)
      → IsClientOf (contract_for m) s c
      → is_given key ≡ true
      → parameters_of m ≡ some args
      → (call_method sdk config (function_of m) args (given key) (resolved c, s')).0 ≡ resolved tt
      → WasSent m key s
          (call_method sdk config (function_of m) args (given key) (resolved c, s')).1.1
  call_method_lem m args key c s s' of_contract connected arguments =
      elim (Bool-cases (sdk.has_method c (function_of m))) [
        | inr missing ↦ rw missing (λ h. cc h)
        | inl available ↦ rw available (λ h.
            let answer = sdk.call c (function_of m) args (given key) s'.1 in
            let (tx, made_, sent_) = send_lem s'.0 answer.0 answer.1 h in
            record {
              client = c;
              args = args;
              transaction = tx;
              before = s'.1;
              made = answer.1;
              of_contract = of_contract;
              connected = connected;
              arguments = arguments;
              available = available;
              called = ap (λ a. (a, answer.1)) made_;
              sent = sent_;
            })
      ]

  invoke_lem :
      (m : Mutation) (args : Arguments) (key : Option String) (s : State sdk config)
      (client : Answer Client × State sdk config)
      → ((c : Client) → client.0 ≡ resolved c → IsClientOf (contract_for m) s c)
      → parameters_of m ≡ some args
      → (invoke_contract_write sdk config client (function_of m) args key).0 ≡ resolved tt
      → WasSent m key s (invoke_contract_write sdk config client (function_of m) args key).1.1
  unfolding invoke_contract_write
  invoke_lem m args key s (rejected x, s') of_contract arguments =
      elim (Bool-cases (is_given key)) [
        | inl yes_ ↦ rw yes_ (λ h. cc h)
        | inr no_ ↦ rw no_ (λ h. cc h)
      ]
  invoke_lem m args key s (resolved c, s') of_contract arguments =
      elim (Bool-cases (is_given key)) [
        | inr no_ ↦ rw no_ (λ h. cc h)
        | inl connected ↦
            rw connected
              (call_method_lem m args key c s s' (of_contract c refl) connected arguments)
      ]

  with_args_lem :
      (m : Mutation) (key : Option String) (s : State sdk config)
      (client : Answer Client × State sdk config) (a : Answer Arguments)
      → ((c : Client) → client.0 ≡ resolved c → IsClientOf (contract_for m) s c)
      → ((args : Arguments) → a ≡ resolved args → parameters_of m ≡ some args)
      → (with_args sdk config client a (function_of m) key).0 ≡ resolved tt
      → WasSent m key s (with_args sdk config client a (function_of m) key).1.1
  with_args_lem m key s client (rejected x) of_contract arguments h = cc h
  with_args_lem m key s client (resolved args) of_contract arguments h =
      invoke_lem m args key s client of_contract (arguments args refl) h

  keep_client_lem :
      (k : Contract) (cs : Clients Client) (r : Answer Client × World) (c : Client)
      → (keep_client sdk config k cs r).0 ≡ resolved c
      → r ≡ (resolved c, r.1)
  keep_client_lem k cs (rejected x, w) c h = cc h
  keep_client_lem k cs (resolved d, w) c h = ap (λ a. (a, w)) h

  client_or_new_lem :
      (k : Contract) (o : Option Client) (s : State sdk config) (c : Client)
      → (client_or_new sdk config k o s).0 ≡ resolved c
      → (o ≡ some c)
        ⊎ ((w : World) × (sdk.from (given (contract_id_of config k)) (given config.rpc_url) s.1
              ≡ (resolved c, w)))
  client_or_new_lem k none s c h =
      let answer = sdk.from (given (contract_id_of config k)) (given config.rpc_url) s.1 in
      inr (answer.1, keep_client_lem k s.0 answer c h)
  client_or_new_lem k (some d) s c h = inl (ap (client_in none) h)
    where
      client_in : Option Client → Answer Client → Option Client
      client_in o (resolved x) = some x
      client_in o (rejected x) = o

  get_client_lem :
      (k : Contract) (s : State sdk config) (c : Client)
      → (get_client sdk config k s).0 ≡ resolved c
      → (is_configured config k ≡ true)
        × ((client_of sdk config k s.0 ≡ some c)
            ⊎ ((w : World) × (sdk.from (given (contract_id_of config k)) (given config.rpc_url) s.1
                  ≡ (resolved c, w))))
  unfolding get_client
  get_client_lem k s c = elim (Bool-cases (is_configured config k)) [
    | inl configured ↦
        rw configured (λ h. (refl, client_or_new_lem k (client_of sdk config k s.0) s c h))
    | inr missing ↦ rw missing (λ h. cc h)
  ]

  get_client-IsClientOf :
      (k : Contract) (s : State sdk config) (c : Client)
      → (get_client sdk config k s).0 ≡ resolved c
      → IsClientOf k s c
  get_client-IsClientOf escrow s c h = get_client_lem escrow s c h
  get_client-IsClientOf registry s c h = get_client_lem registry s c h

  settled-toast :
      (m : Mutation) (r : Answer (Unit {0})) (title description : String)
      → IsListed (toast_success title description) (settled_effects m r)
      → r ≡ resolved tt
  unfolding settled_effects
  settled-toast m (resolved _) title description l = refl
  settled-toast m (rejected x) title description (inl e) = cc e
  settled-toast m (rejected x) title description (inr l) = absurd l

  -- Where a hook tells of a success, the mutation's contract is configured and the wallet
  -- connected, and a transaction that calls the mutation's function, as the contract declares it,
  -- with its parameters by their names was made for the wallet's key by a client that was kept for
  -- this contract or is made of its id, and then signed and sent.
  pub success_sent :
      (m : Mutation) (key : Option String) (s : State sdk config) (title description : String)
      → IsListed (toast_success title description) (mutate_async sdk config m key s).2
      → WasSent m key s (mutate_async sdk config m key s).1.1
  unfolding mutate_async mutation_fn
  success_sent m key s title description listed =
      let (contract, method, parameters) = hook_of-function m in
      subst
        (λ k.
          (with_args sdk config (get_client sdk config k s) (hook_of m).args (hook_of m).method
              key).0
            ≡ resolved tt
          → WasSent m key s
              (with_args sdk config (get_client sdk config k s) (hook_of m).args (hook_of m).method
                key).1.1)
        (sym contract)
        (subst
          (λ f.
            (with_args sdk config (get_client sdk config (contract_for m) s) (hook_of m).args f
                key).0
              ≡ resolved tt
            → WasSent m key s
                (with_args sdk config (get_client sdk config (contract_for m) s) (hook_of m).args f
                  key).1.1)
          (sym method)
          (with_args_lem m key s (get_client sdk config (contract_for m) s) (hook_of m).args
            (get_client-IsClientOf (contract_for m) s) parameters))
        (settled-toast m _ title description listed)
