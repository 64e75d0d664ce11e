-- ===== src/Client/MadeOnce.antt =====
-- The clients of the contracts are fetched once each.
use agrocylo_pip.Prelude.{
  Bool-cases, List, Option, String, [], arith, inl, inr, none, refl, some, ℕ, ◌+◌, ◌∷◌, ◌≡◌,
}
use agrocylo_pip.Client.ContractClient.{
  Answer, Arguments, Clients, Config, Contract, Sdk, State, call_method, client_of, client_or_new,
  contract_id_of, escrow, get_client, given, invoke_contract_write, is_configured, is_given,
  keep_client, registry, rejected, resolved, send,
}
use agrocylo_pip.Client.Mutations.{Mutation}
use agrocylo_pip.Client.Mutations.Hooks.{hook_of}
use agrocylo_pip.Client.Mutate.{mutate_async, mutation_fn, with_args}

abbrev one_if_resolved : {A : Type 0} → Answer A → ℕ
one_if_resolved (resolved a) = 1
one_if_resolved (rejected x) = 0

abbrev one_if_some : {A : Type 0} → Option A → ℕ
one_if_some none = 0
one_if_some (some a) = 1

-- The same SDK with a count of the clients that it made
abbrev pub counted : Sdk → Sdk
counted sdk = record {
  World = sdk.World × ℕ;
  Client = sdk.Client;
  Assembled = sdk.Assembled;
  from = λ id url w. let a = sdk.from id url w.0 in (a.0, (a.1, w.1 + one_if_resolved a.0));
  has_method = sdk.has_method;
  call = λ c method args key w. let a = sdk.call c method args key w.0 in (a.0, (a.1, w.1));
  sign_and_send = λ tx w. let a = sdk.sign_and_send tx w.0 in (a.0, (a.1, w.1));
}

module _ (sdk : Sdk) (config : Config) where
  -- Mutations one after another, each with the key of the wallet
  abbrev pub mutate_all : List (Mutation × Option String) → State sdk config → State sdk config
  mutate_all [] s = s
  mutate_all ((m, key) ∷ ms) s = mutate_all ms (mutate_async sdk config m key s).1

module _ (sdk : Sdk) (config : Config) where
  abbrev Counts : Type 0
  Counts = State (counted sdk) config

  -- The count is that of the clients that are kept.
  abbrev pub IsCounted : Counts → Type 0
  IsCounted (cs, w) = w.1 ≡ one_if_some cs.escrow_client + one_if_some cs.registry_client

  keep_client-IsCounted :
      (k : Contract) (cs : Clients sdk.Client) (a : Answer sdk.Client) (w : sdk.World) (n : ℕ)
      → client_of (counted sdk) config k cs ≡ none
      → n ≡ one_if_some cs.escrow_client + one_if_some cs.registry_client
      → IsCounted (keep_client (counted sdk) config k cs (a, (w, n + one_if_resolved a))).1
  keep_client-IsCounted escrow cs (resolved c) w n missing h = ground arith
  keep_client-IsCounted registry cs (resolved c) w n missing h = ground arith
  keep_client-IsCounted escrow cs (rejected x) w n missing h = ground arith
  keep_client-IsCounted registry cs (rejected x) w n missing h = ground arith

  client_or_new-IsCounted :
      (k : Contract) (o : Option sdk.Client) (s : Counts)
      → client_of (counted sdk) config k s.0 ≡ o
      → IsCounted s
      → IsCounted (client_or_new (counted sdk) config k o s).1
  client_or_new-IsCounted k (some c) s same h = h
  client_or_new-IsCounted k none s same h =
      let a = sdk.from (given (contract_id_of config k)) (given config.rpc_url) s.1.0 in
      keep_client-IsCounted k s.0 a.0 a.1 s.1.1 same h

  get_client-IsCounted :
      (k : Contract) (s : Counts) → IsCounted s → IsCounted (get_client (counted sdk) config k s).1
  unfolding get_client
  get_client-IsCounted k s h = elim (Bool-cases (is_configured config k)) [
    | inl configured ↦ rw configured (client_or_new-IsCounted k _ s refl h)
    | inr missing ↦ rw missing h
  ]

  send-IsCounted :
      (cs : Clients sdk.Client) (a : Answer sdk.Assembled) (w : sdk.World × ℕ)
      → IsCounted (cs, w)
      → IsCounted (send (counted sdk) config cs (a, w)).1
  send-IsCounted cs (resolved tx) w h = h
  send-IsCounted cs (rejected x) w h = h

  call_method-IsCounted :
      (method : String) (args : Arguments) (key : String) (client : Answer sdk.Client × Counts)
      → IsCounted client.1
      → IsCounted (call_method (counted sdk) config method args key client).1
  call_method-IsCounted method args key (rejected x, s) h = h
  call_method-IsCounted method args key (resolved c, s) h =
      elim (Bool-cases (sdk.has_method c method)) [
        | inl available ↦ rw available (send-IsCounted s.0 _ _ h)
        | inr missing ↦ rw missing h
      ]

  invoke-IsCounted :
      (method : String) (args : Arguments) (key : Option String)
      (client : Answer sdk.Client × Counts)
      → IsCounted client.1
      → IsCounted (invoke_contract_write (counted sdk) config client method args key).1
  unfolding invoke_contract_write
  invoke-IsCounted method args key client h = elim (Bool-cases (is_given key)) [
    | inl connected ↦ rw connected (call_method-IsCounted method args (given key) client h)
    | inr no_wallet ↦ rw no_wallet h
  ]

  with_args-IsCounted :
      (a : Answer Arguments) (method : String) (key : Option String)
      (client : Answer sdk.Client × Counts)
      → IsCounted client.1
      → IsCounted (with_args (counted sdk) config client a method key).1
  with_args-IsCounted (rejected x) method key client h = h
  with_args-IsCounted (resolved args) method key client h =
      invoke-IsCounted method args key client h

  mutate_async-IsCounted :
      (m : Mutation) (key : Option String) (s : Counts)
      → IsCounted s
      → IsCounted (mutate_async (counted sdk) config m key s).1
  unfolding mutate_async mutation_fn
  mutate_async-IsCounted m key s h =
      with_args-IsCounted (hook_of m).args (hook_of m).method key _
        (get_client-IsCounted (hook_of m).contract s h)

  -- However many mutations are made, one after another, as many clients were made as are kept: at most
  -- one of each contract, where none was made or kept before.
  pub made_once :
      (ms : List (Mutation × Option String)) (s : Counts)
      → IsCounted s
      → IsCounted (mutate_all (counted sdk) config ms s)
  made_once [] s h = h
  made_once ((m, key) ∷ ms) s h = made_once ms _ (mutate_async-IsCounted m key s h)
