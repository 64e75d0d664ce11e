-- ===== src/Client/ContractClient.antt =====
-- lib/soroban/contractClient.ts: the clients of the two contracts, each made once, and a call that
-- changes a contract. The Stellar SDK and the wallet extension are third parties: a parameter, `Sdk`,
-- whose calls answer or throw.
use agrocylo_pip.Prelude.{Bool, List, Option, String, false, if◌then◌else◌, none, not, some, ◌&&◌}
use agrocylo_pip.Prelude.Int.{ℤ}
use agrocylo_pip.Prelude.Text.{concat, is_blank}
use agrocylo_pip.Client.Failures.{Failure, error}

pub data Contract : Type 0 where
  escrow : Contract
  registry : Contract

-- A tranche as it is sent
pub record Tranche : Type 0 where
  pub amount : ℤ
  pub milestone : String
  pub released : Bool

-- What an argument of a contract's method is: a `bigint`, a text, a variant `{ tag }`, or tranches
pub data Argument : Type 0 where
  bigint : ℤ → Argument
  text : String → Argument
  variant : String → Argument
  tranches : List Tranche → Argument

abbrev pub Arguments : Type 0
Arguments = List (String × Argument)

pub data Answer (A : Type 0) : Type 0 where
  resolved : A → Answer A
  rejected : Failure → Answer A

-- `from` fetches a contract's interface; `signAndSend` asks the wallet, and sends.
pub record Sdk : Type 1 where
  pub World : Type 0
  pub Client : Type 0
  pub Assembled : Type 0
  pub from : (contract_id rpc_url : String) → World → Answer Client × World
  pub has_method : Client → String → Bool
  pub call :
      Client
      → (method : String) → Arguments
      → (public_key : String) → World
      → Answer Assembled × World
  pub sign_and_send : Assembled → World → Answer (Unit {0}) × World

-- `RPC_URL` and the ids of the two contracts
pub record Config : Type 0 where
  pub rpc_url : Option String
  pub escrow_contract_id : Option String
  pub registry_contract_id : Option String

-- `x!`, and whether `x` is a text that is not empty
abbrev pub is_given : Option String → Bool
is_given none = false
is_given (some s) = not (is_blank s)

abbrev pub given : Option String → String
given none = ""
given (some s) = s

abbrev pub contract_id_of : Config → Contract → Option String
contract_id_of config escrow = config.escrow_contract_id
contract_id_of config registry = config.registry_contract_id

-- `isEscrowConfigured` and `isRegistryConfigured`
abbrev pub is_configured : Config → Contract → Bool
is_configured config c = is_given config.rpc_url && is_given (contract_id_of config c)

abbrev not_configured : Contract → String
not_configured escrow =
    "ProductionEscrowContract is not configured. Set VITE_SOROBAN_RPC_URL and VITE_PRODUCTION_ESCROW_CONTRACT_ID."
not_configured registry =
    "RegistryContract is not configured. Set VITE_SOROBAN_RPC_URL and VITE_REGISTRY_CONTRACT_ID."

-- `escrowClientPromise` and `registryClientPromise`, once they have settled
pub record Clients (Client : Type 0) : Type 0 where
  pub escrow_client : Option Client
  pub registry_client : Option Client

module _ (sdk : Sdk) (config : Config) where
  open sdk use {World, Client, Assembled}

  abbrev pub State : Type 0
  State = Clients Client × World

  abbrev pub client_of : Contract → Clients Client → Option Client
  client_of escrow cs = cs.escrow_client
  client_of registry cs = cs.registry_client

  abbrev with_client : Contract → Option Client → Clients Client → Clients Client
  with_client escrow c cs = record cs { escrow_client = c }
  with_client registry c cs = record cs { registry_client = c }

  -- What `contract.Client.from(...).catch(...)` leaves in the variable
  abbrev pub keep_client : Contract → Clients Client → Answer Client × World → Answer Client × State
  keep_client k cs (resolved c, w) = (resolved c, (with_client k (some c) cs, w))
  keep_client k cs (rejected x, w) = (rejected x, (with_client k none cs, w))

  abbrev pub client_or_new : Contract → Option Client → State → Answer Client × State
  client_or_new k (some c) s = (resolved c, s)
  client_or_new k none s =
      keep_client k s.0 (sdk.from (given (contract_id_of config k)) (given config.rpc_url) s.1)

  -- `getEscrowClient` and `getRegistryClient`
  unfoldable pub get_client : Contract → State → Answer Client × State
  get_client k s =
      if not (is_configured config k)
      then (rejected (error (not_configured k)), s)
      else client_or_new k (client_of k s.0) s

  abbrev pub send : Clients Client → Answer Assembled × World → Answer (Unit {0}) × State
  send cs (rejected x, w) = (rejected x, (cs, w))
  send cs (resolved tx, w) = let (r, w') = sdk.sign_and_send tx w in (r, (cs, w'))

  -- `contractMethod` throws where the client has no such method.
  abbrev pub call_method :
      (method : String)
      → Arguments
      → (public_key : String) → Answer Client × State
      → Answer (Unit {0}) × State
  call_method method args key (rejected x, s) = (rejected x, s)
  call_method method args key (resolved c, s) =
      if sdk.has_method c method then send s.0 (sdk.call c method args key s.1) else (
        rejected (error (concat "Contract method \"" (concat method "\" is not available."))),
        s,
      )

  -- `invokeContractWrite`, with the outcome of the promise of the client
  unfoldable pub invoke_contract_write :
      Answer Client × State
      → (method : String) → Arguments
      → (public_key : Option String) → Answer (Unit {0}) × State
  invoke_contract_write client method args public_key =
      if is_given public_key
      then call_method method args (given public_key) client
      else (rejected (error "Connect your wallet to continue."), client.1)
