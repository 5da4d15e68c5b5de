-- ===== src/Soroban.antt =====
-- apps/server/src/modules/soroban/soroban.service.ts: contract calls over the Soroban RPC server.
-- The SDK and the server are not part of the repository: what they answer is a parameter.
pub mod Invoke
use stprivy.Common.{
  ℕ, zero, suc, ◌+◌, String, Bool, true, false, Option, none, some, List, [], ◌∷◌, ◌==◌,
}
use stprivy.Common.Tests.{if◌then◌else◌}
use stprivy.Retry.{Outcome, done, threw, Timed, with_retry}

pub data SorobanError : Type 0 where
  not_configured : (name : String) → SorobanError
  rpc_error : String → SorobanError
  simulation_failed no_simulation send_failed failed_on_chain timed_out : SorobanError

pub data Simulation (Data : Type 0) : Type 0 where
  error other : Simulation Data
  success : Data → Simulation Data

pub data Sent : Type 0 where
  error : Sent
  accepted : (hash : String) → Sent

pub data TxStatus (Value : Type 0) : Type 0 where
  success : Value → TxStatus Value
  failed not_found : TxStatus Value

-- The RPC server over a world `W` that each call may change, with the SDK's transactions.
pub record Rpc : Type 1 where
  pub W : Type 0
  pub Account : Type 0
  pub Args : Type 0
  pub Tx : Type 0
  pub Data : Type 0
  pub Value : Type 0
  pub get_account : W → Outcome String Account × W
  pub build : (contract_id method : String) → Args → Account → Tx
  pub simulate : Tx → W → Outcome String (Simulation Data) × W
  -- `assembleTransaction(tx, simResult).build()`, signed
  pub prepare : Tx → Data → Tx
  pub send : Tx → W → Outcome String Sent × W
  pub get_transaction : (hash : String) → W → Outcome String (TxStatus Value) × W

-- `this.contractAddressMap`: the variable of the configuration for each contract's name
unfoldable pub config_key : String → Option String
config_key name =
    if name == "issuer-registry"
    then some "ISSUER_REGISTRY_CONTRACT_ID"
    else if name == "credential-registry"
    then some "CREDENTIAL_REGISTRY_CONTRACT_ID"
    else if name == "revocation-registry"
    then some "REVOCATION_REGISTRY_CONTRACT_ID"
    else if name == "kyc-registry"
    then some "KYC_REGISTRY_CONTRACT_ID"
    else if name == "proof-verifier-age-proof"
    then some "PROOF_VERIFIER_CONTRACT_ID_AGE_PROOF"
    else if name == "proof-verifier-residency-proof"
    then some "PROOF_VERIFIER_CONTRACT_ID_RESIDENCY_PROOF"
    else if name == "proof-verifier-accredited-investor"
    then some "PROOF_VERIFIER_CONTRACT_ID_ACCREDITED_INVESTOR"
    else if name == "proof-verifier-sanctions-check"
    then some "PROOF_VERIFIER_CONTRACT_ID_SANCTIONS_CHECK"
    else none

-- `resolveContractId`; `config.get(key, "")` is the empty text where the variable is not set, and
-- the empty text is refused like a name that the map does not have
abbrev resolved : (name id : String) → Outcome SorobanError String
resolved name id = if id == "" then threw (not_configured name) else done id

unfoldable pub resolve_contract_id :
    (config : String → String) → (name : String) → Outcome SorobanError String
resolve_contract_id config name = elim (config_key name) [
  | none ↦ threw (not_configured name)
  | some key ↦ resolved name (config key)
]

-- The transactions that were sent and the polls that were made, beside the world.
pub record Traffic (W : Type 0) : Type 0 where
  pub world : W
  pub sends : ℕ
  pub polls : ℕ

abbrev pub Call : Type 0 → Type 0 → Type 0
Call W A = Traffic W → Outcome SorobanError A × Traffic W

module _ {A : Type 0} where
  abbrev rpc_outcome : Outcome String A → Outcome SorobanError A
  rpc_outcome (done a) = done a
  rpc_outcome (threw message) = threw (rpc_error message)

module _ {W A : Type 0} where
  -- a call of the RPC server
  abbrev pub rpc_call : (W → Outcome String A × W) → Call W A
  rpc_call f t = let (r, w) = f t.world in (rpc_outcome r, record t { world = w })

  abbrev pub yield : Outcome SorobanError A → Call W A
  yield r t = (r, t)

module _ {W A B : Type 0} where
  abbrev pub proceed :
      Outcome SorobanError A × Traffic W → (A → Call W B) → Outcome SorobanError B × Traffic W
  proceed (done a, t) k = k a t
  proceed (threw e, t) k = (threw e, t)

  infixl 5 ◌>>=◌
  abbrev pub ◌>>=◌ : Call W A → (A → Call W B) → Call W B
  ◌>>=◌ m k t = proceed (m t) k

-- `MAX_POLLS`
abbrev pub max_polls : ℕ
max_polls = 20

module _ (rpc : Rpc) where
  -- one poll, counted
  abbrev pub poll : (hash : String) → Call rpc.W (TxStatus rpc.Value)
  poll hash t = rpc_call (rpc.get_transaction hash) (record t { polls = t.polls + 1 })

  -- the loop of `pollTransaction`, by the polls that are left
  unfoldable pub poll_from : ℕ → (hash : String) → Call rpc.W rpc.Value
  poll_from zero hash t = (threw timed_out, t)
  poll_from (suc left) hash t =
      let next = poll_from left hash in
      proceed (poll hash t) (λ status t'. elim status [
        | success v ↦ (done v, t')
        | failed ↦ (threw failed_on_chain, t')
        | not_found ↦ next t'
      ])

  unfoldable pub poll_transaction : (hash : String) → Call rpc.W rpc.Value
  poll_transaction hash = poll_from max_polls hash

  abbrev simulated : Simulation rpc.Data → Outcome SorobanError rpc.Data
  simulated error = threw simulation_failed
  simulated other = threw no_simulation
  simulated (success d) = done d

  -- `sendTransaction`, counted, and the test of its answer
  abbrev pub send_counted : rpc.Tx → Call rpc.W Sent
  send_counted tx t = rpc_call (rpc.send tx) (record t { sends = t.sends + 1 })

  abbrev accepted_hash : Sent → Outcome SorobanError String
  accepted_hash error = threw send_failed
  accepted_hash (accepted hash) = done hash

  -- the function that `invokeContract` retries: the transaction's hash and the returned value
  unfoldable pub invoke_once :
      (contract_id method : String) → rpc.Args → Call rpc.W (String × rpc.Value)
  invoke_once contract_id method args = do
    account ← rpc_call rpc.get_account
    let tx = rpc.build contract_id method args account
    simulation ← rpc_call (rpc.simulate tx)
    simulated_data ← yield (simulated simulation)
    answer ← send_counted (rpc.prepare tx simulated_data)
    hash ← yield (accepted_hash answer)
    value ← poll_transaction hash
    yield (done (hash, value))

  -- the function that `simulateContract` retries
  unfoldable pub simulate_once : (contract_id method : String) → rpc.Args → Call rpc.W rpc.Data
  simulate_once contract_id method args = do
    account ← rpc_call rpc.get_account
    simulation ← rpc_call (rpc.simulate (rpc.build contract_id method args account))
    yield (simulated simulation)

  -- `withRetry`: every error is worth another attempt
  abbrev always : SorobanError → Bool
  always e = true

  module _ {A : Type 0} where
    abbrev run :
        Outcome SorobanError String
        → (String → Call rpc.W A)
        → Traffic rpc.W
        → Outcome SorobanError A × Timed (Traffic rpc.W)
    run (threw e) fn t = (threw e, record { world = t; slept = []; attempts = 0 })
    run (done id) fn t = with_retry always (fn id) t

  -- `invokeContract` and `simulateContract`
  unfoldable pub invoke_contract :
      (config : String → String) (name method : String)
      → rpc.Args
      → Traffic rpc.W
      → Outcome SorobanError (String × rpc.Value) × Timed (Traffic rpc.W)
  invoke_contract config name method args =
      run (resolve_contract_id config name) (λ id. invoke_once id method args)

  unfoldable pub simulate_contract :
      (config : String → String) (name method : String)
      → rpc.Args
      → Traffic rpc.W
      → Outcome SorobanError rpc.Data × Timed (Traffic rpc.W)
  simulate_contract config name method args =
      run (resolve_contract_id config name) (λ id. simulate_once id method args)
