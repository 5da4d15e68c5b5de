-- ===== src/Kyc/Contract.antt =====
-- contract/kyc-contract.service.ts: the calls of the registry's contract, and the records of
-- verified wallets that the service keeps in memory. A wait that has not ended after the given
-- rounds of polling gives `none`.
pub mod History
pub mod Wait
use Prim.Native.String.{◌++◌}
use stprivy.Common.{
  ℕ, zero, suc, String, Bool, true, false, not, ◌||◌, Option, none, some, List, [], ◌∷◌, ◌==◌,
}
use stprivy.Common.Tests.{ltb, if◌then◌else◌}
use stprivy.Common.Exec.{
  Exec, Error, Result, ok, err, failure, throws, gets, modify, pure, lift, try, ◌>>=◌, ◌>>◌,
}
use stprivy.Common.Js.{Js}
use stprivy.Kyc.Records.{
  VerificationRecord, Payload, map_get, map_delete, map_set, or_text, or_else, record_of,
}
use stprivy.Kyc.Net.{
  ContractConfig, Arg, text, address, bytes, vec, TxStatus, success, failed, not_found, Net,
}

abbrev pub invalid_payload : Error
invalid_payload = throws failure "Invalid attestation payload"

abbrev pub syntax_error : Error
syntax_error = throws failure "JSON.parse: syntax error"

abbrev pub proof_failed : Error
proof_failed = throws failure "Proof verification failed"

abbrev pub is_success : TxStatus → Bool
is_success success = true
is_success _ = false

module _ (net : Net) where
  -- The service with the world. `contract` and `keypair` are made from the first configuration.
  pub record Kyc : Type 0 where
    pub config : ContractConfig
    pub contract : String
    pub keypair : String
    pub use_mock_mode : Bool
    pub store : List (String × VerificationRecord)
    pub world : net.W

  -- the constructor
  unfoldable pub make : ContractConfig → net.W → Kyc
  make config w = record {
    config = config;
    contract = config.contract_id;
    keypair = config.secret_key;
    use_mock_mode =
        config.contract_id == ""
        || config.secret_key == ""
        || not (net.is_contract config.contract_id);
    store = [];
    world = w;
  }

  module _ {A : Type 0} where
    abbrev with_world : Kyc → Result A × net.W → Result A × Kyc
    with_world s (r, w) = (r, record s { world = w })

    -- a call of the RPC server
    abbrev pub call : (net.W → Result A × net.W) → Exec Kyc A
    call f s = with_world s (f s.world)

  -- the account of a key, and a transaction that calls the contract
  unfoldable pub build_call : (public_key method : String) → List Arg → Exec Kyc net.Tx
  build_call public_key method args = do
    account ← call (net.get_account public_key)
    config ← gets (λ s. s.config)
    contract ← gets (λ s. s.contract)
    lift (net.build config.network_passphrase contract method args account)

  -- the same, signed by the server's key and sent
  unfoldable pub send_call : (method : String) → List Arg → Exec Kyc String
  unfolding build_call
  send_call method args = do
    keypair ← gets (λ s. s.keypair)
    tx ← build_call (net.public_key keypair) method args
    call (net.send (net.sign keypair tx))

  module _ (js : Js) (now : ℕ) where
    -- `initialize`
    unfoldable pub initialize :
        (backend_public_key admin_address version : String) → Exec Kyc String
    unfolding send_call
    initialize backend_public_key admin_address version s =
        if s.use_mock_mode
        then (ok ("mock_init_" ++ js.of_number now), s)
        else send_call "initialize"
            (bytes (some backend_public_key) ∷ address admin_address ∷ text version ∷ []) s

    -- `revokeUser`
    unfoldable pub revoke_user : (wallet : String) → Exec Kyc String
    unfolding send_call
    revoke_user wallet s =
        if s.use_mock_mode
        then (do
          modify (λ t. record t { store = map_delete (net.lower wallet) t.store })
          pure ("mock_revoke_" ++ js.of_number now))
            s
        else send_call "revoke" (address (net.public_key s.keypair) ∷ address wallet ∷ []) s

    -- `rotateBackendKey`
    unfoldable pub rotate_backend_key : (new_public_key : String) → Exec Kyc String
    unfolding send_call
    rotate_backend_key new_public_key s =
        if s.use_mock_mode
        then (ok ("mock_rotate_" ++ js.of_number now), s)
        else send_call "rotate_backend_key"
            (address (net.public_key s.keypair) ∷ bytes (some new_public_key) ∷ []) s

  abbrev pub verify_args :
      (circuit_id : String) → (proof : Option String) → (public_inputs : List String) → List Arg
  verify_args circuit_id proof public_inputs =
      text circuit_id ∷ bytes proof ∷ vec public_inputs ∷ []

  -- `buildVerifyProofTransaction`
  unfoldable pub build_verify_proof_transaction :
      (user_public_key circuit_id proof : String) (public_inputs : List String) → Exec Kyc String
  unfolding build_call
  build_verify_proof_transaction user_public_key circuit_id proof public_inputs s =
      if s.use_mock_mode
      then (ok "", s)
      else (do
        tx ←
            build_call user_public_key "verify_proof"
              (verify_args circuit_id (some proof) public_inputs)
        pure (net.to_xdr tx))
          s

  -- `submitSignedTransaction`
  unfoldable pub submit_signed_transaction : (signed_xdr : String) → Exec Kyc String
  submit_signed_transaction signed_xdr s =
      if s.use_mock_mode
      then (ok "mock-tx-hash", s)
      else (do tx ← lift (net.from_xdr signed_xdr s.config.network_passphrase); call (net.send tx))
          s

  -- The polls of `verifyProof`, the first and those of the loop, by the polls that are left.
  unfoldable pub wait_status : (polls : ℕ) → (hash : String) → Exec Kyc (Option TxStatus)
  wait_status zero hash s = (ok none, s)
  wait_status (suc polls) hash s =
      let again = wait_status polls hash in
      (do
        status ← call (net.get_transaction hash)
        elim status [
          | not_found ↦ again
          | success ↦ pure (some success)
          | failed ↦ pure (some failed)
        ])
        s

  -- the inner `try`: whether the simulation did not throw
  abbrev pub simulated : net.Tx → Exec Kyc Bool
  simulated tx = try (do call (net.simulate tx); pure true) (λ e. pure false)

  -- the transaction that is sent and waited for
  abbrev pub confirmed : Option TxStatus → Option Bool
  confirmed none = none
  confirmed (some status) = some (is_success status)

  unfoldable pub send_and_wait : (polls : ℕ) → net.Tx → Exec Kyc (Option Bool)
  send_and_wait polls tx = do
    hash ← call (net.send tx)
    status ← wait_status polls hash
    pure (confirmed status)

  -- `verifyProof`; `undefined` for the proof is possible where the payload of an attestation has none
  unfoldable pub verify_proof :
      (polls : ℕ) (circuit_id : String) (proof : Option String) (public_inputs : List String)
      → Exec Kyc (Option Bool)
  unfolding build_call
  verify_proof polls circuit_id proof public_inputs s =
      if s.use_mock_mode
      then (ok (some true), s)
      else (do
        built ←
            build_call (net.public_key s.keypair) "verify_proof"
              (verify_args circuit_id proof public_inputs)
        let tx = net.sign s.keypair built
        fits ← simulated tx
        if fits then send_and_wait polls tx else pure (some false))
          s

  module _ (js : Js) (now : ℕ) where
    abbrev remember : (wallet payload issuer : String) → Payload → Kyc → Kyc
    remember wallet payload issuer p s = record s {
      store = map_set (net.lower wallet) (record_of js now wallet payload issuer p) s.store;
    }

    -- what `verifyAttestation` makes of the verdict
    abbrev stored : (wallet payload : String) → Payload → Option Bool → Exec Kyc (Option String)
    stored wallet payload p none s = (ok none, s)
    stored wallet payload p (some false) s = (err proof_failed, s)
    stored wallet payload p (some true) s =
        (ok (some ("verify_" ++ js.of_number now)), remember wallet payload "verified-issuer" p s)

    abbrev mock_attestation : (wallet payload : String) → Option Payload → Exec Kyc (Option String)
    mock_attestation wallet payload none s = (err invalid_payload, s)
    mock_attestation wallet payload (some p) s =
        (ok (some ("mock_verify_" ++ js.of_number now)), remember wallet payload "mock-issuer" p s)

    abbrev real_attestation :
        (polls : ℕ) (wallet payload : String) → Option Payload → Exec Kyc (Option String)
    real_attestation polls wallet payload none s = (err syntax_error, s)
    real_attestation polls wallet payload (some p) s =
        (do
          verdict ←
              verify_proof polls (or_text p.circuit_id "age-proof") p.proof
                (or_else p.public_inputs [])
          stored wallet payload p verdict)
          s

    -- `verifyAttestation`; the signature is not read
    unfoldable pub verify_attestation :
        (polls : ℕ) (wallet payload signature : String) → Exec Kyc (Option String)
    verify_attestation polls wallet payload signature s =
        if s.use_mock_mode
        then mock_attestation wallet payload (net.parse payload) s
        else real_attestation polls wallet payload (net.parse payload) s

  -- `isVerified`; both modes read the records in memory
  unfoldable pub is_verified : (now : ℕ) (wallet : String) → Kyc → Bool
  is_verified now wallet s = elim (map_get (net.lower wallet) s.store) [
    | none ↦ false
    | some r ↦ ltb now r.expires_at
  ]

  -- `getVerification`: the record of a wallet that is verified
  unfoldable pub get_verification : (now : ℕ) (wallet : String) → Kyc → Option VerificationRecord
  get_verification now wallet s = elim (map_get (net.lower wallet) s.store) [
    | none ↦ none
    | some r ↦ if ltb now r.expires_at then some r else none
  ]

  -- `updateConfig`, of the whole configuration; a part that is left out is the part as it was
  unfoldable pub update_config : ContractConfig → Kyc → Kyc
  update_config config s = record s { config = config }
