-- ===== src/Kyc/Routes.antt =====
-- stellar-kyc.controller.ts: all routes, with the validation of their bodies, which runs before the
-- handler. The pipe of main.ts is set to refuse a body with a property that has no decorator, and
-- is a parameter with this behaviour.
pub mod Unchanged
use stprivy.Common.{
  ℕ, ◌≡◌, String, Bool, true, false, not, ◌&&◌, Option, none, some, List, [], ◌∷◌, ◌==◌,
}
use stprivy.Common.Tests.{if◌then◌else◌}
use stprivy.Common.Exec.{Result, ok, err, Error, bad_request, throws}
use stprivy.Common.Js.{Js}
use stprivy.Kyc.Records.{VerificationRecord}
use stprivy.Kyc.Net.{Net}
use stprivy.Kyc.Contract.{
  Kyc, initialize, verify_proof, build_verify_proof_transaction, submit_signed_transaction,
}
use stprivy.Kyc.Transaction.{
  OnChainResult, post_verify, revoke_verification, rotate_key, check_verification_status,
  get_verification_details,
}

pub record Pipe : Type 0 where
  -- whether a body with these properties passes, by the properties that carry a decorator
  pub accepts : (decorated sent : List String) → Bool
  pub accepts-undecorated : (k : String) (ks : List String) → accepts [] (k ∷ ks) ≡ false
  -- `IsNotEmpty`
  pub is_not_empty : String → Bool
  pub refusal : String

-- A request, with the body that its DTO describes.
pub data KycRequest : Type 0 where
  verify :
      (wallet country : String) (age : ℕ) (proof_hash : String) (expires_in_days : Option ℕ)
      → KycRequest
  revoke : (wallet : String) → KycRequest
  verified : (wallet : String) → KycRequest
  verification : (wallet : String) → KycRequest
  rotate : (new_public_key : String) → KycRequest
  public_key : KycRequest
  initializes : (backend_public_key admin_address : String) (version : Option String) → KycRequest
  verify_groth16 : (circuit_id proof : String) (public_inputs : List String) → KycRequest
  build : (user_public_key circuit_id proof : String) (public_inputs : List String) → KycRequest
  submit_signed : (signed_xdr : String) → KycRequest

-- What is answered; `waiting` where the wait for a transaction has not ended.
pub data KycAnswer : Type 0 where
  result : OnChainResult → KycAnswer
  is_verified : Bool → KycAnswer
  details : Option VerificationRecord → KycAnswer
  key text : String → KycAnswer
  waiting : KycAnswer

-- the properties of `SubmitVerificationDto`'s body
abbrev verify_keys : Option ℕ → List String
verify_keys none = "wallet" ∷ "country" ∷ "age" ∷ "proofHash" ∷ []
verify_keys (some days) = "wallet" ∷ "country" ∷ "age" ∷ "proofHash" ∷ "expiresInDays" ∷ []

abbrev groth16_keys : List String
groth16_keys = "circuitId" ∷ "proof" ∷ "publicInputs" ∷ []

-- `dto.version || '1.0.0'`
abbrev pub or_version : Option String → String
or_version none = "1.0.0"
or_version (some version) = if version == "" then "1.0.0" else version

module _ (net : Net) (js : Js) (sign : String → String) (server_key : String) (pipe : Pipe)
    (now polls : ℕ) (nonce : String) where
  -- The pipe's verdict on a body: the classes of the first three bodies carry no decorators, the
  -- body of `initialize` has no class, and a route without a body has nothing to validate.
  unfoldable pub valid : KycRequest → Bool
  valid (verify wallet country age proof_hash days) = pipe.accepts [] (verify_keys days)
  valid (revoke wallet) = pipe.accepts [] ("wallet" ∷ [])
  valid (rotate new_public_key) = pipe.accepts [] ("newPublicKey" ∷ [])
  valid (verify_groth16 circuit_id proof public_inputs) =
      pipe.accepts groth16_keys groth16_keys
      && (pipe.is_not_empty circuit_id && pipe.is_not_empty proof)
  valid (build user_public_key circuit_id proof public_inputs) =
      pipe.accepts ("userPublicKey" ∷ groth16_keys) ("userPublicKey" ∷ groth16_keys)
      && (pipe.is_not_empty user_public_key
          && (pipe.is_not_empty circuit_id && pipe.is_not_empty proof))
  valid (submit_signed signed_xdr) =
      pipe.accepts ("signedXdr" ∷ []) ("signedXdr" ∷ []) && pipe.is_not_empty signed_xdr
  valid _ = true

  module _ {A S : Type 0} where
    -- the body of the answer, where nothing is thrown
    abbrev pub answer_with : (A → KycAnswer) → Result A × S → Result KycAnswer × S
    answer_with make (ok a, s) = (ok (make a), s)
    answer_with make (err e, s) = (err e, s)

    abbrev pub replied : (A → KycAnswer) → A × S → Result KycAnswer × S
    replied make (a, s) = (ok (make a), s)

  abbrev verdict_answer : Option Bool → KycAnswer
  verdict_answer none = waiting
  verdict_answer (some b) = is_verified b

  -- the handlers
  unfoldable pub handler : KycRequest → Kyc net → Result KycAnswer × Kyc net
  handler (verify wallet country age proof_hash days) s =
      replied result (post_verify net js sign now polls nonce wallet country age proof_hash days s)
  handler (revoke wallet) s = replied result (revoke_verification net js sign now wallet s)
  handler (verified wallet) s =
      (ok (is_verified (check_verification_status net js sign now wallet s)), s)
  handler (verification wallet) s =
      (ok (details (get_verification_details net js sign now wallet s)), s)
  handler (rotate new_public_key) s = replied result (rotate_key net js sign now new_public_key s)
  handler public_key s = (ok (key server_key), s)
  handler (initializes backend_public_key admin_address version) s =
      answer_with text
        (initialize net js now backend_public_key admin_address (or_version version) s)
  handler (verify_groth16 circuit_id proof public_inputs) s =
      answer_with verdict_answer (verify_proof net polls circuit_id (some proof) public_inputs s)
  handler (build user_public_key circuit_id proof public_inputs) s =
      answer_with text
        (build_verify_proof_transaction net user_public_key circuit_id proof public_inputs s)
  handler (submit_signed signed_xdr) s =
      answer_with text (submit_signed_transaction net signed_xdr s)

  abbrev pub invalid_body : Error
  invalid_body = throws bad_request pipe.refusal

  -- a route of the controller
  unfoldable pub route : KycRequest → Kyc net → Result KycAnswer × Kyc net
  route r s = if valid r then handler r s else (err invalid_body, s)

  unfoldable pub routes : List KycRequest → Kyc net → Kyc net
  routes [] s = s
  routes (r ∷ rs) s = routes rs (route r s).1
