-- ===== src/Kyc/Transaction.antt =====
-- transactions/transaction.service.ts and the routes of stellar-kyc.controller.ts that call it: no
-- call throws, an error is a part of the answer.
pub mod Effects
use stprivy.Common.{ℕ, String, Bool, true, false, Option, none, some, List, [], ◌∷◌}
use stprivy.Common.Tests.{ltb, if◌then◌else◌}
use stprivy.Common.Exec.{Result, ok, err, Error}
use stprivy.Common.Js.{Js}
use stprivy.Kyc.Records.{VerificationRecord, or_number}
use stprivy.Kyc.Net.{Net}
use stprivy.Kyc.Signer.{AttestationData, SignedAttestation, create_attestation, sign_attestation}
use stprivy.Kyc.Contract.{
  Kyc, verify_attestation, revoke_user, rotate_backend_key, is_verified, get_verification,
}

-- `OnChainVerificationResult`, by its `success`; `pending` where the wait has not ended
pub data OnChainResult : Type 0 where
  succeeded : (tx_hash : String) → OnChainResult
  refused : (error : String) → OnChainResult
  pending : OnChainResult

module _ {S : Type 0} where
  -- the `try` and the `catch`
  abbrev pub caught : Result String × S → OnChainResult × S
  caught (ok hash, s) = (succeeded hash, s)
  caught (err e, s) = (refused e.message, s)

  abbrev pub caught_pending : Result (Option String) × S → OnChainResult × S
  caught_pending (ok none, s) = (pending, s)
  caught_pending (ok (some hash), s) = (succeeded hash, s)
  caught_pending (err e, s) = (refused e.message, s)

module _ (net : Net) (js : Js) (sign : String → String) (now : ℕ) where
  -- the payload that `submitVerification` has signed
  abbrev pub signed :
      (nonce wallet country : String) (age : ℕ) (proof_hash : String) (expires_in_days : ℕ)
      → SignedAttestation
  signed nonce wallet country age proof_hash expires_in_days =
      sign_attestation js sign
        (create_attestation now nonce wallet country age proof_hash expires_in_days)

  unfoldable pub submit_verification :
      (polls : ℕ) (nonce wallet country : String) (age : ℕ) (proof_hash : String)
      (expires_in_days : ℕ)
      → Kyc net
      → OnChainResult × Kyc net
  submit_verification polls nonce wallet country age proof_hash expires_in_days s =
      let a = signed nonce wallet country age proof_hash expires_in_days in
      caught_pending (verify_attestation net js now polls wallet a.payload a.signature s)

  -- the route `verify`, with its default for the days
  unfoldable pub post_verify :
      (polls : ℕ) (nonce wallet country : String) (age : ℕ) (proof_hash : String)
      (expires_in_days : Option ℕ)
      → Kyc net
      → OnChainResult × Kyc net
  post_verify polls nonce wallet country age proof_hash expires_in_days =
      submit_verification polls nonce wallet country age proof_hash (or_number expires_in_days 365)

  unfoldable pub revoke_verification : (wallet : String) → Kyc net → OnChainResult × Kyc net
  revoke_verification wallet s = caught (revoke_user net js now wallet s)

  unfoldable pub rotate_key : (new_public_key : String) → Kyc net → OnChainResult × Kyc net
  rotate_key new_public_key s = caught (rotate_backend_key net js now new_public_key s)

  unfoldable pub check_verification_status : (wallet : String) → Kyc net → Bool
  check_verification_status wallet s = is_verified net now wallet s

  unfoldable pub get_verification_details : (wallet : String) → Kyc net → Option VerificationRecord
  get_verification_details wallet s = get_verification net now wallet s
