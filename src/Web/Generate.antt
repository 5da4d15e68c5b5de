-- ===== src/Web/Generate.antt =====
-- The page on which a proof is made, apps/web/src/app/kyc/generate/page.tsx, and the polling of
-- apps/web/src/hooks/use-proofs.ts: what the form offers and sends, and what becomes of the answer.
pub mod Offered
use stprivy.Common.{
  ℕ, String, Bool, true, false, not, ◌&&◌, ◌||◌, Option, none, some, List, [], ◌∷◌, ◌==◌,
}
use stprivy.Common.Tests.{if◌then◌else◌}
use stprivy.Common.Lists.{filter}
use stprivy.Domain.{Credential, CredentialStatus, Proof, ProofStatus}
use stprivy.Proof.Service.{is_active}
use stprivy.Request.Dto.{GenerateBody, is_circuit}

-- `activeCredentials`
unfoldable pub active_credentials : List Credential → List Credential
active_credentials credentials = filter (λ c. is_active c.status) credentials

-- the ids of `CIRCUITS`
abbrev pub circuits : List String
circuits = "age-proof" ∷ "residency-proof" ∷ "accredited-investor" ∷ "sanctions-check" ∷ []

-- `generate_schema`
unfoldable pub generate_schema : GenerateBody → Bool
generate_schema values = not (values.credential_id == "") && is_circuit values.circuit_id

-- a submission: nothing is sent for values that the generate_schema refuses
unfoldable pub submit_generate : GenerateBody → Option GenerateBody
submit_generate values = if generate_schema values then some values else none

-- `PENDING` or `GENERATING`
abbrev pub is_moving : ProofStatus → Bool
is_moving ProofStatus.pending = true
is_moving ProofStatus.generating = true
is_moving _ = false

abbrev pub any_moving : List Proof → Bool
any_moving [] = false
any_moving (x ∷ xs) = is_moving x.status || any_moving xs

-- the `refetchInterval` of `useProofs` and of `useProof`, in milliseconds, or `false`
unfoldable pub proofs_interval : Option (List Proof) → Option ℕ
proofs_interval none = none
proofs_interval (some proofs) = if any_moving proofs then some 2000 else none

unfoldable pub proof_interval : Option Proof → Option ℕ
proof_interval none = none
proof_interval (some x) = if is_moving x.status then some 2000 else none

-- `ProofResult`: the page while the query loads, where it failed, and the proof's state
pub data Result : Type 0 where
  loading failed : Result
  status :
      (label : String) (description : String) (proof_id : Option String) (try_again : Bool) → Result

abbrev pub made_status : (proof_id : String) → Result
made_status proof_id =
    status "Proof Generated" "Your zero-knowledge proof has been successfully generated."
      (some proof_id) false

abbrev pub shown : Proof → Result
shown x = elim x.status [
  | ProofStatus.completed ↦ made_status x.id
  | ProofStatus.generating ↦
      status "Generating Proof…"
        "Your proof is being generated by the backend worker. This may take a few seconds." none
        false
  | ProofStatus.pending ↦
      status "Queued for Processing"
        "Your proof request has been queued and will be processed shortly." none false
  | ProofStatus.failed ↦
      status "Generation Failed" "Proof generation failed. Please try again." none true
]

unfoldable pub proof_result : (is_loading is_error : Bool) → Option Proof → Result
proof_result is_loading is_error found =
    if is_loading
    then loading
    else if is_error
    then failed
    else elim found [ none ↦ failed | some x ↦ shown x ]
