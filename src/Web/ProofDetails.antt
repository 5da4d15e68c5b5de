-- ===== src/Web/ProofDetails.antt =====
-- The page of one proof, apps/web/src/app/proofs/[id]/page.tsx: what it shows of the proof, and the
-- button that has it verified, with the state of its mutation.
pub mod Verdict
use stprivy.Common.{ℕ, String, Bool, true, false, not, ◌&&◌, Option, none, some}
use stprivy.Common.Tests.{is_some, if◌then◌else◌}
use stprivy.Common.Exec.{Exec, Result, ok, err}
use stprivy.Domain.{Proof, ProofStatus, ProofVerification}
use stprivy.Web.Respond.{circuit_label, or_else}

-- `useMutation`'s state
pub data Mutation : Type 0 where
  idle pending : Mutation
  success : ProofVerification → Mutation
  error : (message : String) → Mutation

-- `statusConfig`: the label, the colour and the badge's variant
pub data StatusConfig : Type 0 where
  config : (label color variant : String) → StatusConfig

unfoldable pub status_config : ProofStatus → StatusConfig
status_config ProofStatus.completed = config "Completed" "text-green-600" "success"
status_config ProofStatus.failed = config "Failed" "text-destructive" "destructive"
status_config ProofStatus.generating = config "Generating" "text-primary" "warning"
status_config ProofStatus.pending = config "Pending" "text-muted-foreground" "secondary"

-- the card "On-Chain Verification": the verdict with its transaction, or the button with the message
-- of the last attempt
pub data VerifyCard : Type 0 where
  told : (text : String) (tx : Option String) → VerifyCard
  button : (message : Option String) (disabled : Bool) → VerifyCard

abbrev pub verdict_text : Bool → String
verdict_text result =
    if result then "Proof verified successfully." else "Proof verification failed."

unfoldable pub verify_card : Mutation → VerifyCard
verify_card idle = button none false
verify_card pending = button none true
verify_card (error message) = button (some message) false
verify_card (success v) = told (verdict_text v.result) v.on_chain_tx_hash

-- What the page shows; of the ids and of a transaction, the first digits. The artifact and the date
-- are there where the proof has them.
pub data Details : Type 0 where
  skeleton missing : Details
  details :
      (title id credential_id : String) (status : StatusConfig) (generated_at : Option ℕ)
      (shows_artifact : Bool) (card : Option VerifyCard)
      → Details

-- the card stands on the page of a completed proof only
abbrev pub card_of : ProofStatus → Mutation → Option VerifyCard
card_of ProofStatus.completed m = some (verify_card m)
card_of _ m = none

abbrev details_of : Proof → Mutation → Details
details_of x m =
    details (or_else (circuit_label x.circuit_id) x.circuit_id) x.id x.credential_id
      (status_config x.status) x.generated_at (is_some x.artifact) (card_of x.status m)

-- the page while the query loads, where it found no proof, and with the proof
unfoldable pub proof_details : (is_loading : Bool) → Option Proof → Mutation → Details
proof_details true found m = skeleton
proof_details false none m = missing
proof_details false (some x) m = details_of x m

-- the mutation when its call has ended
abbrev pub after_call : Result ProofVerification → Mutation
after_call (ok v) = success v
after_call (err e) = error e.message

-- the button's call, `POST /proofs/verify` with the id of the page
unfoldable pub press_verify :
    {S : Type 0}
    → (post : (proof_id : String) → Exec S ProofVerification) → (proof_id : String) → S
    → Mutation × S
press_verify post proof_id s = let (answer, s') = post proof_id s in (after_call answer, s')
