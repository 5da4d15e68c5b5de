-- ===== src/Request.antt =====
-- The proof requests of apps/server/src/modules/proofs/proof.controller.ts: a verifier creates a
-- request, and a subject answers it with a proof of their own.
pub mod Respond
pub mod Lifecycle
pub mod Justified
pub mod Keyed
pub mod Dto
use Prim.Native.String.{◌++◌}
use stprivy.Common.{ℕ, String, Bool, true, false, not, Option, none, some, ◌==◌}
use stprivy.Common.Tests.{ltb, if◌then◌else◌}
use stprivy.Common.Exec.{
  Exec, Error, ok, err, bad_request, forbidden, not_found, throws, require, throw_if, raise, gets,
  resume, ◌>>=◌, ◌>>◌,
}
use stprivy.Domain.{Did, Proof, ProofRequest, ProofStatus, RequestStatus}
use stprivy.Domain.Db.{Prisma, Db, update_request, create_request}

pub data Decision : Type 0 where
  approve reject : Decision

pub record RequestBody : Type 0 where
  pub circuit_id : String
  pub purpose : String
  pub callback_url : Option String
  pub expires_at : ℕ

abbrev pub is_pending : RequestStatus → Bool
is_pending RequestStatus.pending = true
is_pending _ = false

abbrev pub is_completed : ProofStatus → Bool
is_completed ProofStatus.completed = true
is_completed _ = false

abbrev pub status_name : RequestStatus → String
status_name RequestStatus.pending = "PENDING"
status_name RequestStatus.approved = "APPROVED"
status_name RequestStatus.rejected = "REJECTED"
status_name RequestStatus.expired = "EXPIRED"

abbrev pub no_did : Error
no_did = throws bad_request "Create your DID first via POST /did/create"

abbrev pub no_request : Error
no_request = throws not_found "Proof request not found"

abbrev pub has_expired : Error
has_expired = throws bad_request "Proof request has expired"

abbrev pub not_yours : Error
not_yours = throws forbidden "Proof does not belong to you"

abbrev pub not_ready : Error
not_ready = throws bad_request "Proof is not ready"

abbrev pub already : RequestStatus → Error
already status = throws bad_request ("Request is already " ++ status_name status)

abbrev pub circuit_mismatch : String → String → Error
circuit_mismatch given wanted =
    throws bad_request ("Proof circuit (" ++ given ++ ") does not match request (" ++ wanted ++ ")")

-- the proof and the DID, unless `!proof || !did || proof.subjectDID !== did.id`
abbrev pub owned : Option Proof → Option Did → Option (Proof × Did)
owned none did = none
owned (some proof) none = none
owned (some proof) (some did) = if proof.subject_did == did.id then some (proof, did) else none

module _ (p : Prisma) where
  -- `createRequest`; `id` and `now` are the defaults that the database fills in
  unfoldable pub create :
      (id : String) (now : ℕ) (user_id : String) → RequestBody → Exec (Db p) ProofRequest
  create id now user_id body = do
    found ← gets (λ s. p.dids.find user_id s.dids)
    did ← require no_did found
    create_request p id (record {
      id = id;
      verifier_did = did.id;
      subject_did = none;
      circuit_id = body.circuit_id;
      purpose = body.purpose;
      callback_url = body.callback_url;
      expires_at = body.expires_at;
      status = RequestStatus.pending;
      proof_id = none;
      created_at = now;
    })

  -- `getRequest`
  unfoldable pub get : (id : String) → Exec (Db p) ProofRequest
  get id = do found ← gets (λ s. p.requests.find id s.requests); require no_request found

  -- the `APPROVED` branch of `respondToRequest`
  answer_approve : (id user_id proof_id : String) → ProofRequest → Exec (Db p) ProofRequest
  answer_approve id user_id proof_id req = do
    proof ← gets (λ s. p.proofs.find proof_id s.proofs)
    did ← gets (λ s. p.dids.find user_id s.dids)
    mine ← require not_yours (owned proof did)
    throw_if (not (is_completed mine.0.status)) not_ready
    throw_if (not (mine.0.circuit_id == req.circuit_id))
        (circuit_mismatch mine.0.circuit_id req.circuit_id)
    update_request p id (λ r. record r {
      status = RequestStatus.approved;
      proof_id = some proof_id;
      subject_did = some mine.1.id;
    })

  answer : Decision → (id user_id proof_id : String) → ProofRequest → Exec (Db p) ProofRequest
  unfolding answer_approve
  answer approve id user_id proof_id req = answer_approve id user_id proof_id req
  answer reject id user_id proof_id req =
      update_request p id (λ r. record r { status = RequestStatus.rejected })

  -- the update to `EXPIRED`, then the exception
  expire : (id : String) → Exec (Db p) ProofRequest
  expire id = do
    update_request p id (λ r. record r { status = RequestStatus.expired })
    raise has_expired

  -- `respondToRequest`
  unfoldable pub respond :
      (now : ℕ) (id user_id proof_id : String) → Decision → Exec (Db p) ProofRequest
  unfolding answer expire
  respond now id user_id proof_id decision = do
    found ← gets (λ s. p.requests.find id s.requests)
    req ← require no_request found
    throw_if (not (is_pending req.status)) (already req.status)
    if ltb req.expires_at now then expire id else answer decision id user_id proof_id req
