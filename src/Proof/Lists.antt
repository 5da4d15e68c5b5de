-- ===== src/Proof/Lists.antt =====
-- The lists that proof.controller.ts answers with, of proof.service.ts's queries and of its own.
use mathlib.Core.List.{Memᴰ}
use stprivy.Common.{
  ℕ, ◌≡◌, ◌↔◌, refl, subst, arith, String, Bool, true, ◌&&◌, Option, none, some, List, [], ◌==◌,
}
use stprivy.Common.Tests.{ltb}
use stprivy.Domain.{Did, Proof, ProofVerification, ProofRequest}
use stprivy.Domain.Db.{Prisma, Db}
use stprivy.Domain.Queries.{Queries}
use stprivy.Request.{is_pending}

-- `OR: [{ subjectDID: did.id }, { subjectDID: null }]`
abbrev pub addressed : (did_id : String) → Option String → Bool
addressed did_id none = true
addressed did_id (some subject) = subject == did_id

-- the `where` of `pendingRequests`
abbrev pub is_waiting : (now : ℕ) (did_id : String) → ProofRequest → Bool
is_waiting now did_id r =
    is_pending r.status && (ltb now r.expires_at && addressed did_id r.subject_did)

module _ {Row : Type 0} where
  -- `if (!did) return []`
  abbrev pub rows_for : (Did → List Row) → Option Did → List Row
  rows_for rows none = []
  rows_for rows (some did) = rows did

  pub rows_for-Memᴰ :
      (rows : Did → List Row) (found : Option Did) (x : Row)
      → Memᴰ x (rows_for rows found) ↔ ((did : Did) × (found ≡ some did) × Memᴰ x (rows did))
  rows_for-Memᴰ rows none x = (λ m. elim m [ ], λ (did, e, m). absurd (ground (arith, e)))
  rows_for-Memᴰ rows (some did) x =
      (λ m. (did, refl, m), λ (other, e, m). subst (λ d. Memᴰ x (rows d)) (ground (arith, e)) m)

module _ (p : Prisma) (q : Queries p) where
  -- `listBySubject` and `listVerifications` of the service
  abbrev pub list_by_subject : (subject_did : String) → Db p → List Proof
  list_by_subject subject_did s = q.proofs.find_many (λ x. x.subject_did == subject_did) s.proofs

  abbrev pub list_verifications : (verifier_did : String) → Db p → List ProofVerification
  list_verifications verifier_did s =
      q.verifications.find_many (λ v. v.verifier_did == verifier_did) s.verifications

  -- `myProofs`, `myVerifications` and `pendingRequests`
  unfoldable pub my_proofs : (user_id : String) → Db p → List Proof
  my_proofs user_id s = rows_for (λ did. list_by_subject did.id s) (p.dids.find user_id s.dids)

  unfoldable pub my_verifications : (user_id : String) → Db p → List ProofVerification
  my_verifications user_id s =
      rows_for (λ did. list_verifications did.id s) (p.dids.find user_id s.dids)

  unfoldable pub pending_requests : (now : ℕ) (user_id : String) → Db p → List ProofRequest
  pending_requests now user_id s =
      rows_for (λ did. q.requests.find_many (is_waiting now did.id) s.requests)
        (p.dids.find user_id s.dids)
