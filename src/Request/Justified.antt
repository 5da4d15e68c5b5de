-- ===== src/Request/Justified.antt =====
-- An approved proof request carries a proof that answers it: an invariant of the database under
-- every sequence of the proof controller's calls.
use stprivy.Common.{ℕ, ◌≡◌, refl, sym, subst, String, some, List, [], ◌∷◌, arith, inl, inr}
use stprivy.Common.Tests.{Option-cases}
use stprivy.Common.Table.{find-put-cases, find-fresh-put}
use stprivy.Common.Exec.{Result-cases}
use stprivy.Common.Js.{Js}
use stprivy.Domain.{Proof, ProofRequest, ProofStatus, RequestStatus}
use stprivy.Domain.Db.{Prisma, Db}
use stprivy.Request.{RequestBody, create}
use stprivy.Request.Respond.{approved_row}
use stprivy.Request.Lifecycle.{
  Call, creates, responds, generates, verifies, call, calls, Change, nothing, closes, grants,
  respond-Change, generate-requests, verify-requests,
}
use stprivy.Proof.Service.{Contract, generate_proof, verify_proof}
use stprivy.Proof.Service.Generate.{
  generate_proof_allowed, generate_proof_needs, generate_proof_refused,
}
use stprivy.Proof.Controller.{generate, verify}

module _ (p : Prisma) where
  -- The proof that a request's row names, and what makes it an answer to the request.
  pub record Answered (s : Db p) (row : ProofRequest) : Type 0 where
    pub proof_id : String
    pub proof : Proof
    pub named : row.proof_id ≡ some proof_id
    pub stored : p.proofs.find proof_id s.proofs ≡ some proof
    pub completed : proof.status ≡ ProofStatus.completed
    pub circuit : proof.circuit_id ≡ row.circuit_id
    pub subject : row.subject_did ≡ some proof.subject_did

  abbrev pub Justified : Db p → Type 0
  Justified s =
      (j : String) (row : ProofRequest)
      → p.requests.find j s.requests ≡ some row
      → row.status ≡ RequestStatus.approved
      → Answered s row

  -- the proofs that were there are still there, as they were
  abbrev pub Keeps : Db p → Db p → Type 0
  Keeps s t =
      (k : String) (proof : Proof)
      → p.proofs.find k s.proofs ≡ some proof
      → p.proofs.find k t.proofs ≡ some proof

  Answered-Keeps : (s t : Db p) (row : ProofRequest) → Keeps s t → Answered s row → Answered t row
  Answered-Keeps s t row keeps a = record {
    proof_id = a.proof_id;
    proof = a.proof;
    named = a.named;
    stored = keeps a.proof_id a.proof a.stored;
    completed = a.completed;
    circuit = a.circuit;
    subject = a.subject;
  }

  Justified-put :
      (s t : Db p) (id : String) (new : ProofRequest)
      → Keeps s t
      → t.requests ≡ p.requests.put id new s.requests
      → (new.status ≡ RequestStatus.approved → Answered t new)
      → Justified s
      → Justified t
  Justified-put s t id new keeps same answer all j row found closed =
      elim (find-put-cases p.requests id j new row s.requests (rw (sym same) found)) [
        | inl new_row ↦ subst (λ r. Answered t r) new_row (answer (rw new_row closed))
        | inr old_row ↦ Answered-Keeps s t row keeps (all j row old_row closed)
      ]

  Justified-same : (s t : Db p) → Keeps s t → t.requests ≡ s.requests → Justified s → Justified t
  Justified-same s t keeps same all j row found closed =
      Answered-Keeps s t row keeps (all j row (rw (sym same) found) closed)

  create-Justified :
      (id : String) (now : ℕ) (user_id : String) (body : RequestBody) (s : Db p)
      → Justified s
      → Justified (create p id now user_id body s).1
  create-Justified id now user_id body s all = elim (Option-cases (p.dids.find user_id s.dids)) [
    | inl g ↦ unfold create in (rw g all)
    | inr (did, g) ↦ elim (Option-cases (p.requests.find id s.requests)) [
      | inl e ↦
          unfold create in
          (rw (g, p.requests.create_lem, e)
            (Justified-put s _ id _ (λ k proof h. h) refl (λ k. ground (arith, k)) all))
      | inr (req, e) ↦ unfold create in (rw (g, p.requests.create_lem, e) all)
    ]
  ]

  Change-Justified :
      (now : ℕ) (id user_id proof_id : String) (s t : Db p)
      → Change p now id user_id proof_id s t
      → Justified s
      → Justified t
  Change-Justified now id user_id proof_id s t (nothing same) all = rw same all
  Change-Justified now id user_id proof_id s t (closes req e h status step other same) all =
      rw same (Justified-put s _ id _ (λ k proof f. f) refl (λ k. absurd (other k)) all)
  Change-Justified now id user_id proof_id s t (grants req proof did may same) all =
      let answer : Answered
          (record s {
            requests =
                p.requests.put id (approved_row p now id user_id proof_id s req did) s.requests;
          })
          (approved_row p now id user_id proof_id s req did) =
        record {
          proof_id = proof_id;
          proof = proof;
          named = refl;
          stored = may.given;
          completed = may.completed;
          circuit = may.circuit;
          subject = rw may.owner refl;
        } in
      rw same (Justified-put s _ id _ (λ k old f. f) refl (λ k. answer) all)

module _ (p : Prisma) (js : Js) where
  generate_proof-Keeps :
      (id : String) (now : ℕ) (did credential_id circuit_id : String) (s : Db p)
      → Keeps p s (generate_proof p js id now did credential_id circuit_id s).1
  generate_proof-Keeps id now did credential_id circuit_id s k old h =
      elim (Result-cases (generate_proof p js id now did credential_id circuit_id s).0) [
        | inl (row, good) ↦
            let (c, may, same) =
              generate_proof_needs p js id now did credential_id circuit_id s row good in
            rw (generate_proof_allowed p js id now did credential_id circuit_id s c may)
              (find-fresh-put p.proofs id k _ old s.proofs may.fresh h)
        | inr (e, bad) ↦
            rw (generate_proof_refused p js id now did credential_id circuit_id s e bad) h
      ]

  generate-Keeps :
      (id : String) (now : ℕ) (user_id credential_id circuit_id : String) (s : Db p)
      → Keeps p s (generate p js id now user_id credential_id circuit_id s).1
  generate-Keeps id now user_id credential_id circuit_id s k old h =
      unfold generate in
      elim (Option-cases (p.dids.find user_id s.dids)) [
        | inl e ↦ rw e h
        | inr (did, e) ↦
            rw e (generate_proof-Keeps id now did.id credential_id circuit_id s k old h)
      ]

  pub verify-proofs :
      (contract : Contract) (id : String) (now : ℕ) (user_id proof_id : String) (s : Db p)
      → (verify p js contract id now user_id proof_id s).1.proofs ≡ s.proofs
  unfolding verify verify_proof
  verify-proofs contract id now user_id proof_id s = ground arith

  call-Justified : (c : Call) (s : Db p) → Justified p s → Justified p (call p js c s)
  unfolding call
  call-Justified (creates id now user_id body) s all = create-Justified p id now user_id body s all
  call-Justified (responds now id user_id proof_id decision) s all =
      Change-Justified p now id user_id proof_id s _
        (respond-Change p now id user_id proof_id s decision) all
  call-Justified (generates id now user_id credential_id circuit_id) s all =
      Justified-same p s _ (generate-Keeps id now user_id credential_id circuit_id s)
        (generate-requests p js id now user_id credential_id circuit_id s) all
  call-Justified (verifies contract id now user_id proof_id) s all =
      Justified-same p s _ (λ k proof h. rw (verify-proofs contract id now user_id proof_id s) h)
        (verify-requests p js contract id now user_id proof_id s) all

  -- Whatever calls of the controller are made, by anyone, in any order and at any time: if every
  -- approved request names a proof that is stored, complete, for the request's circuit and of the
  -- subject that the request names, then so it is afterwards.
  pub calls-Justified : (cs : List Call) (s : Db p) → Justified p s → Justified p (calls p js cs s)
  unfolding calls
  calls-Justified [] s all = all
  calls-Justified (c ∷ cs) s all = calls-Justified cs (call p js c s) (call-Justified c s all)
