-- ===== src/Request/Respond.antt =====
-- What `respondToRequest` does on each of its branches.
use stprivy.Common.{ℕ, ◌≤◌, ◌<◌, String, some, ◌≡◌, ◌≢◌, inl, inr, arith, eq_iff, eq_refl, refl}
use stprivy.Common.Tests.{Option-cases}
use stprivy.Common.Exec.{ok, err}
use stprivy.Domain.{Did, Proof, ProofRequest, ProofStatus, RequestStatus}
use stprivy.Domain.Db.{Prisma, Db}
use stprivy.Request.{Decision, approve, reject, respond, has_expired, already}

module _ (p : Prisma) (now : ℕ) (id user_id proof_id : String) (s : Db p) where
  -- The request, the proof and the DID with which an approval is allowed.
  pub record MayApprove (req : ProofRequest) (proof : Proof) (did : Did) : Type 0 where
    pub asked : p.requests.find id s.requests ≡ some req
    pub open_still : req.status ≡ RequestStatus.pending
    pub in_time : now ≤ req.expires_at
    pub given : p.proofs.find proof_id s.proofs ≡ some proof
    pub identity : p.dids.find user_id s.dids ≡ some did
    pub owner : proof.subject_did ≡ did.id
    pub completed : proof.status ≡ ProofStatus.completed
    pub circuit : proof.circuit_id ≡ req.circuit_id

  abbrev pub approved_row : ProofRequest → Did → ProofRequest
  approved_row req did = record req {
    status = RequestStatus.approved;
    proof_id = some proof_id;
    subject_did = some did.id;
  }

  -- With a pending request whose deadline has not passed, and a completed proof for the request's
  -- circuit whose subject is the caller's DID, an approval succeeds: the request's row, and nothing
  -- else, is changed, to approved with that proof and that DID, and the row is the answer.
  pub approve_allowed :
      (req : ProofRequest) (proof : Proof) (did : Did)
      → MayApprove req proof did
      → respond p now id user_id proof_id approve s ≡ (
        ok (approved_row req did),
        record s { requests = p.requests.put id (approved_row req did) s.requests },
      )
  unfolding respond
  approve_allowed req proof did m = ground (
    arith,
    eq_iff proof.subject_did did.id,
    eq_iff proof.circuit_id req.circuit_id,
    m,
    p.requests.update_lem id (λ r. approved_row r did) s.requests,
  )

  -- An approval succeeds only with a pending request whose deadline has not passed, and a completed
  -- proof for the request's circuit whose subject is the caller's DID; the answer is the request's
  -- row, approved with that proof and that DID.
  pub approve_needs :
      (row : ProofRequest)
      → (respond p now id user_id proof_id approve s).0 ≡ ok row
      → (req : ProofRequest) × (proof : Proof) × (did : Did) × MayApprove req proof did
        × (row ≡ approved_row req did)
  unfolding respond
  approve_needs row h = elim (Option-cases (p.requests.find id s.requests)) [
    | inl e ↦ ground (arith, e)
    | inr (req, e) ↦ elim (Option-cases (p.proofs.find proof_id s.proofs)) [
      | inl f ↦ ground (arith, e, f)
      | inr (proof, f) ↦ elim (Option-cases (p.dids.find user_id s.dids)) [
        | inl g ↦ ground (arith, e, f, g)
        | inr (did, g) ↦ (
          req,
          proof,
          did,
          ground (
            arith,
            e,
            f,
            g,
            eq_iff proof.subject_did did.id,
            eq_iff proof.circuit_id req.circuit_id,
          ),
          ground (arith, e, f, g, p.requests.update_lem id (λ r. approved_row r did) s.requests),
        )
      ]
    ]
  ]

  -- A request that has been answered, or that expired, stays as it is: every further answer, by
  -- anyone, is refused and changes nothing.
  pub answered_absorbs :
      (decision : Decision) (req : ProofRequest)
      → p.requests.find id s.requests ≡ some req
      → req.status ≢ RequestStatus.pending
      → respond p now id user_id proof_id decision s ≡ (err (already req.status), s)
  unfolding respond
  answered_absorbs decision req e h = ground (arith, e)

  -- An answer after the deadline is refused, and marks the request, and nothing else, as expired.
  pub late_expires :
      (decision : Decision) (req : ProofRequest)
      → p.requests.find id s.requests ≡ some req
      → req.status ≡ RequestStatus.pending
      → req.expires_at < now
      → respond p now id user_id proof_id decision s ≡ (
        err has_expired,
        record s {
          requests = p.requests.put id (record req { status = RequestStatus.expired }) s.requests;
        },
      )
  unfolding respond
  late_expires decision req e h l = ground (
    arith,
    e,
    p.requests.update_lem id (λ r. record r { status = RequestStatus.expired }) s.requests,
  )

  -- Whoever is logged in can reject any open request in time: the caller's DID and the proof that
  -- they name play no part.
  pub anyone_rejects :
      (req : ProofRequest)
      → p.requests.find id s.requests ≡ some req
      → req.status ≡ RequestStatus.pending
      → now ≤ req.expires_at
      → respond p now id user_id proof_id reject s ≡ (
        ok (record req { status = RequestStatus.rejected }),
        record s {
          requests = p.requests.put id (record req { status = RequestStatus.rejected }) s.requests;
        },
      )
  unfolding respond
  anyone_rejects req e h l = ground (
    arith,
    e,
    p.requests.update_lem id (λ r. record r { status = RequestStatus.rejected }) s.requests,
  )

  answered-row :
      (decision : Decision) (row : ProofRequest)
      → (respond p now id user_id proof_id decision s).0 ≡ ok row
      → (p.requests.find id (respond p now id user_id proof_id decision s).1.requests ≡ some row)
        × (row.status ≢ RequestStatus.pending)
  answered-row approve row h =
      let (req, proof, did, may, same) = approve_needs row h in
      rw (approve_allowed req proof did may, same)
        (rw (p.requests.find-put, eq_refl id) (refl, λ e. ground (arith, e)))
  answered-row reject row h =
      unfold respond in
      elim (Option-cases (p.requests.find id s.requests)) [
        | inl e ↦ absurd (ground (arith, e, h))
        | inr (req, e) ↦
            let change =
              p.requests.update_lem id (λ r. record r { status = RequestStatus.rejected })
                s.requests in
            let stored =
              p.requests.find-put id id (record req { status = RequestStatus.rejected })
                s.requests in
            ground (arith, e, h, change, stored, eq_refl id)
      ]

module _ (p : Prisma) (now now' : ℕ) (id user_id user_id' proof_id proof_id' : String)
    (s : Db p) where
  -- A request is answered once: after an answer that succeeded, every further answer, of any kind,
  -- by anyone and at any time, is refused and changes nothing.
  pub respond_once :
      (decision decision' : Decision) (row : ProofRequest)
      → (respond p now id user_id proof_id decision s).0 ≡ ok row
      → let s' = (respond p now id user_id proof_id decision s).1 in
        respond p now' id user_id' proof_id' decision' s' ≡ (err (already row.status), s')
  respond_once decision decision' row h =
      let (found, closed) = answered-row p now id user_id proof_id s decision row h in
      answered_absorbs p now' id user_id' proof_id' _ decision' row found closed
