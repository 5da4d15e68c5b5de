-- ===== src/Request/Lifecycle.antt =====
-- The life of a proof request over any sequence of the proof controller's calls, by anyone and at
-- any time.
use stprivy.Common.{
  ℕ, ◌≤◌, ◌≡◌, ◌≢◌, refl, sym, ap, String, Option, none, some, List, [], ◌∷◌, ◌==◌, arith, eq_iff,
  inl, inr,
}
use stprivy.Common.Tests.{Option-cases, Bool-cases, ltb}
use stprivy.Common.Exec.{Error, err, Result-cases}
use stprivy.Common.Js.{Js}
use stprivy.Domain.{Did, Proof, ProofRequest, RequestStatus}
use stprivy.Domain.Db.{Prisma, Db}
use stprivy.Request.{Decision, approve, reject, RequestBody, is_pending, create, respond}
use stprivy.Request.Respond.{
  MayApprove, approved_row, approve_allowed, approve_needs, answered_absorbs, late_expires,
  anyone_rejects,
}
use stprivy.Proof.Service.{Contract, generate_proof, verify_proof}
use stprivy.Proof.Controller.{generate, verify}

-- What can become of a request: the row's status, or none before it is there.
pub data Step : Option RequestStatus → Option RequestStatus → Type 0 where
  stays : (x : Option RequestStatus) → Step x x
  opens : Step none (some RequestStatus.pending)
  approves : Step (some RequestStatus.pending) (some RequestStatus.approved)
  rejects : Step (some RequestStatus.pending) (some RequestStatus.rejected)
  expires : Step (some RequestStatus.pending) (some RequestStatus.expired)

pub data Reaches : Option RequestStatus → Option RequestStatus → Type 0 where
  here : {x : Option RequestStatus} → Reaches x x
  next : {x y z : Option RequestStatus} → Step x y → Reaches y z → Reaches x z

abbrev pub status_of : Option ProofRequest → Option RequestStatus
status_of none = none
status_of (some row) = some row.status

-- The calls of the controller that write, with the values that the database and the contract make.
pub data Call : Type 0 where
  creates : (id : String) (now : ℕ) (user_id : String) → RequestBody → Call
  responds : (now : ℕ) (id user_id proof_id : String) → Decision → Call
  generates : (id : String) (now : ℕ) (user_id credential_id circuit_id : String) → Call
  verifies : Contract → (id : String) (now : ℕ) (user_id proof_id : String) → Call

module _ (p : Prisma) where
  put-Step :
      (id j : String) (req row : ProofRequest) (t : p.requests.Rows)
      → p.requests.find id t ≡ some req
      → Step (some req.status) (some row.status)
      → Step
          (status_of (p.requests.find j t))
          (status_of (p.requests.find j (p.requests.put id row t)))
  put-Step id j req row t e step = elim (Bool-cases (id == j)) [
    | inl hit ↦ rw (p.requests.find-put, hit, sym ((eq_iff id j).0 hit), e) step
    | inr miss ↦ rw (p.requests.find-put, miss) (stays _)
  ]

  open-Step :
      (id j : String) (row : ProofRequest) (t : p.requests.Rows)
      → p.requests.find id t ≡ none
      → row.status ≡ RequestStatus.pending
      → Step
          (status_of (p.requests.find j t))
          (status_of (p.requests.find j (p.requests.put id row t)))
  open-Step id j row t e h = elim (Bool-cases (id == j)) [
    | inl hit ↦ rw (p.requests.find-put, hit, sym ((eq_iff id j).0 hit), e, h) opens
    | inr miss ↦ rw (p.requests.find-put, miss) (stays _)
  ]

  -- What an answer does to the state.
  module _ (now : ℕ) (id user_id proof_id : String) (s : Db p) where
    pub data Change (t : Db p) : Type 0 where
      nothing : t ≡ s → Change t
      closes :
          (req : ProofRequest)
          → p.requests.find id s.requests ≡ some req
          → req.status ≡ RequestStatus.pending
          → (status : RequestStatus) → Step (some RequestStatus.pending) (some status)
          → status ≢ RequestStatus.approved
          → t
            ≡ record s { requests = p.requests.put id (record req { status = status }) s.requests }
          → Change t
      grants :
          (req : ProofRequest) (proof : Proof) (did : Did)
          → MayApprove p now id user_id proof_id s req proof did
          → t ≡ record s {
            requests =
                p.requests.put id (approved_row p now id user_id proof_id s req did) s.requests;
          }
          → Change t

    approve-refused :
        (req : ProofRequest) (x : Error)
        → p.requests.find id s.requests ≡ some req
        → req.status ≡ RequestStatus.pending
        → now ≤ req.expires_at
        → (respond p now id user_id proof_id approve s).0 ≡ err x
        → (respond p now id user_id proof_id approve s).1 ≡ s
    unfolding respond
    approve-refused req x e h l bad = elim (Option-cases (p.proofs.find proof_id s.proofs)) [
      | inl f ↦ ground (arith, e, f)
      | inr (proof, f) ↦ elim (Option-cases (p.dids.find user_id s.dids)) [
        | inl g ↦ ground (arith, e, f, g)
        | inr (did, g) ↦ ground (
          arith,
          e,
          f,
          g,
          p.requests.update_lem id (λ r. approved_row p now id user_id proof_id s r did) s.requests,
        )
      ]
    ]

    respond-pending :
        (decision : Decision) (req : ProofRequest)
        → p.requests.find id s.requests ≡ some req
        → req.status ≡ RequestStatus.pending
        → now ≤ req.expires_at
        → Change (respond p now id user_id proof_id decision s).1
    respond-pending reject req e h l =
        closes req e h RequestStatus.rejected rejects (λ k. ground (arith, k))
          (ap (λ x. x.1) (anyone_rejects p now id user_id proof_id s req e h l))
    respond-pending approve req e h l =
        elim (Result-cases (respond p now id user_id proof_id approve s).0) [
          | inl (row, good) ↦
              let (req', proof, did, may, same) =
                approve_needs p now id user_id proof_id s row good in
              grants req' proof did may
                (ap (λ x. x.1) (approve_allowed p now id user_id proof_id s req' proof did may))
          | inr (x, bad) ↦ nothing (approve-refused req x e h l bad)
        ]

    pub respond-Change :
        (decision : Decision) → Change (respond p now id user_id proof_id decision s).1
    respond-Change decision = elim (Option-cases (p.requests.find id s.requests)) [
      | inl e ↦ nothing (unfold respond in (rw e refl))
      | inr (req, e) ↦ elim (Bool-cases (is_pending req.status)) [
        | inr h ↦ nothing (
            ap (λ x. x.1)
              (answered_absorbs p now id user_id proof_id s decision req e
                (λ k. ground (arith, k, h))))
        | inl h ↦ elim (Bool-cases (ltb req.expires_at now)) [
          | inl l ↦
              closes req e (ground (arith, h)) RequestStatus.expired expires
                (λ k. ground (arith, k))
                (ap (λ x. x.1)
                  (late_expires p now id user_id proof_id s decision req e (ground (arith, h))
                    (ground (arith, l))))
          | inr l ↦ respond-pending decision req e (ground (arith, h)) (ground (arith, l))
        ]
      ]
    ]

    Change-Step :
        (j : String) (t : Db p)
        → Change t
        → Step (status_of (p.requests.find j s.requests)) (status_of (p.requests.find j t.requests))
    Change-Step j t (nothing same) = rw same (stays _)
    Change-Step j t (closes req e h status step other same) =
        rw same (put-Step id j req _ s.requests e (rw h step))
    Change-Step j t (grants req proof did may same) =
        rw same (put-Step id j req _ s.requests may.asked (rw may.open_still approves))

  create-Step :
      (id : String) (now : ℕ) (user_id : String) (body : RequestBody) (j : String) (s : Db p)
      → Step
          (status_of (p.requests.find j s.requests))
          (status_of (p.requests.find j (create p id now user_id body s).1.requests))
  create-Step id now user_id body j s = elim (Option-cases (p.dids.find user_id s.dids)) [
    | inl g ↦ unfold create in (rw g (stays _))
    | inr (did, g) ↦ elim (Option-cases (p.requests.find id s.requests)) [
      | inl e ↦
          unfold create in (rw (g, p.requests.create_lem, e) (open-Step id j _ s.requests e refl))
      | inr (req, e) ↦ unfold create in (rw (g, p.requests.create_lem, e) (stays _))
    ]
  ]

module _ (p : Prisma) (js : Js) where
  unfoldable pub call : Call → Db p → Db p
  call (creates id now user_id body) s = (create p id now user_id body s).1
  call (responds now id user_id proof_id decision) s =
      (respond p now id user_id proof_id decision s).1
  call (generates id now user_id credential_id circuit_id) s =
      (generate p js id now user_id credential_id circuit_id s).1
  call (verifies contract id now user_id proof_id) s =
      (verify p js contract id now user_id proof_id s).1

  unfoldable pub calls : List Call → Db p → Db p
  calls [] s = s
  calls (c ∷ cs) s = calls cs (call c s)

  pub generate-requests :
      (id : String) (now : ℕ) (user_id credential_id circuit_id : String) (s : Db p)
      → (generate p js id now user_id credential_id circuit_id s).1.requests ≡ s.requests
  unfolding generate generate_proof
  generate-requests id now user_id credential_id circuit_id s = ground arith

  pub verify-requests :
      (contract : Contract) (id : String) (now : ℕ) (user_id proof_id : String) (s : Db p)
      → (verify p js contract id now user_id proof_id s).1.requests ≡ s.requests
  unfolding verify verify_proof
  verify-requests contract id now user_id proof_id s = ground arith

  call-Step :
      (c : Call) (j : String) (s : Db p)
      → Step
          (status_of (p.requests.find j s.requests))
          (status_of (p.requests.find j (call c s).requests))
  unfolding call
  call-Step (creates id now user_id body) j s = create-Step p id now user_id body j s
  call-Step (responds now id user_id proof_id decision) j s =
      Change-Step p now id user_id proof_id s j _
        (respond-Change p now id user_id proof_id s decision)
  call-Step (generates id now user_id credential_id circuit_id) j s =
      rw (generate-requests id now user_id credential_id circuit_id s) (stays _)
  call-Step (verifies contract id now user_id proof_id) j s =
      rw (verify-requests contract id now user_id proof_id s) (stays _)

  -- Whatever calls of the controller are made, by anyone, in any order and at any time, a request
  -- goes only along the steps of its life: it appears as pending, a pending one is approved,
  -- rejected or expires, and after that it stays what it is, and stays there.
  pub calls-Reaches :
      (cs : List Call) (j : String) (s : Db p)
      → Reaches
          (status_of (p.requests.find j s.requests))
          (status_of (p.requests.find j (calls cs s).requests))
  unfolding calls
  calls-Reaches [] j s = here
  calls-Reaches (c ∷ cs) j s = next (call-Step c j s) (calls-Reaches cs j (call c s))
