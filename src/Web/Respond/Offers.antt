-- ===== src/Web/Respond/Offers.antt =====
-- What the page of requests offers, against what the server accepts.
use stprivy.Common.{ℕ, ◌≤◌, ◌≡◌, ◌↔◌, sym, ap, ◌∙◌, subst, String, true, some, ◌==◌, arith, eq_iff}
use mathlib.Core.List.{Memᴰ}
use stprivy.Common.Lists.{filter-Memᴰ}
use stprivy.Common.Exec.{ok}
use stprivy.Domain.{Did, Proof, ProofRequest, ProofStatus, RequestStatus}
use stprivy.Domain.Db.{Prisma, Db}
use stprivy.Domain.Queries.{Queries, Keyed}
use stprivy.Request.{approve, respond, is_pending}
use stprivy.Request.Respond.{MayApprove, approved_row, approve_allowed, approve_needs}
use stprivy.Proof.Lists.{list_by_subject, rows_for-Memᴰ, my_proofs, pending_requests, is_waiting}
use stprivy.Web.Respond.{is_match, matching_proofs}

pub is_pending_iff :
    (r : ProofRequest) → is_pending r.status ≡ true → r.status ≡ RequestStatus.pending
is_pending_iff r h = ground (arith, h)

is_match-fits :
    (req : ProofRequest) (x : Proof)
    → is_match req x ≡ true
    → (x.status ≡ ProofStatus.completed) × (x.circuit_id ≡ req.circuit_id)
is_match-fits req x h = (ground (arith, h), ground (arith, h, eq_iff x.circuit_id req.circuit_id))

pub fits-is_match :
    (req : ProofRequest) (x : Proof)
    → x.status ≡ ProofStatus.completed
    → x.circuit_id ≡ req.circuit_id
    → is_match req x ≡ true
fits-is_match req x h e = ground (arith, h, e, eq_iff x.circuit_id req.circuit_id)

module _ (p : Prisma) (q : Queries p) (user_id : String) (s : Db p) where
  listed :
      (x : Proof) (did : Did)
      → Memᴰ x (list_by_subject p q did.id s) ↔ (
          ((k : String) × (p.proofs.find k s.proofs ≡ some x)) × ((x.subject_did == did.id) ≡ true))
  listed x did = q.proofs.find_many-Memᴰ (λ y. y.subject_did == did.id) x s.proofs

  -- a proof on a list is of the user's DID, and stored
  pub my_proofs-Memᴰ :
      (x : Proof)
      → Memᴰ x (my_proofs p q user_id s) ↔ (
          (did : Did) × (p.dids.find user_id s.dids ≡ some did)
          × (x.subject_did ≡ did.id)
          × ((k : String) × (p.proofs.find k s.proofs ≡ some x)))
  unfolding my_proofs
  my_proofs-Memᴰ x =
      let mine =
        rows_for-Memᴰ (λ did. list_by_subject p q did.id s) (p.dids.find user_id s.dids) x in
      (
        λ m.
            let (did, e, n) = mine.0 m in
            let (there, same) = (listed x did).0 n in
            (did, e, (eq_iff x.subject_did did.id).0 same, there),
        λ (did, e, same, there).
            mine.1 (did, e, (listed x did).1 (there, (eq_iff x.subject_did did.id).1 same)),
      )

  pub pending_requests-Memᴰ :
      (now : ℕ) (r : ProofRequest)
      → Memᴰ r (pending_requests p q now user_id s)
      → ((k : String) × (p.requests.find k s.requests ≡ some r))
        × (r.status ≡ RequestStatus.pending)
  unfolding pending_requests
  pending_requests-Memᴰ now r m =
      let (did, e, n) =
        (rows_for-Memᴰ (λ did. q.requests.find_many (is_waiting now did.id) s.requests)
            (p.dids.find user_id s.dids) r).0
          m in
      let (there, good) = (q.requests.find_many-Memᴰ (is_waiting now did.id) r s.requests).0 n in
      (there, ground (arith, good))

module _ (p : Prisma) (q : Queries p) (now now' : ℕ) (user_id : String) (s : Db p)
    (proofs_keyed : Keyed p.proofs (λ x. x.id) s.proofs)
    (requests_keyed : Keyed p.requests (λ r. r.id) s.requests) where
  -- For a request of the inbox that is answered in time, the proofs that the card offers are
  -- exactly those with whose id the server approves it.
  pub offered_iff :
      (req : ProofRequest) (proof_id : String)
      → Memᴰ req (pending_requests p q now user_id s)
      → now' ≤ req.expires_at
      → ((x : Proof) × Memᴰ x (matching_proofs req (my_proofs p q user_id s)) × (x.id ≡ proof_id))
        ↔ ((row : ProofRequest) × ((respond p now' req.id user_id proof_id approve s).0 ≡ ok row))
  unfolding matching_proofs
  offered_iff req proof_id m in_time =
      let ((k, there), open_still) = pending_requests-Memᴰ p q user_id s now req m in
      let asked : p.requests.find req.id s.requests ≡ some req =
        subst (λ j. p.requests.find j s.requests ≡ some req) (sym (requests_keyed k req there))
          there in
      (
        λ (x, member, same).
            let (mine, fits) = (filter-Memᴰ (is_match req) x (my_proofs p q user_id s)).0 member in
            let (did, identity, owner, (j, stored)) = (my_proofs-Memᴰ p q user_id s x).0 mine in
            let (completed, circuit) = is_match-fits req x fits in
            let may : MayApprove p now' req.id user_id proof_id s req x did = record {
              asked = asked;
              open_still = open_still;
              in_time = in_time;
              given =
                  subst (λ i. p.proofs.find i s.proofs ≡ some x)
                    (sym (proofs_keyed j x stored) ∙ same) stored;
              identity = identity;
              owner = owner;
              completed = completed;
              circuit = circuit;
            } in
            (
              approved_row p now' req.id user_id proof_id s req did,
              ap (λ r. r.0) (approve_allowed p now' req.id user_id proof_id s req x did may),
            ),
        λ (row, good).
            let (req', x, did, may, same) =
              approve_needs p now' req.id user_id proof_id s row good in
            let one : req' ≡ req = ground (arith, asked, may.asked) in
            (
              x,
              (filter-Memᴰ (is_match req) x (my_proofs p q user_id s)).1 (
                (my_proofs-Memᴰ p q user_id s x).1
                    (did, may.identity, may.owner, (proof_id, may.given)),
                fits-is_match req x may.completed (rw (sym one) may.circuit),
              ),
              proofs_keyed proof_id x may.given,
            ),
      )
