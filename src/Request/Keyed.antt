-- ===== src/Request/Keyed.antt =====
-- Proofs and requests stand under their own ids, under every sequence of the proof controller's
-- calls: the pages name a row by the id that it shows.
use stprivy.Common.{ℕ, refl, String, List, [], ◌∷◌, inl, inr}
use stprivy.Common.Tests.{Option-cases}
use stprivy.Common.Exec.{Result-cases}
use stprivy.Common.Js.{Js}
use stprivy.Domain.{Proof, ProofRequest}
use stprivy.Domain.Db.{Prisma, Db}
use stprivy.Domain.Queries.{Keyed, Keyed-put}
use stprivy.Request.{RequestBody, create}
use stprivy.Request.Lifecycle.{
  Call, creates, responds, generates, verifies, call, calls, Change, nothing, closes, grants,
  respond-Change, verify-requests,
}
use stprivy.Request.Justified.{verify-proofs}
use stprivy.Proof.Service.{generate_proof}
use stprivy.Proof.Service.Generate.{
  generate_proof_allowed, generate_proof_needs, generate_proof_refused,
}
use stprivy.Proof.Controller.{generate}

module _ (p : Prisma) where
  abbrev pub OwnKeys : Db p → Type 0
  OwnKeys s =
      Keyed p.proofs (λ (x : Proof). x.id) s.proofs
      × Keyed p.requests (λ (r : ProofRequest). r.id) s.requests

  create-OwnKeys :
      (id : String) (now : ℕ) (user_id : String) (body : RequestBody) (s : Db p)
      → OwnKeys s
      → OwnKeys (create p id now user_id body s).1
  create-OwnKeys id now user_id body s (proofs, requests) =
      elim (Option-cases (p.dids.find user_id s.dids)) [
        | inl g ↦ unfold create in (rw g (proofs, requests))
        | inr (did, g) ↦ elim (Option-cases (p.requests.find id s.requests)) [
          | inl e ↦
              unfold create in
              (rw (g, p.requests.create_lem, e)
                (proofs, Keyed-put p.requests (λ r. r.id) id _ s.requests refl requests))
          | inr (req, e) ↦ unfold create in (rw (g, p.requests.create_lem, e) (proofs, requests))
        ]
      ]

  Change-OwnKeys :
      (now : ℕ) (id user_id proof_id : String) (s t : Db p)
      → Change p now id user_id proof_id s t
      → OwnKeys s
      → OwnKeys t
  Change-OwnKeys now id user_id proof_id s t (nothing same) good = rw same good
  Change-OwnKeys now id user_id proof_id s t (closes req e h status step other same)
        (proofs, requests) =
      rw same
        (proofs, Keyed-put p.requests (λ r. r.id) id _ s.requests (requests id req e) requests)
  Change-OwnKeys now id user_id proof_id s t (grants req proof did may same) (proofs, requests) =
      rw same (
        proofs,
        Keyed-put p.requests (λ r. r.id) id _ s.requests (requests id req may.asked) requests,
      )

module _ (p : Prisma) (js : Js) where
  generate_proof-OwnKeys :
      (id : String) (now : ℕ) (did credential_id circuit_id : String) (s : Db p)
      → OwnKeys p s
      → OwnKeys p (generate_proof p js id now did credential_id circuit_id s).1
  generate_proof-OwnKeys id now did credential_id circuit_id s (proofs, requests) =
      elim (Result-cases (generate_proof p js id now did credential_id circuit_id s).0) [
        | inl (row, good) ↦
            let (c, may, same) =
              generate_proof_needs p js id now did credential_id circuit_id s row good in
            rw (generate_proof_allowed p js id now did credential_id circuit_id s c may)
              (Keyed-put p.proofs (λ x. x.id) id _ s.proofs refl proofs, requests)
        | inr (e, bad) ↦
            rw (generate_proof_refused p js id now did credential_id circuit_id s e bad)
              (proofs, requests)
      ]

  generate-OwnKeys :
      (id : String) (now : ℕ) (user_id credential_id circuit_id : String) (s : Db p)
      → OwnKeys p s
      → OwnKeys p (generate p js id now user_id credential_id circuit_id s).1
  generate-OwnKeys id now user_id credential_id circuit_id s good =
      unfold generate in
      elim (Option-cases (p.dids.find user_id s.dids)) [
        | inl e ↦ rw e good
        | inr (did, e) ↦ rw e (generate_proof-OwnKeys id now did.id credential_id circuit_id s good)
      ]

  call-OwnKeys : (c : Call) (s : Db p) → OwnKeys p s → OwnKeys p (call p js c s)
  unfolding call
  call-OwnKeys (creates id now user_id body) s good = create-OwnKeys p id now user_id body s good
  call-OwnKeys (responds now id user_id proof_id decision) s good =
      Change-OwnKeys p now id user_id proof_id s _
        (respond-Change p now id user_id proof_id s decision) good
  call-OwnKeys (generates id now user_id credential_id circuit_id) s good =
      generate-OwnKeys id now user_id credential_id circuit_id s good
  call-OwnKeys (verifies contract id now user_id proof_id) s (proofs, requests) = (
    rw (verify-proofs p js contract id now user_id proof_id s) proofs,
    rw (verify-requests p js contract id now user_id proof_id s) requests,
  )

  -- Whatever calls of the controller are made: if every proof and every request stands under its
  -- own id, then so it is afterwards.
  pub calls-OwnKeys : (cs : List Call) (s : Db p) → OwnKeys p s → OwnKeys p (calls p js cs s)
  unfolding calls
  calls-OwnKeys [] s good = good
  calls-OwnKeys (c ∷ cs) s good = calls-OwnKeys cs (call p js c s) (call-OwnKeys c s good)
