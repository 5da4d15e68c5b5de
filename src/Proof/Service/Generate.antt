-- ===== src/Proof/Service/Generate.antt =====
-- When `generateProof` makes a proof, and what it stores.
use stprivy.Common.{ℕ, String, none, some, ◌∷◌, ◌≡◌, inl, inr, arith, eq_iff}
use stprivy.Common.Tests.{Option-cases}
use stprivy.Common.Exec.{ok, err, Error}
use stprivy.Common.Js.{Js}
use stprivy.Domain.{Credential, CredentialStatus, Proof, ProofStatus, DomainEvent, EventName}
use stprivy.Domain.Db.{Prisma, Db}
use stprivy.Proof.Service.{mock_artifact, generate_proof}

module _ (p : Prisma) (js : Js) (id : String) (now : ℕ)
    (subject_did credential_id circuit_id : String) (s : Db p) where
  abbrev pub generated_row : Credential → Proof
  generated_row c = record {
    id = id;
    subject_did = subject_did;
    credential_id = credential_id;
    circuit_id = circuit_id;
    artifact = some (mock_artifact js now circuit_id c.claims);
    generated_at = some now;
    status = ProofStatus.completed;
  }

  pub record MayProve (c : Credential) : Type 0 where
    pub stored : p.credentials.find credential_id s.credentials ≡ some c
    pub owner : c.subject_did ≡ subject_did
    pub active : c.status ≡ CredentialStatus.active
    pub fresh : p.proofs.find id s.proofs ≡ none

  abbrev pub generated_event : DomainEvent
  generated_event = record {
    name = EventName.proof_generated;
    actor_did = subject_did;
    subject_did = none;
    resource_id = id;
    timestamp = now;
  }

  abbrev pub after_generate : Credential → Db p
  after_generate c = record s {
    proofs = p.proofs.put id (generated_row c) s.proofs;
    events = generated_event ∷ s.events;
  }

  -- For an active credential of the caller, and an id that is not taken, the proof is made: it is
  -- complete, carries the mock artifact of the credential's claims, is stored, and is announced.
  pub generate_proof_allowed :
      (c : Credential)
      → MayProve c
      → generate_proof p js id now subject_did credential_id circuit_id s ≡ (
        ok (generated_row c),
        record s {
          proofs = p.proofs.put id (generated_row c) s.proofs;
          events = generated_event ∷ s.events;
        },
      )
  unfolding generate_proof
  generate_proof_allowed c m = ground (
    arith,
    m,
    eq_iff c.subject_did subject_did,
    p.proofs.create_lem id (generated_row c) s.proofs,
  )

  -- Nothing else makes a proof: one that comes back is of an active credential of the caller.
  pub generate_proof_needs :
      (row : Proof)
      → (generate_proof p js id now subject_did credential_id circuit_id s).0 ≡ ok row
      → (c : Credential) × MayProve c × (row ≡ generated_row c)
  unfolding generate_proof
  generate_proof_needs row h =
      elim (Option-cases (p.credentials.find credential_id s.credentials)) [
        | inl e ↦ ground (arith, e)
        | inr (c, e) ↦ (
          c,
          ground (
            arith,
            e,
            eq_iff c.subject_did subject_did,
            p.proofs.create_lem id (generated_row c) s.proofs,
          ),
          ground (arith, e, p.proofs.create_lem id (generated_row c) s.proofs),
        )
      ]

  -- A refused call has written nothing and announced nothing.
  pub generate_proof_refused :
      (e : Error)
      → (generate_proof p js id now subject_did credential_id circuit_id s).0 ≡ err e
      → (generate_proof p js id now subject_did credential_id circuit_id s).1 ≡ s
  unfolding generate_proof
  generate_proof_refused e h =
      elim (Option-cases (p.credentials.find credential_id s.credentials)) [
        | inl f ↦ ground (arith, f)
        | inr (c, f) ↦ ground (arith, f, p.proofs.create_lem id (generated_row c) s.proofs)
      ]
