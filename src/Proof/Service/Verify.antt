-- ===== src/Proof/Service/Verify.antt =====
-- What `verifyProof` reports, and what its report does not depend on.
use stprivy.Common.{
  ℕ, String, Bool, true, Option, none, some, ◌≡◌, inl, inr, ap, refl, arith, eq_refl, ◌∙◌,
}
use stprivy.Common.Tests.{Option-cases}
use stprivy.Common.Exec.{Result, ok, err, Error}
use stprivy.Common.Js.{Js}
use stprivy.Domain.{Credential, Proof, ProofStatus, ProofVerification}
use stprivy.Domain.Db.{Prisma, Db}
use stprivy.Proof.Encode.{encode_groth16_proof}
use stprivy.Proof.Service.{mock_artifact, Contract, has_proof, generate_proof, anchor, verify_proof}
use stprivy.Proof.Service.Generate.{MayProve, generated_row, generate_proof_allowed}

abbrev pub same_report : Result ProofVerification → Option Bool
same_report (ok v) = some v.result
same_report (err e) = none

module _ (p : Prisma) (js : Js) where
  module _ (id : String) (now : ℕ) (proof_id verifier_did : String) (s : Db p) where
    unfoldable pub report : Contract → Proof → ProofVerification
    report c proof = record {
      id = id;
      proof_id = proof_id;
      verifier_did = verifier_did;
      result = has_proof proof.artifact;
      on_chain_tx_hash = anchor p js c proof.circuit_id proof.artifact;
      metadata = proof.artifact;
    }

    pub verify_proof_lem :
        (c : Contract) (proof : Proof)
        → p.proofs.find proof_id s.proofs ≡ some proof
        → proof.status ≡ ProofStatus.completed
        → p.verifications.find id s.verifications ≡ none
        → (verify_proof p js c id now proof_id verifier_did s).0 ≡ ok (report c proof)
    unfolding verify_proof report
    verify_proof_lem c proof found done fresh =
        ground (arith, found, p.verifications.create_lem id (report c proof) s.verifications)

    -- Whatever the contract answers, the verdict that is stored is the same: it says whether the
    -- proof has an artifact, and not whether the contract accepted it.
    pub verdict_ignores_contract :
        (c : Contract) (proof : Proof)
        → p.proofs.find proof_id s.proofs ≡ some proof
        → proof.status ≡ ProofStatus.completed
        → p.verifications.find id s.verifications ≡ none
        → same_report (verify_proof p js c id now proof_id verifier_did s).0
          ≡ some (has_proof proof.artifact)
    unfolding report
    verdict_ignores_contract c proof found done fresh =
        ap same_report (verify_proof_lem c proof found done fresh)

    -- A proof that is missing or not complete is refused, and nothing is written.
    pub verify_proof_refused :
        (c : Contract) (e : Error)
        → (verify_proof p js c id now proof_id verifier_did s).0 ≡ err e
        → (verify_proof p js c id now proof_id verifier_did s).1 ≡ s
    unfolding verify_proof report
    verify_proof_refused c e h = elim (Option-cases (p.proofs.find proof_id s.proofs)) [
      | inl f ↦ ground (arith, f)
      | inr (proof, f) ↦
          ground (arith, f, p.verifications.create_lem id (report c proof) s.verifications)
    ]

  -- A proof that `generateProof` has just made for any circuit and any claims is reported as valid
  -- by `verifyProof`, with no transaction, whatever the contract would answer.
  pub generated_verifies :
      (id : String) (now : ℕ) (subject_did credential_id circuit_id : String) (s : Db p)
      (contract : Contract) (id' : String) (now' : ℕ) (verifier_did : String) (c : Credential)
      → MayProve p js id now subject_did credential_id circuit_id s c
      → p.verifications.find id' s.verifications ≡ none
      → (verify_proof p js contract id' now' id verifier_did
          (generate_proof p js id now subject_did credential_id circuit_id s).1).0
        ≡ ok (record {
          id = id';
          proof_id = id;
          verifier_did = verifier_did;
          result = true;
          on_chain_tx_hash = none;
          metadata = some (mock_artifact js now circuit_id c.claims);
        })
  unfolding report anchor mock_artifact encode_groth16_proof
  generated_verifies id now subject_did credential_id circuit_id s contract id' now' verifier_did c
        m fresh =
      let row = generated_row p js id now subject_did credential_id circuit_id s c in
      rw (generate_proof_allowed p js id now subject_did credential_id circuit_id s c m) (
        verify_proof_lem id' now' id verifier_did _ contract row
          (p.proofs.find-put id id row s.proofs ∙ rw (eq_refl id)) refl fresh)
