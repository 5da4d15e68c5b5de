-- ===== src/Web/ProofDetails/Verdict.antt =====
-- What the page of a proof tells of its verification.
use stprivy.Common.{ℕ, String, false, none, some, ◌≡◌, refl, ap, inl, inr, arith, ◌==◌}
use stprivy.Common.Tests.{Option-cases}
use stprivy.Common.Exec.{ok}
use stprivy.Common.Js.{Js}
use stprivy.Domain.{Did, Proof, ProofStatus}
use stprivy.Domain.Db.{Prisma, Db}
use stprivy.Proof.Service.{Contract, has_proof, anchor}
use stprivy.Proof.Service.Verify.{report, verify_proof_lem}
use stprivy.Proof.Controller.{get_one, verify}
use stprivy.Request.Dto.{Validators, verify_route}
use stprivy.Web.ProofDetails.{
  idle, button, told, verdict_text, verify_card, card_of, after_call, press_verify,
}

module _ (js : Js) (v : Validators js) (p : Prisma) where
  get_one-found :
      (id user_id : String) (s : Db p) (proof : Proof)
      → (get_one p js id user_id s).0 ≡ ok proof
      → (p.proofs.find id s.proofs ≡ some proof)
        × ((did : Did) × (p.dids.find user_id s.dids ≡ some did))
  unfolding get_one
  get_one-found id user_id s proof h = elim (Option-cases (p.proofs.find id s.proofs)) [
    | inl f ↦ absurd (ground (arith, f, h))
    | inr (x, f) ↦ elim (Option-cases (p.dids.find user_id s.dids)) [
      | inl e ↦ absurd (ground (arith, e, f, h))
      | inr (did, e) ↦ (ground (arith, e, f, h), (did, e))
    ]
  ]

  verify_route-reports :
      (contract : Contract) (id : String) (now : ℕ) (user_id proof_id : String) (s : Db p)
      (did : Did) (proof : Proof)
      → (proof_id == "") ≡ false
      → p.dids.find user_id s.dids ≡ some did
      → p.proofs.find proof_id s.proofs ≡ some proof
      → proof.status ≡ ProofStatus.completed
      → p.verifications.find id s.verifications ≡ none
      → (verify_route js v p contract id now user_id proof_id s).0
        ≡ ok (report p js id now proof_id did.id s contract proof)
  unfolding verify_route verify
  verify_route-reports contract id now user_id proof_id s did proof named e f done fresh = ground (
    arith,
    named,
    v.is_not_empty_lem proof_id,
    e,
    verify_proof_lem p js id now proof_id did.id s contract proof f done fresh,
  )

  -- The page that shows a completed proof to its owner has a button to verify it, and the verdict
  -- that the page shows after the button was pressed is whether the proof has an artifact, whatever
  -- the contract answers; only the transaction beside it is the contract's. The new
  -- verification's id is a new one.
  pub press_verify-shows :
      (contract : Contract) (id : String) (now : ℕ) (user_id proof_id : String) (s : Db p)
      (proof : Proof)
      → (proof_id == "") ≡ false
      → (get_one p js proof_id user_id s).0 ≡ ok proof
      → proof.status ≡ ProofStatus.completed
      → p.verifications.find id s.verifications ≡ none
      → (card_of proof.status idle ≡ some (button none false))
        × (verify_card (press_verify (verify_route js v p contract id now user_id) proof_id s).0
            ≡ told
                (verdict_text (has_proof proof.artifact))
                (anchor p js contract proof.circuit_id proof.artifact))
  unfolding press_verify verify_card report
  press_verify-shows contract id now user_id proof_id s proof named shown done fresh =
      let (f, (did, e)) = get_one-found proof_id user_id s proof shown in
      let answer =
        verify_route-reports contract id now user_id proof_id s did proof named e f done fresh in
      (rw done refl, ap (λ r. verify_card (after_call r)) answer)
