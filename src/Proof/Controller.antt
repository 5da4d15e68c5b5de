-- ===== src/Proof/Controller.antt =====
-- The routes of proof.controller.ts that call the proof service, and the one that shows a proof.
use stprivy.Common.{
  ℕ, ◌≡◌, ◌≢◌, subst, refl, ap, String, Bool, true, not, Option, none, some, ◌==◌, arith, eq_iff,
  eq_refl, inl, inr,
}
use stprivy.Common.Tests.{Option-cases}
use stprivy.Common.Exec.{
  Exec, Error, ok, err, bad_request, forbidden, throws, require, throw_if, gets, pure, ◌>>=◌, ◌>>◌,
}
use stprivy.Common.Js.{Js}
use stprivy.Domain.{Did, Proof, ProofVerification}
use stprivy.Domain.Db.{Prisma, Db}
use stprivy.Proof.Service.{Contract, generate_proof, verify_proof, no_proof}
use stprivy.Proof.Service.Generate.{generate_proof_allowed, generate_proof_needs}

abbrev pub did_first : Error
did_first = throws bad_request "Create your DID first via POST /did/create"

abbrev pub no_access : Error
no_access = throws forbidden "Forbidden"

-- `!did || proof.subjectDID !== did.id`
abbrev pub is_foreign : Option Did → Proof → Bool
is_foreign none proof = true
is_foreign (some did) proof = not (proof.subject_did == did.id)

module _ (p : Prisma) (js : Js) where
  -- `getOne`
  unfoldable pub get_one : (id user_id : String) → Exec (Db p) Proof
  get_one id user_id = do
    did ← gets (λ s. p.dids.find user_id s.dids)
    found ← gets (λ s. p.proofs.find id s.proofs)
    proof ← require no_proof found
    throw_if (is_foreign did proof) no_access
    pure proof

  -- `generate`; `id` is the new row's id
  unfoldable pub generate :
      (id : String) (now : ℕ) (user_id credential_id circuit_id : String) → Exec (Db p) Proof
  generate id now user_id credential_id circuit_id = do
    found ← gets (λ s. p.dids.find user_id s.dids)
    did ← require did_first found
    generate_proof p js id now did.id credential_id circuit_id

  -- `verify`
  unfoldable pub verify :
      Contract → (id : String) (now : ℕ) (user_id proof_id : String) → Exec (Db p) ProofVerification
  verify contract id now user_id proof_id = do
    found ← gets (λ s. p.dids.find user_id s.dids)
    did ← require did_first found
    verify_proof p js contract id now proof_id did.id

  get_one_lem :
      (id user_id : String) (s : Db p) (did : Did) (proof : Proof)
      → p.dids.find user_id s.dids ≡ some did
      → p.proofs.find id s.proofs ≡ some proof
      → proof.subject_did ≡ did.id
      → get_one id user_id s ≡ (ok proof, s)
  unfolding get_one
  get_one_lem id user_id s did proof e f g =
      ground (arith, e, f, g, eq_iff proof.subject_did did.id)

  get_one-foreign :
      (id user_id : String) (s : Db p) (proof : Proof)
      → p.proofs.find id s.proofs ≡ some proof
      → ((did : Did) → p.dids.find user_id s.dids ≡ some did → proof.subject_did ≢ did.id)
      → get_one id user_id s ≡ (err no_access, s)
  unfolding get_one
  get_one-foreign id user_id s proof f other = elim (Option-cases (p.dids.find user_id s.dids)) [
    | inl e ↦ ground (arith, e, f)
    | inr (did, e) ↦ ground (arith, e, f, eq_iff proof.subject_did did.id, other did e)
  ]

  -- A proof that a user has generated is shown to this user as it was answered, and a user who has
  -- no DID or another one is refused it.
  pub generate-get_one :
      (id : String) (now : ℕ) (user_id other credential_id circuit_id : String) (s : Db p)
      (row : Proof)
      → (generate id now user_id credential_id circuit_id s).0 ≡ ok row
      → ((did : Did) → p.dids.find other s.dids ≡ some did → row.subject_did ≢ did.id)
      → let s' = (generate id now user_id credential_id circuit_id s).1 in
        (get_one id user_id s' ≡ (ok row, s')) × (get_one id other s' ≡ (err no_access, s'))
  unfolding generate
  generate-get_one id now user_id other credential_id circuit_id s row h foreign =
      elim (Option-cases (p.dids.find user_id s.dids)) [
        | inl e ↦ absurd (ground (arith, e, h))
        | inr (did, e) ↦
            let made : (generate_proof p js id now did.id credential_id circuit_id s).0 ≡ ok row =
              ground (arith, e, h) in
            let (c, may, same) =
              generate_proof_needs p js id now did.id credential_id circuit_id s row made in
            let allowed =
              generate_proof_allowed p js id now did.id credential_id circuit_id s c may in
            let s' = (generate_proof p js id now did.id credential_id circuit_id s).1 in
            let stored : p.proofs.find id s'.proofs ≡ some row =
              rw (allowed, same) (rw (p.proofs.find-put, eq_refl id) refl) in
            let kept : s'.dids ≡ s.dids = rw allowed refl in
            rw e (
              get_one_lem id user_id s' did row (rw kept e) stored
                  (ap (λ (x : Proof). x.subject_did) same),
              get_one-foreign id other s' row stored
                  (λ d k. foreign d (subst (λ t. p.dids.find other t ≡ some d) kept k)),
            )
      ]
