-- ===== src/Web/Generate/Offered.antt =====
-- What the page of proofs offers, against what the server makes a proof of.
use stprivy.Common.{
  ℕ, ◌≡◌, ◌↔◌, refl, sym, ap, ◌∙◌, subst, String, true, false, none, some, ◌==◌, arith, eq_refl,
  inl, inr,
}
use mathlib.Core.List.{Memᴰ}
use stprivy.Common.Tests.{Bool-cases, Option-cases}
use stprivy.Common.Lists.{filter-Memᴰ}
use stprivy.Common.Exec.{ok}
use stprivy.Common.Js.{Js}
use stprivy.Domain.{Did, Credential, Proof, ProofRequest}
use stprivy.Domain.Db.{Prisma, Db}
use stprivy.Domain.Queries.{Queries, Keyed}
use stprivy.Credential.Lists.{my_credentials, my_credentials-Memᴰ}
use stprivy.Proof.Service.{generate_proof}
use stprivy.Proof.Service.Generate.{
  MayProve, generated_row, after_generate, generate_proof_allowed, generate_proof_needs,
}
use stprivy.Proof.Controller.{generate}
use stprivy.Request.Dto.{Validators, GenerateBody, is_circuit, valid_generate, generate_route}
use stprivy.Proof.Service.{is_active}
use stprivy.Web.Generate.{
  active_credentials, generate_schema, submit_generate, made_status, proof_result, proof_interval,
}
use stprivy.Web.Respond.{is_match, matching_proofs}
use stprivy.Web.Respond.Offers.{my_proofs-Memᴰ, fits-is_match}
use stprivy.Proof.Lists.{my_proofs}

module _ (p : Prisma) (js : Js) (v : Validators js) (q : Queries p) (user_id : String) (s : Db p)
    (keyed : Keyed p.credentials (λ c. c.id) s.credentials) where
  offered-Memᴰ :
      (c : Credential)
      → Memᴰ c (active_credentials (my_credentials p q user_id s))
        ↔ (Memᴰ c (my_credentials p q user_id s) × (is_active c.status ≡ true))
  unfolding active_credentials
  offered-Memᴰ c = filter-Memᴰ (λ x. is_active x.status) c (my_credentials p q user_id s)

  submit-generate_route :
      (id : String) (now : ℕ) (values body : GenerateBody)
      → submit_generate values ≡ some body
      → generate_route js v p id now user_id body s
        ≡ generate p js id now user_id values.credential_id values.circuit_id s
  unfolding submit_generate generate_schema generate_route valid_generate
  submit-generate_route id now values body h = elim (Bool-cases (generate_schema values)) [
    | inl hit ↦
        let same : values ≡ body = ground (arith, hit, h) in
        let given : (values.credential_id == "") ≡ false = ground (arith, hit) in
        let circuit : is_circuit values.circuit_id ≡ true = ground (arith, hit) in
        rw (sym same, v.is_not_empty_lem, given, circuit) refl
    | inr miss ↦ absurd (ground (arith, miss, h))
  ]

  -- what makes `generate` answer with a proof
  generate-made :
      (id : String) (now : ℕ) (credential_id circuit_id : String) (did : Did) (c : Credential)
      → p.dids.find user_id s.dids ≡ some did
      → (may : MayProve p js id now did.id credential_id circuit_id s c)
      → generate p js id now user_id credential_id circuit_id s ≡ (
        ok (generated_row p js id now did.id credential_id circuit_id s c),
        after_generate p js id now did.id credential_id circuit_id s c,
      )
  generate-made id now credential_id circuit_id did c identity may =
      unfold generate in
      (rw identity (generate_proof_allowed p js id now did.id credential_id circuit_id s c may))

  generate-needs :
      (id : String) (now : ℕ) (credential_id circuit_id : String) (row : Proof)
      → (generate p js id now user_id credential_id circuit_id s).0 ≡ ok row
      → (did : Did) × (c : Credential) × (p.dids.find user_id s.dids ≡ some did)
        × MayProve p js id now did.id credential_id circuit_id s c
        × (row ≡ generated_row p js id now did.id credential_id circuit_id s c)
  unfolding generate
  generate-needs id now credential_id circuit_id row h =
      elim (Option-cases (p.dids.find user_id s.dids)) [
        | inl e ↦ absurd (ground (arith, e, h))
        | inr (did, e) ↦
            let made : (generate_proof p js id now did.id credential_id circuit_id s).0 ≡ ok row =
              ground (arith, e, h) in
            let (c, may, same) =
              generate_proof_needs p js id now did.id credential_id circuit_id s row made in
            (did, c, e, may, same)
      ]

  -- The credentials that the page offers are exactly those of which the server makes a proof: a
  -- submission that passes the form's generate_schema, under an id that is free, is answered with a proof if
  -- and only if its credential is on offer.
  pub generate_offered :
      (id : String) (now : ℕ) (values body : GenerateBody)
      → p.proofs.find id s.proofs ≡ none
      → submit_generate values ≡ some body
      → ((c : Credential) × Memᴰ c (active_credentials (my_credentials p q user_id s))
          × (c.id ≡ values.credential_id))
        ↔ ((row : Proof) × ((generate_route js v p id now user_id body s).0 ≡ ok row))
  generate_offered id now values body fresh sent =
      rw (submit-generate_route id now values body sent) (
        λ (c, m, named).
            let (mine, active) = (offered-Memᴰ c).0 m in
            let (did, identity, owner, (k, stored)) =
              (my_credentials-Memᴰ p q user_id c s).0 mine in
            let may : MayProve p js id now did.id values.credential_id values.circuit_id s c =
              record {
                stored =
                    subst (λ j. p.credentials.find j s.credentials ≡ some c)
                      (sym (keyed k c stored) ∙ named) stored;
                owner = owner;
                active = ground (arith, active);
                fresh = fresh;
              } in
            (
              generated_row p js id now did.id values.credential_id values.circuit_id s c,
              ap (λ r. r.0)
                  (generate-made id now values.credential_id values.circuit_id did c identity may),
            ),
        λ (row, good).
            let (did, c, identity, may, same) =
              generate-needs id now values.credential_id values.circuit_id row good in
            (
              c,
              (offered-Memᴰ c).1 (
                (my_credentials-Memᴰ p q user_id c s).1
                    (did, identity, may.owner, (values.credential_id, may.stored)),
                ground (arith, may.active),
              ),
              keyed values.credential_id c may.stored,
            ),
      )

  generated-matching :
      (id : String) (now : ℕ) (credential_id circuit_id : String) (did : Did) (c : Credential)
      → p.dids.find user_id s.dids ≡ some did
      → (req : ProofRequest) → req.circuit_id ≡ circuit_id
      → Memᴰ (generated_row p js id now did.id credential_id circuit_id s c) (
          matching_proofs req (
            my_proofs p q user_id (after_generate p js id now did.id credential_id circuit_id s c)))
  unfolding matching_proofs
  generated-matching id now credential_id circuit_id did c identity req circuit =
      let row = generated_row p js id now did.id credential_id circuit_id s c in
      let s' = after_generate p js id now did.id credential_id circuit_id s c in
      (filter-Memᴰ (is_match req) row (my_proofs p q user_id s')).1 (
        (my_proofs-Memᴰ p q user_id s' row).1
            (did, identity, refl, (id, rw (p.proofs.find-put, eq_refl id) refl)),
        fits-is_match req row refl (sym circuit),
      )

  -- A proof that the server has made for the page is ready at once: the page shows it as generated
  -- with its id and stops polling, and from then on the page of requests offers it for every
  -- request for its circuit.
  pub generate_ready :
      (id : String) (now : ℕ) (values body : GenerateBody) (row : Proof) (req : ProofRequest)
      → submit_generate values ≡ some body
      → (generate_route js v p id now user_id body s).0 ≡ ok row
      → req.circuit_id ≡ values.circuit_id
      → let s' = (generate_route js v p id now user_id body s).1 in
        (proof_result false false (some row) ≡ made_status row.id)
        × (proof_interval (some row) ≡ none)
        × Memᴰ row (matching_proofs req (my_proofs p q user_id s'))
  unfolding proof_result proof_interval
  generate_ready id now values body row req sent h circuit =
      let route = submit-generate_route id now values body sent in
      let good : (generate p js id now user_id values.credential_id values.circuit_id s).0
          ≡ ok row =
        rw (sym route) h in
      let (did, c, identity, may, same) =
        generate-needs id now values.credential_id values.circuit_id row good in
      let made = generate-made id now values.credential_id values.circuit_id did c identity may in
      rw (route, made, same)
        (
          refl,
          refl,
          generated-matching id now values.credential_id values.circuit_id did c identity req
              circuit,
        )
