-- ===== src/Web/Respond/Cards.antt =====
-- What a card's buttons come to on the server.
use stprivy.Common.{
  ℕ, ◌≤◌, ◌≡◌, ◌⊎◌, inl, inr, refl, sym, ap, ◌∙◌, subst, String, false, some, List, [], ◌∷◌, ◌==◌,
  arith,
}
use mathlib.Core.List.{Memᴰ}
use stprivy.Common.Tests.{Bool-cases}
use stprivy.Common.Lists.{filter-Memᴰ}
use stprivy.Common.Exec.{ok, err}
use stprivy.Common.Js.{Js}
use stprivy.Domain.{Proof, ProofRequest}
use stprivy.Domain.Db.{Prisma, Db}
use stprivy.Domain.Queries.{Queries, Keyed}
use stprivy.Request.{approve}
use stprivy.Request.Dto.{Validators, RespondBody, valid_respond, respond_route, invalid}
use stprivy.Proof.Lists.{my_proofs, pending_requests}
use stprivy.Web.Respond.{
  Card, Turn, rendered, chosen, sent, ended, Visited, mounted, turned, renderings, first_id,
  is_match, matching_proofs, mount, can_approve, press_approve, press_reject,
}
use stprivy.Web.Respond.Offers.{offered_iff}

module _ (req : ProofRequest) (known : List Proof) where
  -- The chosen proof is one that `known` offers, unless none was there to choose.
  Chosen : Card → Type 0
  Chosen c =
      (c.chosen_proof_id ≡ "")
      ⊎ ((x : Proof) × Memᴰ x (matching_proofs req known) × (x.id ≡ c.chosen_proof_id))

  offered-known :
      (proofs : List Proof) (x : Proof)
      → ((y : Proof) → Memᴰ y proofs → Memᴰ y known)
      → Memᴰ x (matching_proofs req proofs)
      → Memᴰ x (matching_proofs req known)
  unfolding matching_proofs
  offered-known proofs x held m =
      let (there, fits) = (filter-Memᴰ (is_match req) x proofs).0 m in
      (filter-Memᴰ (is_match req) x known).1 (held x there, fits)

  first-Chosen :
      (offered : List Proof)
      → ((x : Proof) → Memᴰ x offered → Memᴰ x (matching_proofs req known))
      → (first_id offered ≡ "")
        ⊎ ((x : Proof) × Memᴰ x (matching_proofs req known) × (x.id ≡ first_id offered))
  first-Chosen [] held = inl refl
  first-Chosen (x ∷ xs) held = inr (x, held x (Memᴰ.head refl), refl)

  Held : Card → Type 0
  Held c = (x : Proof) → Memᴰ x c.proofs → Memᴰ x known

  Turn-Chosen : (c d : Card) → Turn req known c d → Chosen c × Held c → Chosen d × Held d
  unfolding Chosen Held
  Turn-Chosen c d (rendered c' proofs later) (choice, held) = (choice, later)
  Turn-Chosen c d (chosen c' x m) (choice, held) =
      (inr (x, offered-known c'.proofs x held m, refl), held)
  Turn-Chosen c d (sent c' still) good = good
  Turn-Chosen c d (ended c' error) good = good

  Visited-Chosen : (c : Card) → Visited req known c → Chosen c × Held c
  unfolding Chosen Held mount
  Visited-Chosen c (mounted proofs held) =
      (first-Chosen (matching_proofs req proofs) (λ x. offered-known proofs x held), held)
  Visited-Chosen d (turned {c} visited turn) = Turn-Chosen c d turn (Visited-Chosen c visited)

module _ (p : Prisma) (js : Js) (v : Validators js) (q : Queries p) (now now' : ℕ)
    (user_id : String) (s : Db p) (req : ProofRequest) where
  -- Whatever a card has been through, what its button to approve sends is accepted: when the card
  -- is of a request in the user's inbox that is answered in time, and it was only ever rendered
  -- with proofs that the server lists for the user, the server approves the request.
  pub press_approve-accepted :
      Keyed p.proofs (λ x. x.id) s.proofs
      → Keyed p.requests (λ r. r.id) s.requests
      → Memᴰ req (pending_requests p q now user_id s)
      → now' ≤ req.expires_at
      → (c : Card) → Visited req (my_proofs p q user_id s) c
      → (body : RespondBody) → press_approve req c ≡ some body
      → (row : ProofRequest) × ((respond_route js v p now' req.id user_id body s).0 ≡ ok row)
  unfolding press_approve can_approve respond_route valid_respond Chosen
  press_approve-accepted proofs_keyed requests_keyed waiting in_time c visited body h =
      let may : (c.chosen_proof_id == "") ≡ false = ground (arith, h) in
      let same : (record { proof_id = c.chosen_proof_id; decision = approve }) ≡ body =
        ground (arith, h) in
      elim (Visited-Chosen req (my_proofs p q user_id s) c visited).0 [
        | inl bare ↦ absurd (ground (arith, subst (λ t. (t == "") ≡ false) bare may))
        | inr (x, m, named) ↦
            let (row, good) =
              (offered_iff p q now now' user_id s proofs_keyed requests_keyed req c.chosen_proof_id
                  waiting in_time).0
                (x, m, named) in
            (row, rw (sym same, v.is_not_empty_lem, may) good)
      ]

  -- What the button to reject sends is refused by the server's validation, since its proof is the
  -- empty text, and changes nothing.
  pub press_reject-refused :
      (c : Card) (body : RespondBody)
      → press_reject req c ≡ some body
      → respond_route js v p now' req.id user_id body s ≡ (err (invalid js v), s)
  unfolding press_reject respond_route valid_respond
  press_reject-refused c body h =
      let empty : body.proof_id ≡ "" = ground (arith, h) in rw (v.is_not_empty_lem, empty) refl

unchosen : (req : ProofRequest) (c : Card) → c.chosen_proof_id ≡ "" → can_approve req c ≡ false
unfolding can_approve
unchosen req c bare = elim (Bool-cases (can_approve req c)) [
  | inl hit ↦
      let may : (c.chosen_proof_id == "") ≡ false = ground (arith, hit) in
      absurd (ground (arith, subst (λ t. (t == "") ≡ false) bare may))
  | inr miss ↦ miss
]

renderings-kept :
    (req : ProofRequest) (later : List (List Proof)) (c : Card)
    → (renderings req later c).chosen_proof_id ≡ c.chosen_proof_id
unfolding renderings
renderings-kept req [] c = refl
renderings-kept req (proofs ∷ later) c = renderings-kept req later (record c { proofs = proofs })

-- A card that was mounted before there was a proof for it cannot be approved, whatever proofs it is
-- rendered with later, until an option is chosen.
pub renderings-stuck :
    (req : ProofRequest) (early : List Proof) (later : List (List Proof))
    → matching_proofs req early ≡ []
    → can_approve req (renderings req later (mount req early)) ≡ false
unfolding mount
renderings-stuck req early later none_yet =
    let bare : (renderings req later (mount req early)).chosen_proof_id ≡ "" =
      renderings-kept req later (mount req early) ∙ ap first_id none_yet in
    unchosen req (renderings req later (mount req early)) bare
