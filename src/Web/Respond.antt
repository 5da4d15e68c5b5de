-- ===== src/Web/Respond.antt =====
-- The page on which a subject answers requests, apps/web/src/app/kyc/respond/page.tsx: what a card
-- offers, shows and sends. `proofs` is what `useProofs` holds, the rows of `GET /proofs`.
pub mod Offers
pub mod Cards
use stprivy.Common.{
  ℕ, String, Bool, true, false, not, ◌&&◌, Option, none, some, List, [], ◌∷◌, map, ◌==◌, ◌≡◌,
}
use stprivy.Common.Tests.{if◌then◌else◌}
use stprivy.Common.Lists.{filter}
use mathlib.Core.List.{Memᴰ}
use stprivy.Domain.{Proof, ProofRequest, RequestStatus}
use stprivy.Request.Dto.{RespondBody}
use stprivy.Request.{approve, reject, is_pending, is_completed}

-- `CIRCUIT_LABELS`
abbrev pub circuit_label : String → Option String
circuit_label circuit =
    if circuit == "age-proof"
    then some "Age Verification (18+)"
    else if circuit == "residency-proof"
    then some "US Residency"
    else if circuit == "accredited-investor"
    then some "Accredited Investor"
    else if circuit == "sanctions-check"
    then some "Sanctions Clearance"
    else none

abbrev pub or_else : Option String → String → String
or_else none other = other
or_else (some text) other = text

pub data Badge : Type 0 where
  success destructive secondary warning : Badge

-- `statusVariant`
abbrev pub status_variant : RequestStatus → Badge
status_variant RequestStatus.approved = success
status_variant RequestStatus.rejected = destructive
status_variant RequestStatus.expired = secondary
status_variant RequestStatus.pending = warning

abbrev pub is_match : ProofRequest → Proof → Bool
is_match req x = is_completed x.status && x.circuit_id == req.circuit_id

-- `matchingProofs`
unfoldable pub matching_proofs : ProofRequest → List Proof → List Proof
matching_proofs req proofs = filter (is_match req) proofs

-- `matchingProofs[0]?.id ?? ''`
abbrev pub first_id : List Proof → String
first_id [] = ""
first_id (x ∷ xs) = x.id

abbrev is_empty : List Proof → Bool
is_empty [] = true
is_empty (x ∷ xs) = false

-- `RequestCard`: the proofs it was last rendered with, the state `chosenProofId`, and the mutation
pub record Card : Type 0 where
  pub proofs : List Proof
  pub chosen_proof_id : String
  pub is_sending : Bool
  pub error : Option String

pub record Shown : Type 0 where
  pub title : String
  pub badge : Badge
  -- that approving shares no personal data
  pub assurance : Bool
  pub options : List String
  -- that there is no proof of the circuit
  pub missing : Bool
  pub error : Option String
  -- the buttons, where they stand, with whether each can be pressed
  pub approve_enabled : Option Bool
  pub reject_enabled : Option Bool
  pub submitted : Bool

module _ (req : ProofRequest) where
  -- the first rendering, with `useState(selectedProofId)`; a later one keeps the state
  unfoldable pub mount : List Proof → Card
  mount proofs = record {
    proofs = proofs;
    chosen_proof_id = first_id (matching_proofs req proofs);
    is_sending = false;
    error = none;
  }

  unfoldable pub can_approve : Card → Bool
  can_approve c =
      not c.is_sending
      && (not (is_empty (matching_proofs req c.proofs)) && not (c.chosen_proof_id == ""))

  unfoldable pub show : Card → Shown
  show c =
      let is_open = is_pending req.status in
      let matching = matching_proofs req c.proofs in
      record {
        title = or_else (circuit_label req.circuit_id) req.circuit_id;
        badge = status_variant req.status;
        assurance = is_open;
        options = if is_open then map (λ x. x.id) matching else [];
        missing = is_open && is_empty matching;
        error = c.error;
        approve_enabled = if is_open then some (can_approve c) else none;
        reject_enabled = if is_open then some (not c.is_sending) else none;
        submitted = elim req.status [ RequestStatus.approved ↦ true | _ ↦ false ];
      }

  -- What happens to a card: it is rendered with other proofs, an option is chosen, a button that
  -- can be pressed is, and the mutation ends. The lists that it is rendered with hold some of the
  -- proofs in `known`, or none, which is what `useProofs` has before its answer and after a failure.
  module _ (known : List Proof) where
    pub data Turn : Card → Card → Type 0 where
      rendered :
          (c : Card) (proofs : List Proof)
          → ((x : Proof) → Memᴰ x proofs → Memᴰ x known)
          → Turn c (record c { proofs = proofs })
      chosen :
          (c : Card) (x : Proof)
          → Memᴰ x (matching_proofs req c.proofs)
          → Turn c (record c { chosen_proof_id = x.id })
      sent :
          (c : Card) → c.is_sending ≡ false → Turn c (record c { is_sending = true; error = none })
      ended :
          (c : Card) (error : Option String)
          → Turn c (record c { is_sending = false; error = error })

    pub data Visited : Card → Type 0 where
      mounted :
          (proofs : List Proof)
          → ((x : Proof) → Memᴰ x proofs → Memᴰ x known)
          → Visited (mount proofs)
      turned : {c d : Card} → Visited c → Turn c d → Visited d

  -- the card, rendered with one list after the other, while nobody chooses or presses anything
  unfoldable pub renderings : List (List Proof) → Card → Card
  renderings [] c = c
  renderings (proofs ∷ later) c = renderings later (record c { proofs = proofs })

  -- what a press of a button sends
  unfoldable pub press_approve : Card → Option RespondBody
  press_approve c =
      if is_pending req.status && can_approve c
      then some (record { proof_id = c.chosen_proof_id; decision = approve })
      else none

  unfoldable pub press_reject : Card → Option RespondBody
  press_reject c =
      if is_pending req.status && not c.is_sending
      then some (record { proof_id = ""; decision = reject })
      else none

-- `ProofRespondInner`: the two lists of requests
unfoldable pub pending : List ProofRequest → List ProofRequest
pending requests = filter (λ r. is_pending r.status) requests

unfoldable pub past : List ProofRequest → List ProofRequest
past requests = filter (λ r. not (is_pending r.status)) requests

-- the one of the link, or else the inbox
unfoldable pub requests_of :
    (request_id : Option String) (single_request : Option ProofRequest)
    (pending_requests : List ProofRequest)
    → List ProofRequest
requests_of none single_request pending_requests = pending_requests
requests_of (some id) single_request pending_requests =
    if id == "" then pending_requests else elim single_request [ none ↦ [] | some r ↦ r ∷ [] ]
