-- ===== src/Examples/Details.antt =====
-- The page of a proof, whose contract refuses it, and the profile of a user without a DID.
use stprivy.Common.{◌≡◌, refl, false, none, some, [], ◌∷◌}
use stprivy.Domain.Db.{Db, assoc_db}
use stprivy.Proof.Service.{has_proof, anchor}
use stprivy.Proof.Controller.{get_one}
use stprivy.Request.Dto.{verify_route}
use stprivy.Domain.{Role}
use stprivy.Web.{AuthUser}
use stprivy.Web.ProofDetails.{idle, button, told, verdict_text, verify_card, card_of, press_verify}
use stprivy.Web.ProofDetails.Verdict.{press_verify-shows}
use stprivy.Examples.Data.{unary_js}
use stprivy.Examples.Pages.{validators}
use stprivy.Examples.Accounts.{did}
use stprivy.Examples.Proofs.{row, refuses, proved}

abbrev owned : Db assoc_db
owned = record proved { dids = ("u1", did) ∷ [] }

press_verify-shows_example :
    (card_of row.status idle ≡ some (button none false))
    × (verify_card
          (press_verify
            (verify_route unary_js validators assoc_db refuses "v1" 9 "u1")
            "p1"
            owned).0
        ≡ told
            (verdict_text (has_proof row.artifact))
            (anchor assoc_db unary_js refuses row.circuit_id row.artifact))
unfolding get_one
press_verify-shows_example =
    press_verify-shows unary_js validators assoc_db refuses "v1" 9 "u1" "p1" owned row refl refl
      refl refl

abbrev newcomer : AuthUser
newcomer = record { id = "u1"; stellar_address = "GA"; role = Role.subject; has_did = false }
