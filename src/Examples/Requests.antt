-- ===== src/Examples/Requests.antt =====
-- A verifier's request that a subject answers with a completed proof.
use stprivy.Common.{◌≡◌, none, [], ◌∷◌, refl, arith}
use stprivy.Common.Exec.{ok}
use stprivy.Domain.{Did, Proof, ProofRequest, ProofStatus, RequestStatus}
use stprivy.Domain.Db.{Db, assoc_db, empty_db}
use stprivy.Request.{approve, respond}
use stprivy.Request.Respond.{MayApprove, approved_row, approve_needs}

abbrev pub request : ProofRequest
request = record {
  id = "r1";
  verifier_did = "did:v";
  subject_did = none;
  circuit_id = "age-proof";
  purpose = "age";
  callback_url = none;
  expires_at = 100;
  status = RequestStatus.pending;
  proof_id = none;
  created_at = 1;
}

abbrev pub proof : Proof
proof = record {
  id = "p1";
  subject_did = "did:s";
  credential_id = "c1";
  circuit_id = "age-proof";
  artifact = none;
  generated_at = none;
  status = ProofStatus.completed;
}

abbrev pub did : Did
did = record {
  id = "did:s";
  user_id = "u1";
  document = record {
    context = [];
    id = "did:s";
    verification_method = [];
    authentication = [];
    assertion_method = [];
  };
}

abbrev pub db : Db assoc_db
db = record empty_db {
  requests = ("r1", request) ∷ [];
  proofs = ("p1", proof) ∷ [];
  dids = ("u1", did) ∷ [];
}

may : MayApprove assoc_db 50 "r1" "u1" "p1" db request proof did
may = record {
  asked = refl;
  open_still = refl;
  in_time = omega arith;
  given = refl;
  identity = refl;
  owner = refl;
  completed = refl;
  circuit = refl;
}

approved :
    (respond assoc_db 50 "r1" "u1" "p1" approve db).0
    ≡ ok (approved_row assoc_db 50 "r1" "u1" "p1" db request did)
unfolding respond
approved = refl

approve_needs_example :
    (req : ProofRequest) × (pf : Proof) × (d : Did) × MayApprove assoc_db 50 "r1" "u1" "p1" db req
      pf d
    × (approved_row assoc_db 50 "r1" "u1" "p1" db request did
        ≡ approved_row assoc_db 50 "r1" "u1" "p1" db req d)
approve_needs_example =
    approve_needs assoc_db 50 "r1" "u1" "p1" db
      (approved_row assoc_db 50 "r1" "u1" "p1" db request did) approved
