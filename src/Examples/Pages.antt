-- ===== src/Examples/Pages.antt =====
-- A verifier makes a request on the page, and a subject makes a proof for it and approves it.
use mathlib.Core.List.{Memᴰ}
use stprivy.Common.{
  ◌≡◌, ◌↔◌, refl, true, false, not, none, some, List, [], ◌∷◌, ◌==◌, arith, eq_iff,
}
use stprivy.Common.Exec.{ok, err}
use stprivy.Domain.{Credential, CredentialStatus, Proof, ProofRequest}
use stprivy.Domain.Db.{Db, assoc_db}
use stprivy.Domain.Queries.{Keyed, assoc_queries}
use stprivy.Request.{approve, reject, respond}
use stprivy.Request.Lifecycle.{Call, creates, responds, generates}
use stprivy.Request.Dto.{
  Validators, RespondBody, GenerateBody, generate_route, respond_route, create_route, invalid,
  valid_generate,
}
use stprivy.Proof.Service.{generate_proof}
use stprivy.Proof.Service.Generate.{generated_row}
use stprivy.Proof.Controller.{generate}
use stprivy.Proof.Lists.{my_proofs, pending_requests}
use stprivy.Credential.Lists.{my_credentials}
use stprivy.Web.Respond.{
  Card, mounted, mount, matching_proofs, can_approve, press_approve, press_reject, renderings,
}
use stprivy.Web.Respond.Offers.{offered_iff}
use stprivy.Web.Respond.Cards.{press_approve-accepted, press_reject-refused, renderings-stuck}
use stprivy.Web.CreateRequest.{Zod, FormValues, create_schema, create_body, submit_create}
use stprivy.Web.CreateRequest.Waits.{made, created_waits}
use stprivy.Web.Generate.{
  generate_schema, submit_generate, active_credentials, made_status, proof_result, proof_interval,
}
use stprivy.Web.Generate.Offered.{generate_offered, generate_ready}
use stprivy.Examples.Data.{unary_js, count}
use stprivy.Examples.Requests.{request, did, db}
use stprivy.Examples.Credentials.{claims}

abbrev pub validators : Validators unary_js
validators = record {
  is_not_empty = λ text. not (text == "");
  is_not_empty_lem = λ text. refl;
  is_url = λ text. true;
  is_date_string = λ text. true;
  is_date_string-iso = λ t. refl;
  refusal = "Bad Request Exception";
}

count-empty : count "" ≡ 0
unfolding count
count-empty = refl

abbrev zod : Zod
zod = record { length = count; length-empty = count-empty; is_url = λ text. true }

proofs-Keyed : Keyed assoc_db.proofs (λ (x : Proof). x.id) db.proofs
proofs-Keyed k row found = ground (arith, found, eq_iff "p1" k)

requests-Keyed : Keyed assoc_db.requests (λ (r : ProofRequest). r.id) db.requests
requests-Keyed k row found = ground (arith, found, eq_iff "r1" k)

waiting : Memᴰ request (pending_requests assoc_db assoc_queries 40 "u1" db)
unfolding pending_requests
waiting = Memᴰ.head refl

offered_iff_example :
    ((x : Proof) × Memᴰ x (matching_proofs request (my_proofs assoc_db assoc_queries "u1" db))
      × (x.id ≡ "p1"))
    ↔ ((row : ProofRequest) × ((respond assoc_db 50 request.id "u1" "p1" approve db).0 ≡ ok row))
offered_iff_example =
    offered_iff assoc_db assoc_queries 40 50 "u1" db proofs-Keyed requests-Keyed request "p1"
      waiting (omega arith)

abbrev mine : List Proof
mine = my_proofs assoc_db assoc_queries "u1" db

abbrev card : Card
card = mount request mine

abbrev approval : RespondBody
approval = record { proof_id = "p1"; decision = approve }

abbrev rejection : RespondBody
rejection = record { proof_id = ""; decision = reject }

pressed : press_approve request card ≡ some approval
unfolding press_approve can_approve mount matching_proofs my_proofs
pressed = refl

press_approve-accepted_example :
    (row : ProofRequest) × ((respond_route unary_js validators assoc_db 50 request.id "u1" approval
        db).0
      ≡ ok row)
press_approve-accepted_example =
    press_approve-accepted assoc_db unary_js validators assoc_queries 40 50 "u1" db request
      proofs-Keyed requests-Keyed waiting (omega arith) card (mounted mine (λ x m. m)) approval
      pressed

refused : press_reject request card ≡ some rejection
unfolding press_reject mount
refused = refl

press_reject-refused_example :
    respond_route unary_js validators assoc_db 50 request.id "u1" rejection db
    ≡ (err (invalid unary_js validators), db)
press_reject-refused_example =
    press_reject-refused assoc_db unary_js validators assoc_queries 40 50 "u1" db request card
      rejection refused

nothing_yet : matching_proofs request [] ≡ []
unfolding matching_proofs
nothing_yet = refl

renderings-stuck_example :
    can_approve request (renderings request (mine ∷ []) (mount request [])) ≡ false
renderings-stuck_example = renderings-stuck request [] (mine ∷ []) nothing_yet

abbrev page_calls : List Call
page_calls =
    creates "r2" 1 "u1"
      (record { circuit_id = "age-proof"; purpose = ""; callback_url = none; expires_at = 9 })
    ∷ generates "p2" 6 "u1" "c1" "age-proof"
    ∷ responds 5 "r1" "u1" "p1" approve
    ∷ []

abbrev form : FormValues
form = record {
  circuit_id = "age-proof";
  purpose = "access";
  callback_url = some "";
  expires_in_minutes = 1;
}

submitted : submit_create unary_js zod 7 form ≡ some (create_body unary_js 7 form)
unfolding submit_create create_schema count
submitted = refl

abbrev opened : ProofRequest
opened = made unary_js zod validators assoc_db assoc_queries "r2" 7 "u1" form did db refl refl

created_waits_example :
    let (answer, s') =
      create_route unary_js validators assoc_db "r2" 7 "u1" (create_body unary_js 7 form) db in
    (answer ≡ ok opened) × Memᴰ opened (pending_requests assoc_db assoc_queries 60006 "u1" s')
created_waits_example =
    created_waits unary_js zod validators assoc_db assoc_queries "r2" 7 "u1" form did db refl refl
      (create_body unary_js 7 form) "u1" did 60006 submitted refl refl (omega arith)

abbrev pub credential : Credential
credential = record {
  id = "c1";
  issuer_id = "i1";
  subject_did = "did:s";
  type = [];
  claims = claims;
  proof = record {
    type = "";
    created = "";
    verification_method = "";
    proof_purpose = "";
    proof_value = "";
  };
  credential_hash = "";
  issued_at = 5;
  expires_at = none;
  status = CredentialStatus.active;
  on_chain_tx_hash = none;
}

abbrev pub holding : Db assoc_db
holding = record db { credentials = ("c1", credential) ∷ [] }

credentials-Keyed : Keyed assoc_db.credentials (λ (c : Credential). c.id) holding.credentials
credentials-Keyed k row found = ground (arith, found, eq_iff "c1" k)

abbrev choice : GenerateBody
choice = record { credential_id = "c1"; circuit_id = "age-proof" }

sent : submit_generate choice ≡ some choice
unfolding submit_generate generate_schema
sent = refl

generate_offered_example :
    ((c : Credential) × Memᴰ c
        (active_credentials (my_credentials assoc_db assoc_queries "u1" holding))
      × (c.id ≡ "c1"))
    ↔ ((row : Proof) × ((generate_route unary_js validators assoc_db "p2" 6 "u1" choice holding).0
          ≡ ok row))
generate_offered_example =
    generate_offered assoc_db unary_js validators assoc_queries "u1" holding credentials-Keyed "p2"
      6 choice choice refl sent

abbrev answer : Proof
answer = generated_row assoc_db unary_js "p2" 6 "did:s" "c1" "age-proof" holding credential

answered : (generate_route unary_js validators assoc_db "p2" 6 "u1" choice holding).0 ≡ ok answer
unfolding generate_route valid_generate generate generate_proof
answered = refl

generate_ready_example :
    let s' = (generate_route unary_js validators assoc_db "p2" 6 "u1" choice holding).1 in
    (proof_result false false (some answer) ≡ made_status "p2")
    × (proof_interval (some answer) ≡ none)
    × Memᴰ answer (matching_proofs request (my_proofs assoc_db assoc_queries "u1" s'))
generate_ready_example =
    generate_ready assoc_db unary_js validators assoc_queries "u1" holding credentials-Keyed "p2" 6
      choice choice answer request sent answered refl
