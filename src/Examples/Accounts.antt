-- ===== src/Examples/Accounts.antt =====
-- A DID that is created and resolved, a proof of its owner, and a transaction that Horizon rejects.
use stprivy.Common.{ℕ, ◌≡◌, refl, String, true, false, Option, none, some, List, [], ◌∷◌, ◌==◌}
use stprivy.Common.Tests.{if◌then◌else◌}
use stprivy.Common.Exec.{ok}
use stprivy.Domain.{Did, DidDocument, Credential, CredentialStatus, Proof}
use stprivy.Domain.Db.{Db, assoc_db, empty_db}
use stprivy.Did.{DidIndex, create_did_of, build_did_document}
use stprivy.Retry.{done, threw}
use stprivy.Stellar.{Horizon, HorizonError, is_retryable_error, Submitted}
use stprivy.Credential.Texts.{after_prefix, includes}
use stprivy.Proof.Service.{generate_proof}
use stprivy.Proof.Service.Generate.{generated_row}
use stprivy.Proof.Controller.{generate}
use stprivy.Examples.Data.{unary_js}

abbrev with_did : String → List (String × Did) → Option Did
with_did id [] = none
with_did id ((user_id, r) ∷ rest) = if r.id == id then some r else with_did id rest

abbrev pub index : DidIndex assoc_db
index = record { by_id = with_did; by_id-put = λ user_id id r t e. refl }

abbrev pub multibase : String → Option String
multibase address = some "u"

abbrev document : DidDocument
document = build_did_document "did:stellar:GA" "u"

created : (create_did_of assoc_db index multibase "u1" "GA" empty_db).0 ≡ ok document
unfolding create_did_of
created = refl

abbrev pub did : Did
did = record { id = "did:s"; user_id = "u1"; document = document }

abbrev credential : Credential
credential = record {
  id = "c1";
  issuer_id = "i1";
  subject_did = "did:s";
  type = "KYC" ∷ [];
  claims = record { country = "US"; age = 30; accredited = true };
  proof = record {
    type = "";
    created = "";
    verification_method = "";
    proof_purpose = "";
    proof_value = "";
  };
  credential_hash = "";
  issued_at = 1;
  expires_at = none;
  status = CredentialStatus.active;
  on_chain_tx_hash = none;
}

abbrev db : Db assoc_db
db = record empty_db { credentials = ("c1", credential) ∷ []; dids = ("u1", did) ∷ [] }

abbrev row : Proof
row = generated_row assoc_db unary_js "p1" 5 "did:s" "c1" "age-proof" db credential

made : (generate assoc_db unary_js "p1" 5 "u1" "c1" "age-proof" db).0 ≡ ok row
unfolding generate generate_proof
made = refl

abbrev rejected : HorizonError
rejected = record { is_error = true; message = "no"; tx_code = some "tx_failed" }

abbrev horizon : Horizon
horizon = record {
  W = ℕ;
  Account = ℕ;
  Operations = ℕ;
  Tx = ℕ;
  lower = λ text. text;
  load_account = λ w. (done w, w);
  build = λ ops a. a;
  submit = λ tx w. (threw rejected, w);
}

abbrev nothing : Submitted ℕ ℕ
nothing = record { world = 7; txs = [] }

not_retryable : is_retryable_error horizon.lower rejected ≡ false
unfolding is_retryable_error includes after_prefix
not_retryable = refl
