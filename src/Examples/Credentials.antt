-- ===== src/Examples/Credentials.antt =====
-- A credential that is issued, fetched, verified and revoked, with one key and its address.
use stprivy.Common.{
  ◌≡◌, ◌≢◌, refl, String, true, false, Option, none, some, List, [], ◌∷◌, ◌==◌, ◌&&◌, arith,
  eq_refl,
}
use stprivy.Common.Tests.{if◌then◌else◌}
use stprivy.Common.Exec.{ok, err}
use stprivy.Domain.{KycClaims, Credential, Issuer}
use stprivy.Domain.Db.{Db, assoc_db, empty_db}
use stprivy.Credential.Texts.{HasNoHash, before_hash, remove_first}
use stprivy.Credential.{
  Vc, Verdict, Crypto, Relations, Ledger, issue_credential, verify_credential, revoke_credential,
  mark_revoked, already_revoked, build_vc_body,
}
use stprivy.Credential.Issue.{MayIssue, issued_vc, issued_row, issued_db, issue_verifies}
use stprivy.Credential.Revoke.{MayRevoke, revoke_needs, revoke_lasts}
use stprivy.Examples.Data.{unary_js}

plain : (address : String) → before_hash address ≡ address → HasNoHash address
unfolding HasNoHash
plain address h = h

pub plain_ga : HasNoHash "GA"
plain_ga = plain "GA" (unfold before_hash in refl)

abbrev pub crypto : Crypto
crypto = record {
  Key = Unit {0};
  public_key = λ k. "GA";
  sign = λ k message. message;
  verify = λ address message signature. address == "GA" && message == signature;
  sha256 = λ text. text;
  stringify = λ body. body.id;
  stringify_hashed = λ accredited age country issued_at issuer_did subject_did. issued_at;
  verify-sign = λ k m. eq_refl m;
  public_key-HasNoHash = λ k. plain_ga;
}

abbrev with_id : String → List (String × Issuer) → Option Issuer
with_id id [] = none
with_id id ((did, r) ∷ rest) = if r.id == id then some r else with_id id rest

abbrev pub relations : Relations assoc_db
relations = record { issuer_of = with_id; has_revocation = λ id s. false; on_chain = λ hash. false }

abbrev pub issuer : Issuer
issuer = record {
  id = "i1";
  did = "did:stellar:GA";
  stellar_address = "GA";
  name = "KYC";
  active = true;
}

abbrev foreign : Issuer
foreign = record {
  id = "i2";
  did = "did:stellar:GB";
  stellar_address = "GB";
  name = "Bank";
  active = true;
}

abbrev pub claims : KycClaims
claims = record { country = "US"; age = 30; accredited = true }

abbrev db : Db assoc_db
db = record empty_db { issuers = ("did:stellar:GA", issuer) ∷ ("did:stellar:GB", foreign) ∷ [] }

may : MayIssue assoc_db unary_js crypto tt "c1" 5 "did:stellar:GA" "did:s" claims none db issuer
may = record { registered = refl; active = refl; fresh = refl; unique = refl }

may_foreign :
    MayIssue assoc_db unary_js crypto tt "c1" 5 "did:stellar:GB" "did:s" claims none db foreign
may_foreign = record { registered = refl; active = refl; fresh = refl; unique = refl }

abbrev vc : Vc
vc = issued_vc assoc_db unary_js crypto tt "c1" 5 "did:stellar:GA" "did:s" claims none db

made :
    (issue_credential assoc_db unary_js crypto tt "c1" 5 "did:stellar:GA" "did:s" claims none db).0
    ≡ ok vc
unfolding issue_credential build_vc_body remove_first
made = refl

issue_verifies_example :
    verify_credential assoc_db unary_js crypto relations 9 vc
      (issue_credential assoc_db unary_js crypto tt "c1" 5 "did:stellar:GA" "did:s" claims none
        db).1
    ≡ Verdict.valid
issue_verifies_example =
    issue_verifies assoc_db unary_js crypto tt "c1" 5 "did:stellar:GA" "did:s" claims none db
      relations issuer may 9 refl (λ t e. ground (arith, e)) refl refl

abbrev ledger : Ledger assoc_db unary_js crypto relations
ledger = record {
  db = issued_db assoc_db unary_js crypto tt "c1" 5 "did:stellar:GA" "did:s" claims none db issuer;
  submitted = [];
}

abbrev revoked_row : Credential
revoked_row =
    mark_revoked assoc_db unary_js crypto relations
      (issued_row assoc_db unary_js crypto tt "c1" 5 "did:stellar:GA" "did:s" claims none db issuer)

done :
    (revoke_credential assoc_db unary_js crypto relations 7 "c1" "did:stellar:GA" ledger).0
    ≡ ok revoked_row
unfolding revoke_credential
done = refl

revoke_needs_example :
    (r : Credential) × MayRevoke assoc_db unary_js crypto relations "c1" "did:stellar:GA" ledger r
    × (revoked_row ≡ mark_revoked assoc_db unary_js crypto relations r)
    × (assoc_db.credentials.find "c1"
          (revoke_credential assoc_db unary_js crypto relations 7 "c1" "did:stellar:GA"
            ledger).1.db.credentials
        ≡ some revoked_row)
    × ((revoke_credential assoc_db unary_js crypto relations 7 "c1" "did:stellar:GA"
          ledger).1.submitted
        ≡ r.credential_hash ∷ [])
revoke_needs_example =
    revoke_needs assoc_db unary_js crypto relations 7 "c1" "did:stellar:GA" ledger revoked_row done

revoke_lasts_example :
    let l =
      (revoke_credential assoc_db unary_js crypto relations 7 "c1" "did:stellar:GA" ledger).1 in
    (verify_credential assoc_db unary_js crypto relations 9 vc l.db ≢ Verdict.valid)
    × (revoke_credential assoc_db unary_js crypto relations 9 "c1" "did:stellar:GA" l
        ≡ (err already_revoked, l))
revoke_lasts_example =
    revoke_lasts assoc_db unary_js crypto relations 7 9 "c1" "did:stellar:GA" ledger revoked_row vc
      done (unfold build_vc_body in refl)
