-- ===== src/Examples/Proofs.antt =====
-- A credential for which a proof is generated and verified, and the encoding of a small proof.
use mathlib.Core.List.{flatten}
use stprivy.Common.{ℕ, ◌<◌, ◌^◌, ◌≡◌, true, none, some, [], ◌∷◌, refl, ap, arith, map}
use stprivy.Common.Tests.{length}
use stprivy.Common.Lists.{All}
use stprivy.Common.Exec.{ok, err, failure}
use stprivy.Domain.{Credential, CredentialStatus, Proof}
use stprivy.Domain.Db.{Db, assoc_db, empty_db}
use stprivy.Proof.Encode.{encode_groth16_proof, hex_bytes}
use stprivy.Proof.Encode.Hex.{number}
use stprivy.Proof.Encode.RoundTrip.{
  encode_groth16_proof_lem, Coordinates, values, proof_json, Coordinate, Written, Unread,
}
use stprivy.Proof.Service.{generate_proof, Contract}
use stprivy.Proof.Service.Generate.{MayProve, generated_row, generate_proof_allowed}
use stprivy.Examples.Data.{unary, unary_js, count-unary}

abbrev written : ℕ → Written
written n = record { text = unary n; number = n }

abbrev coordinates : Coordinates
coordinates = record {
  ax = written 1;
  ay = written 2;
  bx0 = written 3;
  bx1 = written 4;
  by0 = written 5;
  by1 = written 6;
  cx = written 7;
  cy = written 300;
}

-- the shape of snarkjs's points
abbrev unread : Unread
unread = record {
  rest_a = "1" ∷ [];
  rest_x = [];
  rest_y = [];
  rows = ("1" ∷ "0" ∷ []) ∷ [];
  rest_c = "1" ∷ [];
}

small : (n : ℕ) → n < 2 ^ 384 → Coordinate unary_js (written n)
small n fits = (ap some (count-unary n), fits)

encode_groth16_proof_lem_example :
    (encode_groth16_proof unary_js (proof_json unread coordinates)
      ≡ some (flatten (map (hex_bytes 96) (values coordinates))))
    × (map (number 256) (map (hex_bytes 96) (values coordinates)) ≡ values coordinates)
    × All (λ b. length b ≡ 48) (map (hex_bytes 96) (values coordinates))
encode_groth16_proof_lem_example = encode_groth16_proof_lem unary_js unread coordinates (
  small 1 (ground arith),
  (
    small 2 (ground arith),
    (
      small 3 (ground arith),
      (
        small 4 (ground arith),
        (
          small 5 (ground arith),
          (small 6 (ground arith), (small 7 (ground arith), (small 300 (ground arith), tt))),
        ),
      ),
    ),
  ),
)

abbrev credential : Credential
credential = record {
  id = "c1";
  issuer_id = "i1";
  subject_did = "did:s";
  type = "KYC" ∷ [];
  claims = record { country = "US"; age = 30; accredited = true };
  proof = record {
    type = "";
    created = "";
    verification_method = "";
    proof_purpose = "";
    proof_value = "";
  };
  credential_hash = "";
  issued_at = 1;
  expires_at = none;
  status = CredentialStatus.active;
  on_chain_tx_hash = none;
}

abbrev db : Db assoc_db
db = record empty_db { credentials = ("c1", credential) ∷ [] }

may_prove : MayProve assoc_db unary_js "p1" 5 "did:s" "c1" "age-proof" db credential
may_prove = record { stored = refl; owner = refl; active = refl; fresh = refl }

abbrev pub row : Proof
row = generated_row assoc_db unary_js "p1" 5 "did:s" "c1" "age-proof" db credential

made : (generate_proof assoc_db unary_js "p1" 5 "did:s" "c1" "age-proof" db).0 ≡ ok row
made =
    ap (λ x. x.0)
      (generate_proof_allowed assoc_db unary_js "p1" 5 "did:s" "c1" "age-proof" db credential
        may_prove)

abbrev pub refuses : Contract
refuses circuit_id proof inputs = err (record { status = failure; message = "" })

abbrev pub proved : Db assoc_db
proved = record db { proofs = ("p1", row) ∷ [] }
