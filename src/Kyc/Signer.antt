-- ===== src/Kyc/Signer.antt =====
-- signer/ed25519-signer.service.ts and attestation/attestation.service.ts: what an attestation
-- says, and the text that is signed. The server's key is a parameter.
pub mod Payload
pub mod Validate
use Prim.Native.String.{◌++◌}
use stprivy.Common.{ℕ, ◌+◌, ◌*◌, ◌/◌, String, Bool, true, false, List, [], ◌∷◌}
use stprivy.Common.Tests.{leb}
use stprivy.Common.Js.{Js}
use stprivy.Common.Separated.{join}

pub record AttestationData : Type 0 where
  pub wallet : String
  pub verified : Bool
  pub country : String
  pub age_over_18 : Bool
  pub issued_at : ℕ
  pub expires_at : ℕ
  pub nonce : String
  pub proof_hash : String
  pub issuer : String

pub record SignedAttestation : Type 0 where
  pub payload : String
  pub signature : String

-- `texts.join('|')`
abbrev pub join_bar : List String → String
join_bar = join "|"

-- `value.toString()` of a Boolean
abbrev pub bool_text : Bool → String
bool_text true = "true"
bool_text false = "false"

-- the fields in the order of the format
abbrev pub payload_fields : Js → AttestationData → List String
payload_fields js d =
    d.wallet
    ∷ bool_text d.verified
    ∷ d.country
    ∷ bool_text d.age_over_18
    ∷ js.of_number d.issued_at
    ∷ js.of_number d.expires_at
    ∷ d.nonce
    ∷ d.proof_hash
    ∷ d.issuer
    ∷ []

unfoldable pub serialize_payload : Js → AttestationData → String
serialize_payload js d = join_bar (payload_fields js d)

-- `signAttestation`; `sign` is the key pair's
unfoldable pub sign_attestation :
    Js → (sign : String → String) → AttestationData → SignedAttestation
sign_attestation js sign d =
    let payload = serialize_payload js d in record { payload = payload; signature = sign payload }

-- `createAttestation`; `now` is `Date.now()` in milliseconds, and `nonce` the new nonce
unfoldable pub create_attestation :
    (now : ℕ) (nonce wallet country : String) (age : ℕ) (proof_hash : String) (expires_in_days : ℕ)
    → AttestationData
create_attestation now nonce wallet country age proof_hash expires_in_days = record {
  wallet = wallet;
  verified = true;
  country = country;
  age_over_18 = leb 18 age;
  issued_at = now / 1000;
  expires_at = now / 1000 + expires_in_days * 24 * 60 * 60;
  nonce = nonce;
  proof_hash = proof_hash;
  issuer = "backend";
}
