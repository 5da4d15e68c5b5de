-- ===== src/Kyc/Signer/Validate.antt =====
-- `validateAttestationData` of attestation/attestation.service.ts, over an object with properties of
-- any type.
use stprivy.Common.{ℕ, ◌≡◌, refl, String, Bool, true, false, ◌&&◌, ◌==◌, List, [], ◌∷◌}
use stprivy.Common.Tests.{if◌then◌else◌}
use stprivy.Kyc.Signer.{AttestationData}

-- What `typeof` tells apart of a value here; a property that is missing is `undefined`.
pub data PropertyValue : Type 0 where
  string : String → PropertyValue
  boolean : Bool → PropertyValue
  number : ℕ → PropertyValue
  undefined object : PropertyValue

abbrev is_string : PropertyValue → Bool
is_string (string t) = true
is_string _ = false

abbrev is_boolean : PropertyValue → Bool
is_boolean (boolean b) = true
is_boolean _ = false

abbrev is_number : PropertyValue → Bool
is_number (number n) = true
is_number _ = false

-- `data` by its properties; on `null` and on `undefined` the code throws
unfoldable pub validate_attestation_data : (data_of : String → PropertyValue) → Bool
validate_attestation_data data_of =
    is_string (data_of "wallet")
    && (is_boolean (data_of "verified")
        && (is_string (data_of "country")
            && (is_boolean (data_of "age_over_18")
                && (is_number (data_of "issued_at")
                    && (is_number (data_of "expires_at")
                        && (is_string (data_of "nonce")
                            && (is_string (data_of "proof_hash")
                                && is_string (data_of "issuer"))))))))

-- a property of an object that is given by its properties
abbrev property : List (String × PropertyValue) → String → PropertyValue
property [] name = undefined
property ((key, value) ∷ rest) name = if key == name then value else property rest name

abbrev object_of : AttestationData → List (String × PropertyValue)
object_of d =
    ("wallet", string d.wallet)
    ∷ ("verified", boolean d.verified)
    ∷ ("country", string d.country)
    ∷ ("age_over_18", boolean d.age_over_18)
    ∷ ("issued_at", number d.issued_at)
    ∷ ("expires_at", number d.expires_at)
    ∷ ("nonce", string d.nonce)
    ∷ ("proof_hash", string d.proof_hash)
    ∷ ("issuer", string d.issuer)
    ∷ []

-- Every attestation is valid data.
validate_attestation_data_lem :
    (d : AttestationData) → validate_attestation_data (property (object_of d)) ≡ true
unfolding validate_attestation_data
validate_attestation_data_lem d = refl
