-- ===== src/Kyc/Signer/Payload.antt =====
-- The signed text determines the attestation: its fields can be read back.
use stprivy.Common.{
  ℕ, Option, none, some, ◌==◌, refl, ap, ◌∙◌, ◌≡◌, String, Bool, true, false, List, [], ◌∷◌, arith,
}
use stprivy.Common.Tests.{if◌then◌else◌}
use stprivy.Common.Js.{Js}
use stprivy.Proof.Encode.{◌>>=◌}
use stprivy.Common.Lists.{All}
use stprivy.Common.Separated.{split, HasNone, split-join}
use stprivy.Kyc.Signer.{AttestationData, bool_text, payload_fields, serialize_payload}

-- the parts of a text between its bars
abbrev pub split_bar : String → List String
split_bar = split "|"

abbrev pub HasNoBar : String → Type 0
HasNoBar = HasNone "|"

abbrev read_bool : String → Option Bool
read_bool text = if text == "true" then some true else if text == "false" then some false else none

-- the nine fields by their places in the format, which is
-- wallet|verified|country|age_over_18|issued_at|expires_at|nonce|proof_hash|issuer
abbrev read_fields : Js → List String → Option AttestationData
read_fields js (first ∷ second ∷ third ∷ fourth ∷ fifth ∷ sixth ∷ seventh ∷ eighth ∷ ninth ∷ []) =
    do
      is_verified ← read_bool second
      is_adult ← read_bool fourth
      issued ← js.big_int fifth
      expires ← js.big_int sixth
      some (record {
        wallet = first;
        verified = is_verified;
        country = third;
        age_over_18 = is_adult;
        issued_at = issued;
        expires_at = expires;
        nonce = seventh;
        proof_hash = eighth;
        issuer = ninth;
      })
read_fields js _ = none

-- A reader of the signed text, from the format alone.
pub read_payload : Js → String → Option AttestationData
read_payload js text = read_fields js (split_bar text)

bool_text-HasNoBar : (b : Bool) → HasNoBar (bool_text b)
bool_text-HasNoBar true = ground arith
bool_text-HasNoBar false = ground arith

-- Where the texts of numbers have no bar, and neither have the text fields of an attestation, the
-- signed payload splits at its bars into exactly the nine fields, in their order.
split_bar-serialize_payload :
    (js : Js) (d : AttestationData)
    → ((n : ℕ) → HasNoBar (js.of_number n))
    → All HasNoBar (d.wallet ∷ d.country ∷ d.nonce ∷ d.proof_hash ∷ d.issuer ∷ [])
    → split_bar (serialize_payload js d) ≡ payload_fields js d
unfolding serialize_payload
split_bar-serialize_payload js d plain (w, (c, (n, (p, (i, _))))) = split-join "|" d.wallet _ (
  w,
  (
    bool_text-HasNoBar d.verified,
    (
      c,
      (
        bool_text-HasNoBar d.age_over_18,
        (plain d.issued_at, (plain d.expires_at, (n, (p, (i, tt))))),
      ),
    ),
  ),
)

read_bool_lem : (b : Bool) → read_bool (bool_text b) ≡ some b
read_bool_lem true = refl
read_bool_lem false = refl

read_fields_lem : (js : Js) (d : AttestationData) → read_fields js (payload_fields js d) ≡ some d
read_fields_lem js d =
    rw
      (
        read_bool_lem d.verified,
        read_bool_lem d.age_over_18,
        js.big_int-of_number d.issued_at,
        js.big_int-of_number d.expires_at,
      )
      refl

-- A reader that knows the format alone reads the signed text back as the attestation, all nine
-- fields, where the texts of numbers have no bar and neither have the text fields.
pub read_payload-serialize_payload :
    (js : Js) (d : AttestationData)
    → ((n : ℕ) → HasNoBar (js.of_number n))
    → All HasNoBar (d.wallet ∷ d.country ∷ d.nonce ∷ d.proof_hash ∷ d.issuer ∷ [])
    → read_payload js (serialize_payload js d) ≡ some d
unfolding read_payload
read_payload-serialize_payload js d plain texts =
    ap (read_fields js) (split_bar-serialize_payload js d plain texts) ∙ read_fields_lem js d
