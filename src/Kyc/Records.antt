-- ===== src/Kyc/Records.antt =====
-- The records of verified wallets of contract/kyc-contract.service.ts: what an attestation's payload
-- makes of them, the map that keeps them, and the hash that stands in for a proof's.
use Prim.Native.String.{◌++◌}
use stprivy.Common.{ℕ, ◌+◌, ◌*◌, String, Bool, true, Option, none, some, List, [], ◌∷◌, ◌==◌}
use stprivy.Common.Tests.{ltb, if◌then◌else◌}
use stprivy.Common.Js.{Js}
use stprivy.Common.Words.{abs32}
use stprivy.Proof.Encode.{to_hex}
use stprivy.Worker.Input.{units, hash_loop}

pub record VerificationRecord : Type 0 where
  pub wallet : String
  pub country : String
  pub age_over_18 : Bool
  pub issued_at : ℕ
  pub expires_at : ℕ
  pub proof_hash : String
  pub issuer : String

-- What `JSON.parse` gives for an attestation: the fields that the service reads, each of the type
-- that it expects, or not there.
pub record Payload : Type 0 where
  pub country : Option String
  pub age_over_18 : Option Bool
  pub issued_at : Option ℕ
  pub expires_at : Option ℕ
  pub issuer : Option String
  pub circuit_id : Option String
  pub proof : Option String
  pub public_inputs : Option (List String)

-- JavaScript's `Map`
module _ {A : Type 0} where
  unfoldable pub map_get : String → List (String × A) → Option A
  map_get k [] = none
  map_get k ((j, a) ∷ m) = if j == k then some a else map_get k m

  unfoldable pub map_delete : String → List (String × A) → List (String × A)
  map_delete k [] = []
  map_delete k ((j, a) ∷ m) = let rest = map_delete k m in if j == k then rest else (j, a) ∷ rest

  unfoldable pub map_set : String → A → List (String × A) → List (String × A)
  unfolding map_delete
  map_set k a m = (k, a) ∷ map_delete k m

-- `value || other`, on a text and on a number that may be missing
abbrev pub or_text : Option String → String → String
or_text none other = other
or_text (some t) other = if t == "" then other else t

abbrev pub or_number : Option ℕ → ℕ → ℕ
or_number none other = other
or_number (some n) other = if ltb 0 n then n else other

abbrev pub or_else {ℓ} : {A : Type ℓ} → Option A → A → A
or_else none other = other
or_else (some a) other = a

abbrev pub hex_digit : ℕ → String
hex_digit n =
    if ltb n 8
    then (if ltb n 4
        then (if ltb n 2 then (if ltb n 1 then "0" else "1") else (if ltb n 3 then "2" else "3"))
        else (if ltb n 6 then (if ltb n 5 then "4" else "5") else (if ltb n 7 then "6" else "7")))
    else (if ltb n 12
        then (if ltb n 10 then (if ltb n 9 then "8" else "9") else (if ltb n 11 then "a" else "b"))
        else (if ltb n 14
            then (if ltb n 13 then "c" else "d")
            else (if ltb n 15 then "e" else "f")))

unfoldable pub hex_text : List ℕ → String
hex_text [] = ""
hex_text (d ∷ ds) = hex_digit d ++ hex_text ds

-- `generateMockProofHash`
unfoldable pub generate_mock_proof_hash : Js → (now : ℕ) → (wallet payload : String) → String
unfolding hex_text hash_loop to_hex
generate_mock_proof_hash js now wallet payload =
    "mock_hash_"
    ++ hex_text (
        to_hex
          (abs32 (hash_loop 0 (units (wallet ++ (":" ++ (payload ++ (":" ++ js.of_number now))))))))

abbrev pub year_ms : ℕ
year_ms = 365 * 24 * 60 * 60 * 1000

-- the record of a payload, under the issuer's name for where there is none
unfoldable pub record_of :
    Js → (now : ℕ) → (wallet payload issuer : String) → Payload → VerificationRecord
record_of js now wallet payload issuer p = record {
  wallet = wallet;
  country = or_text p.country "US";
  age_over_18 = or_else p.age_over_18 true;
  issued_at = or_number p.issued_at now;
  expires_at = or_number p.expires_at (now + year_ms);
  proof_hash = generate_mock_proof_hash js now wallet payload;
  issuer = or_text p.issuer issuer;
}
