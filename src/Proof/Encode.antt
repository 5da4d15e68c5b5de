-- ===== src/Proof/Encode.antt =====
-- `encodePublicInputs` and `encodeGroth16Proof` of proof.service.ts: numbers as hexadecimal text,
-- as bytes, copied into buffers of a fixed size.
pub mod Hex
pub mod Buffers
pub mod RoundTrip
use stprivy.Common.{
  ℕ, zero, suc, ◌-◌, ◌/◌, ◌%◌, ◌+◌, ◌*◌, String, Option, none, some, List, [], ◌∷◌, ◌++◌, map,
}
use stprivy.Common.Tests.{ltb, if◌then◌else◌, length}
use stprivy.Common.Js.{Js}
use stprivy.Domain.{ProofBody, mock, points}

-- `n.toString(16)` as a list of digits, the last round's digit first, on fuel
hex_loop : (fuel n : ℕ) → List ℕ → List ℕ
hex_loop zero n later = n ∷ later
hex_loop (suc f) n later =
    let more = hex_loop f (n / 16) ((n % 16) ∷ later) in if ltb n 16 then n ∷ later else more

unfoldable pub to_hex : ℕ → List ℕ
unfolding hex_loop
to_hex n = hex_loop n n []

abbrev pub zeros : ℕ → List ℕ
zeros zero = []
zeros (suc n) = 0 ∷ zeros n

-- `text.padStart(width, "0")`
unfoldable pub pad_start : ℕ → List ℕ → List ℕ
pad_start width text = zeros (width - length text) ++ text

-- `Buffer.from(text, "hex")`: a last odd digit is dropped
unfoldable pub from_hex : List ℕ → List ℕ
from_hex [] = []
from_hex (a ∷ []) = []
from_hex (a ∷ b ∷ rest) = (a * 16 + b) ∷ from_hex rest

-- `source.copy(target, offset)`: what does not fit is left out
unfoldable pub copy : List ℕ → List ℕ → ℕ → List ℕ
copy source [] offset = []
copy source (t ∷ target) (suc offset) = t ∷ copy source target offset
copy [] (t ∷ target) zero = t ∷ target
copy (b ∷ source) (t ∷ target) zero = b ∷ copy source target zero

-- `Buffer.from(v.toString(16).padStart(width, "0"), "hex")`
unfoldable pub hex_bytes : (width v : ℕ) → List ℕ
unfolding to_hex pad_start from_hex
hex_bytes width v = from_hex (pad_start width (to_hex v))

-- one round of `encodePublicInputs`
unfoldable pub encode_input : ℕ → List ℕ
unfolding hex_bytes copy
encode_input v = copy (hex_bytes 64 v) (zeros 32) 0

-- `g1` of `encodeGroth16Proof`, from the two coordinates
unfoldable pub encode_g1 : (x y : ℕ) → List ℕ
unfolding hex_bytes copy
encode_g1 x y = copy (hex_bytes 96 y) (copy (hex_bytes 96 x) (zeros 96) 0) 48

-- `g2`, from the four coordinates
unfoldable pub encode_g2 : (x0 x1 y0 y1 : ℕ) → List ℕ
unfolding hex_bytes copy
encode_g2 x0 x1 y0 y1 =
    copy (hex_bytes 96 y1)
      (copy (hex_bytes 96 y0) (copy (hex_bytes 96 x1) (copy (hex_bytes 96 x0) (zeros 192) 0) 48) 96)
      144

-- An index out of range gives `undefined`, at which `BigInt` or the next index throws.
module _ {ℓ} {A : Type ℓ} where
  abbrev pub at : List A → ℕ → Option A
  at [] i = none
  at (x ∷ xs) zero = some x
  at (x ∷ xs) (suc i) = at xs i

infixl 5 ◌>>=◌
abbrev pub ◌>>=◌ : {A B : Type 0} → Option A → (A → Option B) → Option B
none >>= k = none
some a >>= k = k a

module _ (js : Js) where
  -- `publicInputs.map(…)`; `none` is a throw
  unfoldable pub encode_public_inputs : List String → Option (List (List ℕ))
  encode_public_inputs [] = some []
  encode_public_inputs (v ∷ vs) = do
    n ← js.big_int v
    rest ← encode_public_inputs vs
    some (encode_input n ∷ rest)

  big_at : List String → ℕ → Option ℕ
  big_at pt i = at pt i >>= js.big_int

  g1 : List String → Option (List ℕ)
  unfolding big_at
  g1 pt = do x ← big_at pt 0; y ← big_at pt 1; some (encode_g1 x y)

  g2 : List (List String) → Option (List ℕ)
  unfolding big_at
  g2 pt = do
    x ← at pt 0
    y ← at pt 1
    x0 ← big_at x 0
    x1 ← big_at x 1
    y0 ← big_at y 0
    y1 ← big_at y 1
    some (encode_g2 x0 x1 y0 y1)

  -- `encodeGroth16Proof`; the mock text has no `pi_a`, so its first index throws
  unfoldable pub encode_groth16_proof : ProofBody → Option (List ℕ)
  unfolding g1 g2
  encode_groth16_proof (mock text) = none
  encode_groth16_proof (points pi_a pi_b pi_c) = do
    a ← g1 pi_a
    b ← g2 pi_b
    c ← g1 pi_c
    some (a ++ b ++ c)
