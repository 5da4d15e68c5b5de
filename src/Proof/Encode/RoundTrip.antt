-- ===== src/Proof/Encode/RoundTrip.antt =====
-- What the contract receives for public inputs and for a proof: the numbers of the JSON text, each
-- in a part of a fixed size.
use mathlib.Core.List.{flatten, append-nil, append_assoc}
use stprivy.Common.{ℕ, ◌^◌, ◌<◌, ◌≡◌, refl, ap, String, some, List, [], ◌∷◌, ◌++◌, map}
use stprivy.Common.Tests.{length}
use stprivy.Common.Lists.{All}
use stprivy.Common.Js.{Js}
use stprivy.Domain.{ProofBody, points}
use stprivy.Proof.Encode.{
  hex_bytes, encode_input, encode_public_inputs, encode_groth16_proof, g1, g2,
}
use stprivy.Proof.Encode.Hex.{number}
use stprivy.Proof.Encode.Buffers.{
  encode_input_lem, encode_g1_lem, encode_g2_lem, coordinate_length, coordinate-number,
}

-- Public inputs below 2^256, written as decimal texts, are encoded one by one in 32 bytes each,
-- and the numbers can be read back from the bytes.
pub encode_public_inputs_roundtrip :
    (js : Js) (vs : List ℕ)
    → All (λ v. v < 2 ^ 256) vs
    → (out : List (List ℕ)) × (encode_public_inputs js (map js.of_number vs) ≡ some out)
      × (map (number 256) out ≡ vs)
      × All (λ b. length b ≡ 32) out
unfolding encode_public_inputs
encode_public_inputs_roundtrip js [] h = ([], refl, refl, tt)
encode_public_inputs_roundtrip js (v ∷ vs) (fits, h) =
    let (out, e, back, sizes) = encode_public_inputs_roundtrip js vs h in
    let (size, same) = encode_input_lem v fits in
    (encode_input v ∷ out, rw (js.big_int-of_number v, e), λ i. same i ∷ back i, (size, sizes))

-- A coordinate as the JSON has it: a text, decimal or not, and the number that `BigInt` makes of it.
pub record Written : Type 0 where
  pub text : String
  pub number : ℕ

abbrev pub Coordinate : Js → Written → Type 0
Coordinate js v = (js.big_int v.text ≡ some v.number) × (v.number < 2 ^ 384)

abbrev pub Fits : ℕ → Type 0
Fits v = v < 2 ^ 384

module _ (js : Js) where
  g1_lem :
      (rest : List String) (x y : Written)
      → Coordinate js x
      → Coordinate js y
      → g1 js (x.text ∷ y.text ∷ rest) ≡ some (hex_bytes 96 x.number ++ hex_bytes 96 y.number)
  unfolding g1
  g1_lem rest x y (ex, fx) (ey, fy) = rw (ex, ey) (ap some (encode_g1_lem x.number y.number fx fy))

  g2_lem :
      (rest_x rest_y : List String) (more : List (List String)) (x0 x1 y0 y1 : Written)
      → Coordinate js x0
      → Coordinate js x1
      → Coordinate js y0
      → Coordinate js y1
      → g2 js ((x0.text ∷ x1.text ∷ rest_x) ∷ (y0.text ∷ y1.text ∷ rest_y) ∷ more)
        ≡ some (
            hex_bytes 96 x0.number
            ++ hex_bytes 96 x1.number
            ++ hex_bytes 96 y0.number
            ++ hex_bytes 96 y1.number)
  unfolding g2
  g2_lem rest_x rest_y more x0 x1 y0 y1 (e0, f0) (e1, f1) (e2, f2) (e3, f3) =
      rw (e0, e1, e2, e3)
        (ap some (encode_g2_lem x0.number x1.number y0.number y1.number f0 f1 f2 f3))

-- The coordinates of a proof, in the order of the contract's format.
pub record Coordinates : Type 0 where
  pub ax : Written
  pub ay : Written
  pub bx0 : Written
  pub bx1 : Written
  pub by0 : Written
  pub by1 : Written
  pub cx : Written
  pub cy : Written

abbrev pub coordinates_of : Coordinates → List Written
coordinates_of c = c.ax ∷ c.ay ∷ c.bx0 ∷ c.bx1 ∷ c.by0 ∷ c.by1 ∷ c.cx ∷ c.cy ∷ []

abbrev pub values : Coordinates → List ℕ
values c = map (λ (v : Written). v.number) (coordinates_of c)

-- What the points have beyond the coordinates, which is not read: of snarkjs's points, `'1'` in
-- `pi_a` and in `pi_c`, nothing in the two rows of `pi_b`, and a third row there.
pub record Unread : Type 0 where
  pub rest_a : List String
  pub rest_x : List String
  pub rest_y : List String
  pub rows : List (List String)
  pub rest_c : List String

abbrev pub proof_json : Unread → Coordinates → ProofBody
proof_json u c =
    points (c.ax.text ∷ c.ay.text ∷ u.rest_a)
      ((c.bx0.text ∷ c.bx1.text ∷ u.rest_x) ∷ (c.by0.text ∷ c.by1.text ∷ u.rest_y) ∷ u.rows)
      (c.cx.text ∷ c.cy.text ∷ u.rest_c)

parts_lem :
    (vs : List ℕ)
    → All Fits vs
    → (map (number 256) (map (hex_bytes 96) vs) ≡ vs)
      × All (λ b. length b ≡ 48) (map (hex_bytes 96) vs)
parts_lem [] h = (refl, tt)
parts_lem (v ∷ vs) (fits, h) =
    let (back, sizes) = parts_lem vs h in
    (λ i. coordinate-number v fits i ∷ back i, (coordinate_length v fits, sizes))

-- A proof whose eight coordinates are texts, decimal or hexadecimal, that `BigInt` reads as numbers
-- below 2^384 is encoded as these numbers one after the other, a, b and c in this order: each
-- fills 48 bytes, from which it can be read back. What else the points have is left out.
pub encode_groth16_proof_lem :
    (js : Js) (u : Unread) (c : Coordinates)
    → All (Coordinate js) (coordinates_of c)
    → (encode_groth16_proof js (proof_json u c) ≡ some (flatten (map (hex_bytes 96) (values c))))
      × (map (number 256) (map (hex_bytes 96) (values c)) ≡ values c)
      × All (λ b. length b ≡ 48) (map (hex_bytes 96) (values c))
unfolding encode_groth16_proof flatten
encode_groth16_proof_lem js u c (ax, (ay, (x0, (x1, (y0, (y1, (cx, (cy, _)))))))) =
    let (back, sizes) =
      parts_lem (values c) (ax.1, (ay.1, (x0.1, (x1.1, (y0.1, (y1.1, (cx.1, (cy.1, tt)))))))) in
    (
      rw
          (
            g1_lem js u.rest_a c.ax c.ay ax ay,
            g2_lem js u.rest_x u.rest_y u.rows c.bx0 c.bx1 c.by0 c.by1 x0 x1 y0 y1,
            g1_lem js u.rest_c c.cx c.cy cx cy,
          )
          (simp (flatten, append_assoc, append-nil)),
      back,
      sizes,
    )
