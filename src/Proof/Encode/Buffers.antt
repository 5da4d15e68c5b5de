-- ===== src/Proof/Encode/Buffers.antt =====
-- The buffers that are sent to the contract: their size, and the numbers that can be read back.
use mathlib.Core.List.{append-nil, append_assoc}
use stprivy.Common.{
  ℕ, zero, suc, ◌+◌, ◌^◌, ◌<◌, ◌≡◌, refl, sym, ◌∙◌, ap, List, [], ◌∷◌, ◌++◌, arith,
}
use stprivy.Common.Tests.{length, length-append}
use stprivy.Proof.Encode.{zeros, copy, hex_bytes, encode_input, encode_g1, encode_g2}
use stprivy.Proof.Encode.Hex.{number, hex_bytes-length, hex_bytes-number}

-- `copy` at the end of a part that is full already
copy-append :
    (source full target : List ℕ)
    → copy source (full ++ target) (length full) ≡ full ++ copy source target 0
unfolding copy
copy-append source [] target = refl
copy-append source (b ∷ full) target = ap (λ (l : List ℕ). b ∷ l) (copy-append source full target)

-- `copy` into a fresh buffer with `k` bytes more than the source has
copy-zeros :
    (source : List ℕ) (n k : ℕ)
    → n ≡ length source + k
    → copy source (zeros n) 0 ≡ source ++ zeros k
unfolding copy
copy-zeros [] zero k e = let f : 0 ≡ k = omega arith in ap zeros f
copy-zeros [] (suc n) k e = let f : suc n ≡ k = omega arith in ap zeros f
copy-zeros (b ∷ source) zero k e = absurd (omega arith)
copy-zeros (b ∷ source) (suc n) k e =
    ap (λ (l : List ℕ). b ∷ l) (copy-zeros source n k (omega arith))

-- `copy` after a part of `m` bytes, into the `n` zeros that are left
copy_next :
    (source full : List ℕ) (m n k : ℕ)
    → length full ≡ m
    → n ≡ length source + k
    → copy source (full ++ zeros n) m ≡ full ++ source ++ zeros k
copy_next source full m n k e f =
    ap (copy source (full ++ zeros n)) (sym e)
    ∙ copy-append source full (zeros n)
    ∙ ap (λ (l : List ℕ). full ++ l) (copy-zeros source n k f)
    ∙ sym (append_assoc full source (zeros k))

module _ (v : ℕ) (fits : v < 2 ^ 256) where
  input_length : length (hex_bytes 64 v) ≡ 32
  input_length = hex_bytes-length 31 v fits

  -- A public input below 2^256 is encoded in 32 bytes that stand for it, the high byte first.
  pub encode_input_lem : (length (encode_input v) ≡ 32) × (number 256 (encode_input v) ≡ v)
  unfolding encode_input
  encode_input_lem =
      let e : copy (hex_bytes 64 v) (zeros 32) 0 ≡ hex_bytes 64 v =
        copy-zeros (hex_bytes 64 v) 32 0 (omega (arith, input_length)) ∙ append-nil _ in
      (ap length e ∙ input_length, ap (number 256) e ∙ hex_bytes-number 31 v fits)

pub coordinate_length : (v : ℕ) → v < 2 ^ 384 → length (hex_bytes 96 v) ≡ 48
coordinate_length v fits = hex_bytes-length 47 v fits

pub coordinate-number : (v : ℕ) → v < 2 ^ 384 → number 256 (hex_bytes 96 v) ≡ v
coordinate-number v fits = hex_bytes-number 47 v fits

-- Two and four parts of 48 bytes, one after the other, fill their buffer.
module _ (a b : List ℕ) (la : length a ≡ 48) (lb : length b ≡ 48) where
  two_parts : copy b (copy a (zeros 96) 0) 48 ≡ a ++ b
  two_parts =
      ap (λ (l : List ℕ). copy b l 48) (copy-zeros a 96 48 (omega arith))
      ∙ copy_next b a 48 48 0 la (omega arith)
      ∙ append-nil (a ++ b)

  module _ (c d : List ℕ) (lc : length c ≡ 48) (ld : length d ≡ 48) where
    three : length (a ++ b ++ c) ≡ 144
    three = omega (arith, length-append (a ++ b) c, length-append a b)

    four_parts : copy d (copy c (copy b (copy a (zeros 192) 0) 48) 96) 144 ≡ a ++ b ++ c ++ d
    four_parts =
        ap (λ (l : List ℕ). copy d (copy c (copy b l 48) 96) 144)
          (copy-zeros a 192 144 (omega arith))
        ∙ ap (λ (l : List ℕ). copy d (copy c l 96) 144) (copy_next b a 48 144 96 la (omega arith))
        ∙ ap (λ (l : List ℕ). copy d l 144)
            (copy_next c (a ++ b) 96 96 48 (omega (arith, length-append a b)) (omega arith))
        ∙ copy_next d (a ++ b ++ c) 144 48 0 three (omega arith)
        ∙ append-nil (a ++ b ++ c ++ d)

-- A G1 point is its two coordinates, 48 bytes each.
pub encode_g1_lem :
    (x y : ℕ) → x < 2 ^ 384 → y < 2 ^ 384 → encode_g1 x y ≡ hex_bytes 96 x ++ hex_bytes 96 y
unfolding encode_g1
encode_g1_lem x y x_fits y_fits =
    two_parts _ _ (coordinate_length x x_fits) (coordinate_length y y_fits)

-- A G2 point is its four coordinates, 48 bytes each.
pub encode_g2_lem :
    (x0 x1 y0 y1 : ℕ)
    → x0 < 2 ^ 384
    → x1 < 2 ^ 384
    → y0 < 2 ^ 384
    → y1 < 2 ^ 384
    → encode_g2 x0 x1 y0 y1
      ≡ hex_bytes 96 x0 ++ hex_bytes 96 x1 ++ hex_bytes 96 y0 ++ hex_bytes 96 y1
unfolding encode_g2
encode_g2_lem x0 x1 y0 y1 f0 f1 f2 f3 =
    four_parts _ _ (coordinate_length x0 f0) (coordinate_length x1 f1) _ _ (coordinate_length y0 f2)
      (coordinate_length y1 f3)
