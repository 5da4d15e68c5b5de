-- ===== src/Proof/Encode/Hex.antt =====
-- Hexadecimal text and the bytes that it is read as keep the number.
use stprivy.Common.{
  ℕ, zero, suc, ◌+◌, ◌-◌, ◌*◌, ◌/◌, ◌%◌, ◌^◌, ◌≤◌, ◌<◌, ◌≡◌, refl, ◌∙◌, ap, List, [], ◌∷◌, ◌++◌,
  arith, inl, inr,
}
use stprivy.Common.Tests.{ltb, length, length-append, Bool-cases, lt→ltb}
use native.Mathlib.Nat.{pow-suc}
use stprivy.Proof.Encode.{hex_loop, to_hex, zeros, pad_start, from_hex, hex_bytes}

-- the number that a big-endian list of digits stands for, from the digits read so far
abbrev pub number_from : (base read : ℕ) → List ℕ → ℕ
number_from base read [] = read
number_from base read (d ∷ ds) = number_from base (read * base + d) ds

abbrev pub number : (base : ℕ) → List ℕ → ℕ
number base = number_from base 0

number_from-zeros :
    (base k : ℕ) (ds : List ℕ) → number_from base 0 (zeros k ++ ds) ≡ number_from base 0 ds
number_from-zeros base zero ds = refl
number_from-zeros base (suc k) ds =
    let e : 0 * base + 0 ≡ 0 = omega arith in
    ap (λ (m : ℕ). number_from base m (zeros k ++ ds)) e ∙ number_from-zeros base k ds

-- what is left to read starts from the digit just read
read_first : (n : ℕ) (later : List ℕ) → number_from 16 0 (n ∷ later) ≡ number_from 16 n later
read_first n later =
    let e : 0 * 16 + n ≡ n = omega arith in ap (λ (m : ℕ). number_from 16 m later) e

-- each round of the loop keeps what the digits stand for
hex_loop-number :
    (f n : ℕ) (later : List ℕ)
    → n ≤ f
    → number_from 16 0 (hex_loop f n later) ≡ number_from 16 n later
unfolding hex_loop
hex_loop-number zero n later h = read_first n later
hex_loop-number (suc f) n later h = elim (Bool-cases (ltb n 16)) [
  | inl small ↦ rw small (read_first n later)
  | inr large ↦
      let e : n / 16 * 16 + n % 16 ≡ n = omega arith in
      rw large (
        hex_loop-number f (n / 16) ((n % 16) ∷ later) (ground arith)
        ∙ ap (λ (m : ℕ). number_from 16 m later) e)
]

to_hex-number : (n : ℕ) → number 16 (to_hex n) ≡ n
unfolding to_hex
to_hex-number n = hex_loop-number n n [] (omega arith)

digit_fits : (w n : ℕ) → n < 16 ^ suc (suc w) → n / 16 < 16 ^ suc w
digit_fits w n h = let e : 16 ^ suc (suc w) ≡ 16 ^ suc w * 16 = pow-suc 16 (suc w) in omega arith

hex_loop-length :
    (w f n : ℕ) (later : List ℕ)
    → n ≤ f
    → n < 16 ^ suc w
    → length (hex_loop f n later) ≤ suc w + length later
unfolding hex_loop
hex_loop-length w zero n later h b = omega arith
hex_loop-length zero (suc f) n later h b = rw (lt→ltb n 16 b) (omega arith)
hex_loop-length (suc w) (suc f) n later h b = elim (Bool-cases (ltb n 16)) [
  | inl small ↦ rw small (omega arith)
  | inr large ↦ rw large (
      omega
        (arith, hex_loop-length w f (n / 16) ((n % 16) ∷ later) (ground arith) (digit_fits w n b)))
]

to_hex-length : (w n : ℕ) → n < 16 ^ suc w → length (to_hex n) ≤ suc w
unfolding to_hex
to_hex-length w n b = omega (arith, hex_loop-length w n n [] (omega arith) b)

zeros-length : (k : ℕ) → length (zeros k) ≡ k
zeros-length zero = refl
zeros-length (suc k) = ap suc (zeros-length k)

pad_start-length : (w : ℕ) (text : List ℕ) → length text ≤ w → length (pad_start w text) ≡ w
unfolding pad_start
pad_start-length w text h =
    omega (arith, length-append (zeros (w - length text)) text, zeros-length (w - length text))

-- Two digits make a byte, where their number is even.
from_hex-number_from :
    (k read : ℕ) (text : List ℕ)
    → length text ≡ k + k
    → number_from 256 read (from_hex text) ≡ number_from 16 read text
unfolding from_hex
from_hex-number_from k read [] h = refl
from_hex-number_from k read (a ∷ []) h = absurd (omega arith)
from_hex-number_from zero read (a ∷ b ∷ text) h = absurd (omega arith)
from_hex-number_from (suc k) read (a ∷ b ∷ text) h =
    let e : read * 256 + (a * 16 + b) ≡ (read * 16 + a) * 16 + b = omega arith in
    from_hex-number_from k (read * 256 + (a * 16 + b)) text (omega arith)
    ∙ ap (λ (m : ℕ). number_from 16 m text) e

from_hex-length : (k : ℕ) (text : List ℕ) → length text ≡ k + k → length (from_hex text) ≡ k
unfolding from_hex
from_hex-length zero [] h = refl
from_hex-length (suc k) [] h = absurd (omega arith)
from_hex-length k (a ∷ []) h = absurd (omega arith)
from_hex-length zero (a ∷ b ∷ text) h = absurd (omega arith)
from_hex-length (suc k) (a ∷ b ∷ text) h = ap suc (from_hex-length k text (omega arith))

module _ (k v : ℕ) (fits : v < 16 ^ (suc k + suc k)) where
  padded : length (pad_start (suc k + suc k) (to_hex v)) ≡ suc k + suc k
  padded =
      let e : suc k + suc k ≡ suc (k + suc k) = omega arith in
      pad_start-length _ (to_hex v) (rw e (to_hex-length (k + suc k) v (rw e at fits)))

  pub hex_bytes-length : length (hex_bytes (suc k + suc k) v) ≡ suc k
  unfolding hex_bytes
  hex_bytes-length = from_hex-length (suc k) _ padded

  pub hex_bytes-number : number 256 (hex_bytes (suc k + suc k) v) ≡ v
  unfolding hex_bytes
  hex_bytes-number =
      from_hex-number_from (suc k) 0 _ padded
      ∙ unfold pad_start in
        (number_from-zeros 16 (suc k + suc k - length (to_hex v)) (to_hex v) ∙ to_hex-number v)
