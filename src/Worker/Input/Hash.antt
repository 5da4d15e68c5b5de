-- ===== src/Worker/Input/Hash.antt =====
-- The int32 hash of `computeSanctionsHash`: a polynomial in 31 modulo 2^32, and never 0.
use stprivy.Common.{ℕ, ◌+◌, ◌*◌, ◌%◌, ◌^◌, ◌≤◌, ◌<◌, ◌≡◌, refl, List, [], ◌∷◌, arith}
use stprivy.Worker.Input.{hash_round, hash_loop, compute_sanctions_hash}

-- the hash with numbers that never wrap
pub polynomial : (hash : ℕ) → List ℕ → ℕ
polynomial hash [] = hash
polynomial hash (c ∷ cs) = polynomial (hash * 31 + c) cs

hash_round_lem : (h c : ℕ) → h < 2 ^ 32 → hash_round h c ≡ (h * 31 + c) % 2 ^ 32
unfolding hash_round
hash_round_lem h c b = omega arith

hash_round-lt : (h c : ℕ) → hash_round h c < 2 ^ 32
unfolding hash_round
hash_round-lt h c = omega arith

-- two starts that agree modulo 2^32 agree in the end
hash_loop-polynomial :
    (h big : ℕ) (cs : List ℕ) → h ≡ big % 2 ^ 32 → hash_loop h cs ≡ polynomial big cs % 2 ^ 32
unfolding hash_loop polynomial
hash_loop-polynomial h big [] e = e
hash_loop-polynomial h big (c ∷ cs) e =
    hash_loop-polynomial (hash_round h c) (big * 31 + c) cs
      (omega (arith, hash_round_lem h c (omega arith)))

hash_loop-lt : (h : ℕ) (cs : List ℕ) → h < 2 ^ 32 → hash_loop h cs < 2 ^ 32
unfolding hash_loop
hash_loop-lt h [] b = b
hash_loop-lt h (c ∷ cs) b = hash_loop-lt (hash_round h c) cs (hash_round-lt h c)

-- The wrapping loop computes the polynomial of the characters at 31, modulo 2^32.
pub hash_loop-eq-polynomial : (json : List ℕ) → hash_loop 0 json ≡ polynomial 0 json % 2 ^ 32
hash_loop-eq-polynomial json = hash_loop-polynomial 0 0 json refl

-- The hash of any claims is a whole number between 1 and 2^31: it never equals the commitment 0.
pub compute_sanctions_hash_bounds :
    (json : List ℕ) → (1 ≤ compute_sanctions_hash json) × (compute_sanctions_hash json ≤ 2 ^ 31)
unfolding compute_sanctions_hash
compute_sanctions_hash_bounds json = ground (arith, hash_loop-lt 0 json (omega arith))
