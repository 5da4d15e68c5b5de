-- ===== src/Worker/Input/Ranges.antt =====
-- Which claims the circuits' inputs are built from.
use stprivy.Common.{ℕ, ◌≤◌, ◌≡◌, ◌↔◌, inl, inr, String, List, Bool, arith}
use stprivy.Common.Tests.{if◌then◌else◌}
use stprivy.Worker.Input.{
  Claim, Claims, int, bool, Input, Checked-cases, good, age_proof, accredited_investor, require_int,
  require_boolean, build_input,
}

-- A number that `requireInt` lets through is the claim's, and is in the range.
require_int-good :
    (c : Claim) (field : String) (lo hi n : ℕ)
    → require_int c field lo hi ≡ good n
    → (c ≡ int n) × (lo ≤ n) × (n ≤ hi)
unfolding require_int
require_int-good (int n) field lo hi m h = ground arith
require_int-good _ field lo hi m h = cc

require_boolean-good :
    (c : Claim) (field : String) (b : Bool) → require_boolean c field ≡ good b → c ≡ bool b
unfolding require_boolean
require_boolean-good (bool b) field d h = ground arith
require_boolean-good _ field d h = cc

module _ (upper : List ℕ → List ℕ) where
  -- The age circuit is given exactly the ages up to 150 that are whole numbers, always with the
  -- threshold 18.
  pub build_input_age :
      (claims : Claims) (input : Input)
      → (build_input upper "age-proof" claims ≡ good input)
        ↔ ((n : ℕ) × (claims.age ≡ int n) × (n ≤ 150) × (input ≡ age_proof n 18))
  unfolding build_input
  build_input_age claims input = (needs, λ w. unfold require_int in ground (arith, w.1, w.2, w.3))
    where
      needs :
          build_input upper "age-proof" claims ≡ good input
          → (n : ℕ) × (claims.age ≡ int n) × (n ≤ 150) × (input ≡ age_proof n 18)
      needs h = elim (Checked-cases (require_int claims.age "age" 0 150)) [
        | inl (x, f) ↦ ground (arith, f)
        | inr (n, f) ↦
            let (same, _, top) = require_int-good claims.age "age" 0 150 n f in
            (n, same, top, ground (arith, f))
      ]

  -- The circuit for accredited investors needs both a truth value and an age up to 150, and is
  -- given the truth value as 1 or 0.
  pub build_input_accredited :
      (claims : Claims) (input : Input)
      → build_input upper "accredited-investor" claims ≡ good input
      → (b : Bool) × (n : ℕ) × (claims.accredited ≡ bool b)
        × (claims.age ≡ int n)
        × (n ≤ 150)
        × (input ≡ accredited_investor (if b then 1 else 0) n)
  unfolding build_input
  build_input_accredited claims input h =
      elim (Checked-cases (require_boolean claims.accredited "accredited")) [
        | inl (x, f) ↦ ground (arith, f)
        | inr (b, f) ↦ elim (Checked-cases (require_int claims.age "age" 0 150)) [
          | inl (x, g) ↦ ground (arith, f, g)
          | inr (n, g) ↦
              let (same, _, top) = require_int-good claims.age "age" 0 150 n g in
              (
                b,
                n,
                require_boolean-good claims.accredited "accredited" b f,
                same,
                top,
                ground (arith, f, g),
              )
        ]
      ]
