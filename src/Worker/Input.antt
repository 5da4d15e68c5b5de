-- ===== src/Worker/Input.antt =====
-- `buildInput` and its helpers of proof-queue.worker.ts. Texts that are taken apart are lists of
-- UTF-16 code units, and a signal that is the text of a number is that number.
pub mod Country
pub mod Hash
pub mod Ranges
use Prim.Native.Char.{code}
use Prim.Native.String
use stprivy.Common.{
  ℕ, ◌+◌, ◌-◌, ◌*◌, ◌^◌, ◌≡◌, refl, ◌⊎◌, inl, inr, String, Bool, true, false, not, ◌&&◌, Option,
  none, some, List, [], ◌∷◌, ◌==◌, map,
}
use stprivy.Common.Tests.{ltb, leb, nat_eq, if◌then◌else◌}
use stprivy.Common.Words.{int32, abs32}

-- The values of a JSON claim that the helpers tell apart; `other` is a number that is negative or
-- not whole, `null`, an array or an object.
pub data Claim : Type 0 where
  absent other : Claim
  int : ℕ → Claim
  bool : Bool → Claim
  text : List ℕ → Claim

-- The claims that circuits read, and the whole object as `JSON.stringify` prints it.
pub record Claims : Type 0 where
  pub age : Claim
  pub country : Claim
  pub accredited : Claim
  pub json : List ℕ

pub data InputError : Type 0 where
  invalid_claim : (field : String) → InputError
  invalid_country : List ℕ → InputError
  unknown_circuit : String → InputError

pub data Checked (A : Type 0) : Type 0 where
  good : A → Checked A
  bad : InputError → Checked A

infixl 5 ◌>>=◌
abbrev pub ◌>>=◌ : {A B : Type 0} → Checked A → (A → Checked B) → Checked B
good a >>= k = k a
bad e >>= k = bad e

pub Checked-cases :
    {A : Type 0} (r : Checked A) → ((e : InputError) × (r ≡ bad e)) ⊎ ((a : A) × (r ≡ good a))
Checked-cases (bad e) = inl (e, refl)
Checked-cases (good a) = inr (a, refl)

-- `requireInt`; the bounds of every call are natural numbers
unfoldable pub require_int : Claim → (field : String) → (min max : ℕ) → Checked ℕ
require_int (int n) field min max =
    if ltb n min
    then bad (invalid_claim field)
    else if ltb max n
    then bad (invalid_claim field)
    else good n
require_int _ field min max = bad (invalid_claim field)

unfoldable pub require_boolean : Claim → (field : String) → Checked Bool
require_boolean (bool b) field = good b
require_boolean _ field = bad (invalid_claim field)

unfoldable pub require_string : Claim → (field : String) → Checked (List ℕ)
require_string (text []) field = bad (invalid_claim field)
require_string (text (c ∷ cs)) field = good (c ∷ cs)
require_string _ field = bad (invalid_claim field)

-- one character of `/^[A-Z]{2}$/`
abbrev pub is_upper : ℕ → Bool
is_upper c = leb b'A' c && leb c b'Z'

-- the test `/^[A-Z]{2}$/` and the sum that it guards
unfoldable pub encode_pair : List ℕ → List ℕ → Checked ℕ
encode_pair given (a ∷ b ∷ []) =
    if is_upper a && is_upper b then good (a * 256 + b) else bad (invalid_country given)
encode_pair given _ = bad (invalid_country given)

-- one round of the loop of `computeSanctionsHash`, on the bit pattern of `hash`: `hash << 5` is an
-- int32, the subtraction and the sum are exact, and `|= 0` wraps
unfoldable pub hash_round : (hash char : ℕ) → ℕ
hash_round hash char = int32 (int32 (hash * 2 ^ 5) + (2 ^ 32 - hash) + char)

unfoldable pub hash_loop : (hash : ℕ) → List ℕ → ℕ
hash_loop hash [] = hash
hash_loop hash (c ∷ cs) = hash_loop (hash_round hash c) cs

-- `computeSanctionsHash` of the claims' JSON text
unfoldable pub compute_sanctions_hash : List ℕ → ℕ
unfolding hash_loop hash_round
compute_sanctions_hash json = let h = hash_loop 0 json in if nat_eq h 0 then 1 else abs32 h

-- `input.json` of each circuit
pub data Input : Type 0 where
  age_proof : (age threshold : ℕ) → Input
  residency_proof : (country_code : ℕ) → (allowed_countries : List ℕ) → (allowed_count : ℕ) → Input
  accredited_investor : (accredited age : ℕ) → Input
  sanctions_check : (sanctions_hash clean_list_commitment : ℕ) → Input

abbrev pub units : String → List ℕ
units String.[] = []
units (String.◌∷◌ c s) = code c ∷ units s

-- the allowed countries
abbrev pub allowed_codes : List (List ℕ)
allowed_codes =
    units "US"
    ∷ units "GB"
    ∷ units "CA"
    ∷ units "AU"
    ∷ units "DE"
    ∷ units "FR"
    ∷ units "JP"
    ∷ units "SG"
    ∷ units "CH"
    ∷ units "NL"
    ∷ []

-- `text.toUpperCase()` is JavaScript's.
module _ (upper : List ℕ → List ℕ) where
  unfoldable pub encode_country : List ℕ → Checked ℕ
  unfolding encode_pair
  encode_country given = encode_pair given (upper given)

  unfoldable pub encode_all : List (List ℕ) → Checked (List ℕ)
  encode_all [] = good []
  encode_all (c ∷ cs) = do n ← encode_country c; ns ← encode_all cs; good (n ∷ ns)

  age_input : Claims → Checked Input
  age_input claims = do age ← require_int claims.age "age" 0 150; good (age_proof age 18)

  residency_input : Claims → Checked Input
  residency_input claims = do
    country ← require_string claims.country "country"
    n ← encode_country country
    allowed ← encode_all allowed_codes
    good (residency_proof n allowed 10)

  accredited_input : Claims → Checked Input
  accredited_input claims = do
    accredited ← require_boolean claims.accredited "accredited"
    age ← require_int claims.age "age" 0 150
    good (accredited_investor (if accredited then 1 else 0) age)

  -- `buildInput`
  unfoldable pub build_input : (circuit_id : String) → Claims → Checked Input
  unfolding age_input residency_input accredited_input
  build_input circuit_id claims =
      if circuit_id == "age-proof"
      then age_input claims
      else if circuit_id == "residency-proof"
      then residency_input claims
      else if circuit_id == "accredited-investor"
      then accredited_input claims
      else if circuit_id == "sanctions-check"
      then good (sanctions_check (compute_sanctions_hash claims.json) 0)
      else bad (unknown_circuit circuit_id)
