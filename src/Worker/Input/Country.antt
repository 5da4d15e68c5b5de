-- ===== src/Worker/Input/Country.antt =====
-- The country code of `encodeCountry`, and the residency circuit's list of allowed countries.
use mathlib.Core.List.{Memᴰ}
use stprivy.Common.{
  ℕ, ◌+◌, ◌*◌, ◌/◌, ◌%◌, ◌≤◌, ◌≡◌, refl, sym, subst, ap, ◌∙◌, List, [], ◌∷◌, map, arith, inl, inr,
  true, ◌↔◌,
}
use mathlib.Core.Bool.{◌&&◌}
use stprivy.Common.Tests.{Bool-cases, length}
use stprivy.Common.Lists.{All}
use stprivy.Worker.Input.{
  Claims, Checked-cases, text, units, good, is_upper, encode_pair, encode_country, encode_all,
  allowed_codes, build_input, residency_proof, require_string,
}

abbrev pub IsLetter : ℕ → Type 0
IsLetter c = (b'A' ≤ c) × (c ≤ b'Z')

-- a pair of capital letters
pub record IsPair (n : ℕ) (cs : List ℕ) : Type 0 where
  pub shape : cs ≡ n / 256 ∷ (n % 256) ∷ []
  pub high : IsLetter (n / 256)
  pub low : IsLetter (n % 256)

letters : (a b : ℕ) → (is_upper a && is_upper b) ≡ true → IsLetter a × IsLetter b
letters a b h = ground arith

letters_IsPair : (a b : ℕ) → IsLetter a → IsLetter b → IsPair (a * 256 + b) (a ∷ b ∷ [])
letters_IsPair a b la lb =
    let high : (a * 256 + b) / 256 ≡ a = omega arith in
    let low : (a * 256 + b) % 256 ≡ b = omega arith in
    record { shape = λ i. sym high i ∷ sym low i ∷ []; high = rw high la; low = rw low lb }

encode_pair-IsPair : (given cs : List ℕ) (n : ℕ) → encode_pair given cs ≡ good n → IsPair n cs
unfolding encode_pair
encode_pair-IsPair given [] n h = cc
encode_pair-IsPair given (a ∷ []) n h = cc
encode_pair-IsPair given (a ∷ b ∷ []) n h = elim (Bool-cases (is_upper a && is_upper b)) [
  | inl e ↦
      let (la, lb) = letters a b e in
      let same : a * 256 + b ≡ n = ground (arith, e) in
      subst (λ m. IsPair m (a ∷ b ∷ [])) same (letters_IsPair a b la lb)
  | inr e ↦ ground (arith, e)
]
encode_pair-IsPair given (a ∷ b ∷ c ∷ cs) n h = cc

-- Two codes that stand for the same letters are the same.
IsPair-unique : (n m : ℕ) (cs : List ℕ) → IsPair n cs → IsPair m cs → n ≡ m
IsPair-unique n m cs h k =
    let same : n / 256 ∷ (n % 256) ∷ [] ≡ m / 256 ∷ (m % 256) ∷ [] = sym h.shape ∙ k.shape in
    let high : n / 256 ≡ m / 256 = cc same in let low : n % 256 ≡ m % 256 = cc same in omega arith

encode_pair-accepts : (given cs : List ℕ) (n : ℕ) → IsPair n cs → encode_pair given cs ≡ good n
unfolding encode_pair
encode_pair-accepts given cs n h = rw h.shape (ground (arith, h.high, h.low))

module _ (upper : List ℕ → List ℕ) where
  -- A country is accepted, with code n, exactly if in upper case it is the two capital letters
  -- n / 256 and n % 256: the code and the letters determine one another.
  pub encode_country_iff :
      (given : List ℕ) (n : ℕ) → (encode_country upper given ≡ good n) ↔ IsPair n (upper given)
  unfolding encode_country
  encode_country_iff given n =
      (encode_pair-IsPair given (upper given) n, encode_pair-accepts given (upper given) n)

  -- `toUpperCase` leaves a text of two capital letters as it is.
  module _ (capitals : (n : ℕ) (cs : List ℕ) → IsPair n cs → upper cs ≡ cs) where
    encode_table :
        (table : List (ℕ × List ℕ))
        → All (λ row. IsPair row.0 row.1) table
        → encode_all upper (map (λ row. row.1) table) ≡ good (map (λ row. row.0) table)
    unfolding encode_all
    encode_table [] h = refl
    encode_table ((n, cs) ∷ table) (pair, h) =
        rw ((encode_country_iff cs n).1 (rw (capitals n cs pair) pair), encode_table table h)

module _ {n k : ℕ} {cs ds : List ℕ} {ns : List ℕ} {rest : List (List ℕ)} (pair : IsPair n cs)
    (here : IsPair k ds) where
  mem_code : (Memᴰ n ns → Memᴰ cs rest) → Memᴰ n (k ∷ ns) → Memᴰ cs (ds ∷ rest)
  mem_code ih (Memᴰ.head e) =
      Memᴰ.head (pair.shape ∙ ap (λ (m : ℕ). m / 256 ∷ (m % 256) ∷ []) e ∙ sym here.shape)
  mem_code ih (Memᴰ.tail m) = Memᴰ.tail (ih m)

  mem_letters : (Memᴰ cs rest → Memᴰ n ns) → Memᴰ cs (ds ∷ rest) → Memᴰ n (k ∷ ns)
  mem_letters ih (Memᴰ.head e) = Memᴰ.head (IsPair-unique n k ds (subst (IsPair n) e pair) here)
  mem_letters ih (Memᴰ.tail m) = Memᴰ.tail (ih m)

mem_table :
    (n : ℕ) (cs : List ℕ) (table : List (ℕ × List ℕ))
    → IsPair n cs
    → All (λ row. IsPair row.0 row.1) table
    → Memᴰ n (map (λ row. row.0) table) ↔ Memᴰ cs (map (λ row. row.1) table)
mem_table n cs [] pair h = (λ m. elim m [ ], λ m. elim m [ ])
mem_table n cs ((k, ds) ∷ table) pair (here, h) =
    let (into, back) = mem_table n cs table pair h in
    (mem_code pair here into, mem_letters pair here back)

abbrev allowed_table : List (ℕ × List ℕ)
allowed_table =
    (21843, units "US")
    ∷ (18242, units "GB")
    ∷ (17217, units "CA")
    ∷ (16725, units "AU")
    ∷ (17477, units "DE")
    ∷ (18002, units "FR")
    ∷ (19024, units "JP")
    ∷ (21319, units "SG")
    ∷ (17224, units "CH")
    ∷ (20044, units "NL")
    ∷ []

allowed_IsPair : All (λ row. IsPair row.0 row.1) allowed_table
allowed_IsPair = ground arith

-- the codes of the allowed countries
abbrev pub allowed_numbers : List ℕ
allowed_numbers = 21843 ∷ 18242 ∷ 17217 ∷ 16725 ∷ 17477 ∷ 18002 ∷ 19024 ∷ 21319 ∷ 17224 ∷ 20044 ∷ []

module _ (upper : List ℕ → List ℕ)
    (capitals : (n : ℕ) (cs : List ℕ) → IsPair n cs → upper cs ≡ cs) where
  encode_allowed : encode_all upper allowed_codes ≡ good allowed_numbers
  encode_allowed = encode_table upper capitals allowed_table allowed_IsPair

  residency_good :
      (claims : Claims) (given : List ℕ) (n count : ℕ) (allowed : List ℕ)
      → claims.country ≡ text given
      → build_input upper "residency-proof" claims ≡ good (residency_proof n allowed count)
      → (encode_country upper given ≡ good n) × (allowed ≡ allowed_numbers) × (count ≡ 10)
  unfolding build_input require_string
  residency_good claims [] n count allowed e h = ground (arith, e)
  residency_good claims (c ∷ cs) n count allowed e h =
      elim (Checked-cases (encode_country upper (c ∷ cs))) [
        | inl (x, f) ↦ ground (arith, e, f)
        | inr (m, f) ↦ ground (arith, e, f, encode_allowed)
      ]

  -- Where `toUpperCase` leaves pairs of capital letters as they are, and for a claim that is
  -- accepted: the residency circuit gets as many allowed codes as it is told, and the country's
  -- code is among them exactly if the country, in upper case, is one of the ten allowed countries.
  pub build_input_residency :
      (claims : Claims) (given : List ℕ) (n count : ℕ) (allowed : List ℕ)
      → claims.country ≡ text given
      → build_input upper "residency-proof" claims ≡ good (residency_proof n allowed count)
      → (count ≡ length allowed) × (Memᴰ n allowed ↔ Memᴰ (upper given) allowed_codes)
  build_input_residency claims given n count allowed e h =
      let (coded, same, ten) = residency_good claims given n count allowed e h in
      (
        ten ∙ ap length (sym same),
        rw same (
            mem_table n (upper given) allowed_table ((encode_country_iff upper given n).0 coded)
              allowed_IsPair),
      )
