-- ===== src/Common/Listing.antt =====
-- The Prisma client's `findMany` on a table. Neither is part of the repository: what a query answers
-- with is a parameter of the model, and its documented behaviour, that these are the rows of the
-- table for which the condition holds, is its law. The order of the rows is left open.
use Prim.Native.String.{String}
use mathlib.Core.Path.{◌≡◌, refl, subst}
use mathlib.Core.Logic.{◌↔◌, inl, inr}
use mathlib.Core.Bool.{Bool, true, false}
use mathlib.Core.Option.{some}
use mathlib.Core.List.{List, [], ◌∷◌, Memᴰ}
use text.Mathlib.Text.{◌==◌}
use text.Mathlib.TextEquality.{eq_iff}
use text.Mathlib.TextPositions.{eq_refl}
use native.Mathlib.Omega.{arith}
use stprivy.Common.Tests.{Bool-cases, if◌then◌else◌}
use stprivy.Common.Table.{Table, assoc_table, lookup}
use stprivy.Common.Lists.{filter, filter-Memᴰ}

pub record Listing {Row : Type 0} (table : Table Row) : Type 0 where
  pub find_many : (Row → Bool) → table.Rows → List Row
  pub find_many-Memᴰ :
      (test : Row → Bool) (row : Row) (t : table.Rows)
      → Memᴰ row (find_many test t)
        ↔ (((k : String) × (table.find k t ≡ some row)) × (test row ≡ true))

-- An association list is listed without the entries that a later write has covered.
abbrev covers : List String → String → Bool
covers [] k = false
covers (j ∷ seen) k = if j == k then true else covers seen k

covers-differs :
    (seen : List String) (j k : String)
    → covers seen j ≡ true
    → covers seen k ≡ false
    → (j == k) ≡ false
covers-differs seen j k h c = elim (Bool-cases (j == k)) [
  | inl hit ↦ absurd (ground (arith, subst (λ x. covers seen x ≡ true) ((eq_iff j k).0 hit) h, c))
  | inr miss ↦ miss
]

module _ {Row : Type 0} where
  abbrev rows_past : List String → List (String × Row) → List Row
  rows_past seen [] = []
  rows_past seen ((k, r) ∷ t) =
      if covers seen k then rows_past seen t else (r ∷ rows_past (k ∷ seen) t)

  rows_past_sound :
      (seen : List String) (x : Row) (t : List (String × Row))
      → Memᴰ x (rows_past seen t)
      → (k : String) × (covers seen k ≡ false) × (lookup k t ≡ some x)
  rows_past_sound seen x [] h = elim h [ ]
  rows_past_sound seen x ((j, r) ∷ t) h = elim (Bool-cases (covers seen j)) [
    | inl hit ↦
        let (k, c, e) = rows_past_sound seen x t (
          subst (λ b. Memᴰ x (if b then rows_past seen t else (r ∷ rows_past (j ∷ seen) t))) hit
            h) in
        (k, c, rw (covers-differs seen j k hit c) e)
    | inr miss ↦
        elim (subst (λ b. Memᴰ x (if b then rows_past seen t else (r ∷ rows_past (j ∷ seen) t)))
          miss h) [
            | Memᴰ.head e ↦ (j, miss, rw (eq_refl j, e) refl)
            | Memᴰ.tail m ↦
                let (k, c, e) = rows_past_sound (j ∷ seen) x t m in
                (k, ground (arith, c), ground (arith, c, e))
          ]
  ]

  rows_past_complete :
      (seen : List String) (k : String) (x : Row) (t : List (String × Row))
      → covers seen k ≡ false
      → lookup k t ≡ some x
      → Memᴰ x (rows_past seen t)
  rows_past_complete seen k x [] h e = absurd (ground (arith, e))
  rows_past_complete seen k x ((j, r) ∷ t) h e = elim (Bool-cases (j == k)) [
    | inl hit ↦
        let bare : covers seen j ≡ false = rw ((eq_iff j k).0 hit) h in
        rw bare (Memᴰ.head (ground (arith, hit, e)))
    | inr miss ↦
        let deeper : lookup k t ≡ some x = ground (arith, miss, e) in
        elim (Bool-cases (covers seen j)) [
          | inl over ↦ rw over (rows_past_complete seen k x t h deeper)
          | inr bare ↦
              rw bare
                (Memᴰ.tail (rows_past_complete (j ∷ seen) k x t (ground (arith, miss, h)) deeper))
        ]
  ]

pub rows-Memᴰ :
    {Row : Type 0} (test : Row → Bool) (row : Row) (t : List (String × Row))
    → Memᴰ row (filter test (rows_past [] t))
      ↔ (((k : String) × (lookup k t ≡ some row)) × (test row ≡ true))
rows-Memᴰ test row t = (
  λ h.
      let (m, good) = (filter-Memᴰ test row (rows_past [] t)).0 h in
      let (k, c, e) = rows_past_sound [] row t m in ((k, e), good),
  λ ((k, e), good).
      (filter-Memᴰ test row (rows_past [] t)).1 (rows_past_complete [] k row t refl e, good),
)

abbrev pub assoc_listing : {Row : Type 0} → Listing (assoc_table Row)
assoc_listing = record {
  find_many = λ test t. filter test (rows_past [] t);
  find_many-Memᴰ = rows-Memᴰ;
}
