-- ===== src/Common/Lists.antt =====
-- Predicates of the elements of a list, and what `Array.prototype.filter` keeps of it.
use mathlib.Core.Path.{◌≡◌, refl, sym, subst}
use mathlib.Core.Logic.{◌↔◌, inl, inr}
use mathlib.Core.Bool.{Bool, true, false}
use mathlib.Core.List.{List, [], ◌∷◌, ◌++◌, Memᴰ}
use stprivy.Common.Tests.{Bool-cases}

module _ {ℓ κ} {A : Type ℓ} where
  abbrev pub All : (A → Type κ) → List A → Type κ
  All P [] = Unit
  All P (x ∷ xs) = P x × All P xs

  pub All-append : (P : A → Type κ) (xs ys : List A) → All P xs → All P ys → All P (xs ++ ys)
  All-append P [] ys h k = k
  All-append P (x ∷ xs) ys (p, h) k = (p, All-append P xs ys h k)

module _ {ℓ} {A : Type ℓ} where
  -- the list with or without its next element
  abbrev pub keep : Bool → A → List A → List A
  keep true x xs = x ∷ xs
  keep false x xs = xs

  abbrev pub filter : (A → Bool) → List A → List A
  filter test [] = []
  filter test (x ∷ xs) = keep (test x) x (filter test xs)

  filter_sound :
      (test : A → Bool) (a : A) (xs : List A)
      → Memᴰ a (filter test xs)
      → Memᴰ a xs × (test a ≡ true)
  filter_sound test a [] h = elim h [ ]
  filter_sound test a (x ∷ xs) h = elim (Bool-cases (test x)) [
    | inl hit ↦ elim (subst (λ b. Memᴰ a (keep b x (filter test xs))) hit h) [
      | Memᴰ.head e ↦ (Memᴰ.head e, rw e hit)
      | Memᴰ.tail k ↦ let (m, t) = filter_sound test a xs k in (Memᴰ.tail m, t)
    ]
    | inr miss ↦
        let (m, t) =
          filter_sound test a xs (subst (λ b. Memᴰ a (keep b x (filter test xs))) miss h) in
        (Memᴰ.tail m, t)
  ]

  filter_complete :
      (test : A → Bool) (a : A) (xs : List A) → Memᴰ a xs → test a ≡ true → Memᴰ a (filter test xs)
  filter_complete test a [] m h = elim m [ ]
  filter_complete test a (x ∷ xs) (Memᴰ.head e) h = rw (sym e, h) (Memᴰ.head refl)
  filter_complete test a (x ∷ xs) (Memᴰ.tail m) h = elim (Bool-cases (test x)) [
    | inl hit ↦ rw hit (Memᴰ.tail (filter_complete test a xs m h))
    | inr miss ↦ rw miss (filter_complete test a xs m h)
  ]

  pub filter-Memᴰ :
      (test : A → Bool) (a : A) (xs : List A)
      → Memᴰ a (filter test xs) ↔ (Memᴰ a xs × (test a ≡ true))
  filter-Memᴰ test a xs = (filter_sound test a xs, λ (m, h). filter_complete test a xs m h)
