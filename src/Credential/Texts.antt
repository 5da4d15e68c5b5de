-- ===== src/Credential/Texts.antt =====
-- The texts that credential.service.ts takes apart: `text.replace(pattern, "")` with a text as
-- the pattern, which removes its first occurrence, and `text.split("#")[0]`.
use Prim.Native.Char.{Char, code}
use Prim.Native.String.{◌++◌}
use text.Mathlib.TextLemmas.{cons-append, nil-append, nil≢cons, append-nil, tail-eq_of_cons-eq}
use stprivy.Common.{
  ◌≡◌, refl, ap, ◌∙◌, String, Bool, true, false, Option, none, some, arith, inl, inr, subst,
}
use stprivy.Common.Tests.{nat_eq, Bool-cases, if◌then◌else◌}

-- what follows the pattern, where the text starts with it
unfoldable pub after_prefix : (pattern text : String) → Option String
after_prefix String.[] text = some text
after_prefix (String.◌∷◌ c pattern) String.[] = none
after_prefix (String.◌∷◌ c pattern) (String.◌∷◌ d text) =
    let rest = after_prefix pattern text in if nat_eq (code c) (code d) then rest else none

-- `text.includes(pattern)`
unfoldable pub includes : (pattern text : String) → Bool
includes pattern String.[] = elim (after_prefix pattern "") [ some rest ↦ true | none ↦ false ]
includes pattern (String.◌∷◌ c text) =
    let later = includes pattern text in
    elim (after_prefix pattern (String.◌∷◌ c text)) [ some rest ↦ true | none ↦ later ]

abbrev or_keep : Option String → String → String
or_keep (some rest) other = rest
or_keep none other = other

unfoldable pub remove_first : (pattern text : String) → String
unfolding after_prefix
remove_first pattern String.[] = ""
remove_first pattern (String.◌∷◌ c text) =
    let later = remove_first pattern text in
    or_keep (after_prefix pattern (String.◌∷◌ c text)) (String.◌∷◌ c later)

-- the code of `#`
unfoldable pub before_hash : (text : String) → String
before_hash String.[] = ""
before_hash (String.◌∷◌ c text) =
    let rest = before_hash text in if nat_eq (code c) b'#' then "" else String.◌∷◌ c rest

unfoldable pub HasNoHash : String → Type 0
HasNoHash text = before_hash text ≡ text

after_prefix-append : (pattern text : String) → after_prefix pattern (pattern ++ text) ≡ some text
unfolding after_prefix
after_prefix-append String.[] text = rw nil-append
after_prefix-append (String.◌∷◌ c pattern) text =
    rw cons-append (ground (arith, after_prefix-append pattern text))

-- A text that is not empty is removed where it stands first.
pub remove_first-append :
    (c : Char) (pattern text : String)
    → remove_first (String.◌∷◌ c pattern) (String.◌∷◌ c pattern ++ text) ≡ text
unfolding remove_first
remove_first-append c pattern text =
    let found : after_prefix (String.◌∷◌ c pattern) (String.◌∷◌ c (pattern ++ text)) ≡ some text =
      subst (λ (t : String). after_prefix (String.◌∷◌ c pattern) t ≡ some text)
        (cons-append c pattern text) (after_prefix-append (String.◌∷◌ c pattern) text) in
    rw cons-append (rw found refl)

HasNoHash-tail :
    (c : Char) (text : String)
    → HasNoHash (String.◌∷◌ c text)
    → (nat_eq (code c) b'#' ≡ false) × HasNoHash text
unfolding HasNoHash before_hash
HasNoHash-tail c text h =
    let split : (if nat_eq (code c) b'#' then String.[] else String.◌∷◌ c (before_hash text))
        ≡ String.◌∷◌ c text =
      h in
    elim (Bool-cases (nat_eq (code c) b'#')) [
      | inl e ↦
          let bad : String.[] ≡ String.◌∷◌ c text =
            subst
              (λ (b : Bool).
                (if b then String.[] else String.◌∷◌ c (before_hash text)) ≡ String.◌∷◌ c text)
              e split in
          absurd (nil≢cons bad)
      | inr e ↦
          let same : String.◌∷◌ c (before_hash text) ≡ String.◌∷◌ c text =
            subst
              (λ (b : Bool).
                (if b then String.[] else String.◌∷◌ c (before_hash text)) ≡ String.◌∷◌ c text)
              e split in
          (e, tail-eq_of_cons-eq same)
    ]

-- A text without `#` is what stands before a `#` that follows it.
pub before_hash-append :
    (text rest : String) → HasNoHash text → before_hash (text ++ rest) ≡ text ++ before_hash rest
unfolding before_hash
before_hash-append String.[] rest h = rw (nil-append, nil-append) refl
before_hash-append (String.◌∷◌ c text) rest h =
    let (other, h') = HasNoHash-tail c text h in
    rw (cons-append, cons-append, other) (ap (String.◌∷◌ c) (before_hash-append text rest h'))

-- From the name of an issuer's key the address comes back.
pub address_of_key :
    (address : String)
    → HasNoHash address
    → remove_first "did:stellar:" (before_hash (("did:stellar:" ++ address) ++ "#key-1")) ≡ address
unfolding HasNoHash before_hash
address_of_key address plain =
    let whole : HasNoHash ("did:stellar:" ++ address) =
      before_hash-append "did:stellar:" address refl ∙ ap (λ t. "did:stellar:" ++ t) plain in
    let cut : before_hash (("did:stellar:" ++ address) ++ "#key-1") ≡ "did:stellar:" ++ address =
      before_hash-append ("did:stellar:" ++ address) "#key-1" whole ∙ append-nil _ in
    ap (remove_first "did:stellar:") cut ∙ remove_first-append "d" "id:stellar:" address
