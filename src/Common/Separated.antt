-- ===== src/Common/Separated.antt =====
-- Texts that are joined with a separator, as `Array.prototype.join` does, and taken apart again.
use Prim.Native.Char.{Char, code}
use Prim.Native.String.{String, ◌++◌}
use text.Mathlib.TextLemmas.{cons-append, nil-append}
use mathlib.Core.Path.{◌≡◌, refl, ap, ◌∙◌}
use mathlib.Core.Bool.{true, false}
use mathlib.Core.List.{List, [], ◌∷◌}
use native.Mathlib.Omega.{arith}
use stprivy.Common.Tests.{nat_eq, if◌then◌else◌}
use stprivy.Common.Lists.{All}

-- `texts.join(separator)`
unfoldable pub join : Char → List String → String
join sep [] = ""
join sep (x ∷ []) = x
join sep (x ∷ y ∷ rest) = x ++ String.◌∷◌ sep (join sep (y ∷ rest))

abbrev cons_head : Char → List String → List String
cons_head c [] = String.◌∷◌ c "" ∷ []
cons_head c (x ∷ rest) = String.◌∷◌ c x ∷ rest

-- the parts of a text between its separators
unfoldable pub split : Char → String → List String
split sep String.[] = "" ∷ []
split sep (String.◌∷◌ c text) =
    let rest = split sep text in if nat_eq (code c) (code sep) then "" ∷ rest else cons_head c rest

abbrev pub HasNone : Char → String → Type 0
HasNone sep String.[] = Unit {0}
HasNone sep (String.◌∷◌ c text) = (nat_eq (code c) (code sep) ≡ false) × HasNone sep text

nat_eq_refl : (n : _) → nat_eq n n ≡ true
nat_eq_refl n = ground arith

split-plain : (sep : Char) (x : String) → HasNone sep x → split sep x ≡ x ∷ []
unfolding split
split-plain sep String.[] h = refl
split-plain sep (String.◌∷◌ c x) (h, hs) = rw (h, split-plain sep x hs) refl

split-append :
    (sep : Char) (x rest : String)
    → HasNone sep x
    → split sep (x ++ String.◌∷◌ sep rest) ≡ x ∷ split sep rest
unfolding split
split-append sep String.[] rest h =
    ap (split sep) (nil-append (String.◌∷◌ sep rest)) ∙ rw (nat_eq_refl (code sep)) refl
split-append sep (String.◌∷◌ c x) rest (h, hs) =
    rw cons-append (rw (h, split-append sep x rest hs) refl)

pub split-join :
    (sep : Char) (x : String) (xs : List String)
    → All (HasNone sep) (x ∷ xs)
    → split sep (join sep (x ∷ xs)) ≡ x ∷ xs
unfolding join
split-join sep x [] (h, hs) = split-plain sep x h
split-join sep x (y ∷ xs) (h, hs) =
    split-append sep x (join sep (y ∷ xs)) h ∙ ap (◌∷◌ x) (split-join sep y xs hs)

HasNone-append : (sep : Char) (x y : String) → HasNone sep x → HasNone sep y → HasNone sep (x ++ y)
HasNone-append sep String.[] y h k = rw nil-append k
HasNone-append sep (String.◌∷◌ c x) y (h, hs) k = rw cons-append (h, HasNone-append sep x y hs k)

pub join-HasNone :
    (sep other : Char) (xs : List String)
    → nat_eq (code other) (code sep) ≡ false
    → All (HasNone sep) xs
    → HasNone sep (join other xs)
unfolding join
join-HasNone sep other [] differs h = tt
join-HasNone sep other (x ∷ []) differs (h, hs) = h
join-HasNone sep other (x ∷ y ∷ xs) differs (h, hs) =
    HasNone-append sep x (String.◌∷◌ other (join other (y ∷ xs))) h
      (differs, join-HasNone sep other (y ∷ xs) differs hs)
