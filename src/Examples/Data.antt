-- ===== src/Examples/Data.antt =====
-- A JavaScript library whose texts of numbers are unary, for the concrete runs.
use stprivy.Common.{ℕ, zero, suc, ◌≡◌, refl, ap, String, some}
use stprivy.Common.Js.{Js}

unfoldable pub unary : ℕ → String
unary zero = ""
unary (suc n) = String.◌∷◌ "x" (unary n)

unfoldable pub count : String → ℕ
count String.[] = 0
count (String.◌∷◌ c s) = suc (count s)

pub count-unary : (n : ℕ) → count (unary n) ≡ n
unfolding count unary
count-unary zero = refl
count-unary (suc n) = ap suc (count-unary n)

abbrev pub unary_js : Js
unary_js = record {
  of_number = unary;
  big_int = λ s. some (count s);
  big_int-of_number = λ n. ap some (count-unary n);
  iso = unary;
  parse_date = λ s. some (count s);
  parse_date-iso = λ n. ap some (count-unary n);
}
