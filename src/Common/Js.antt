-- ===== src/Common/Js.antt =====
-- The parts of JavaScript's library that the services call and that have no definition in the
-- repository, as a parameter with the laws that are relied on.
use Prim.Native.Nat.{ℕ}
use Prim.Native.String.{String}
use mathlib.Core.Path.{◌≡◌}
use mathlib.Core.Option.{Option, some}

pub record Js : Type 0 where
  -- `String(n)` of a natural number, and `BigInt(text)`, which throws a SyntaxError at `none`
  pub of_number : ℕ → String
  pub big_int : String → Option ℕ
  pub big_int-of_number : (n : ℕ) → big_int (of_number n) ≡ some n
  -- `date.toISOString()` and `new Date(text)`, an invalid date at `none`
  pub iso : ℕ → String
  pub parse_date : String → Option ℕ
  pub parse_date-iso : (t : ℕ) → parse_date (iso t) ≡ some t
