-- ===== src/Common/Texts.antt =====
-- The Boolean equality of texts.
use Prim.Native.String.{String}
use mathlib.Core.Path.{◌≡◌}
use mathlib.Core.Logic.{◌≢◌, inl, inr}
use mathlib.Core.Bool.{false}
use text.Mathlib.Text.{◌==◌}
use text.Mathlib.TextEquality.{eq_iff}
use stprivy.Common.Tests.{Bool-cases}

pub text-neq : (a b : String) → a ≢ b → (a == b) ≡ false
text-neq a b h = elim (Bool-cases (a == b)) [
  | inl hit ↦ absurd (h ((eq_iff a b).0 hit))
  | inr miss ↦ miss
]
