-- ===== src/Common/Exec.antt =====
-- Handlers that read and write the server's state and may throw. What was written before a throw
-- stays written, so the state comes back beside the error too.
use mathlib.Core.Path.{◌≡◌, refl}
use mathlib.Core.Logic.{◌⊎◌, inl, inr}
use mathlib.Core.Option.{Option, none, some}
use mathlib.Core.Bool.{Bool, true, false}
use Prim.Native.String.{String}

-- NestJS's exceptions by their HTTP status; `failure` is a plain `Error`.
pub data Status : Type 0 where
  bad_request unauthorized forbidden not_found conflict failure : Status

pub record Error : Type 0 where
  pub status : Status
  pub message : String

pub data Result {ℓ} (A : Type ℓ) : Type ℓ where
  ok : A → Result A
  err : Error → Result A

module _ {ℓ} {A : Type ℓ} where
  pub Result-cases : (r : Result A) → ((a : A) × (r ≡ ok a)) ⊎ ((e : Error) × (r ≡ err e))
  Result-cases (ok a) = inl (a, refl)
  Result-cases (err e) = inr (e, refl)

abbrev pub throws : Status → String → Error
throws status message = record { status = status; message = message }

abbrev pub Exec {ℓ} : Type ℓ → Type ℓ → Type ℓ
Exec S A = S → Result A × S

module _ {ℓ} {S A : Type ℓ} where
  abbrev pub pure : A → Exec S A
  pure a s = (ok a, s)

  abbrev pub raise : Error → Exec S A
  raise e s = (err e, s)

  abbrev pub lift : Result A → Exec S A
  lift r s = (r, s)

  abbrev pub gets : (S → A) → Exec S A
  gets read s = (ok (read s), s)

  -- `if (!x) throw e` on a nullable value
  abbrev pub require : Error → Option A → Exec S A
  require e none s = (err e, s)
  require e (some a) s = (ok a, s)

  -- `catch (err) { … }`, from the state that the throw left
  abbrev pub recover : Result A × S → (Error → Exec S A) → Result A × S
  recover (ok a, s) h = (ok a, s)
  recover (err e, s) h = h e s

  abbrev pub try : Exec S A → (Error → Exec S A) → Exec S A
  try m h s = recover (m s) h

module _ {ℓ} {S : Type ℓ} where
  abbrev pub put : S → Exec S (Unit {ℓ})
  put t s = (ok tt, t)

  abbrev pub modify : (S → S) → Exec S (Unit {ℓ})
  modify f s = (ok tt, f s)

  -- `if (test) throw e`
  abbrev pub throw_if : Bool → Error → Exec S (Unit {ℓ})
  throw_if true e s = (err e, s)
  throw_if false e s = (ok tt, s)

module _ {ℓ} {S A B : Type ℓ} where
  abbrev pub resume : Result A × S → (A → Exec S B) → Result B × S
  resume (ok a, s) k = k a s
  resume (err e, s) k = (err e, s)

  infixl 5 ◌>>=◌ ◌>>◌
  abbrev pub ◌>>=◌ : Exec S A → (A → Exec S B) → Exec S B
  ◌>>=◌ m k s = resume (m s) k

  abbrev pub ◌>>◌ : Exec S A → Exec S B → Exec S B
  ◌>>◌ m k s = resume (m s) (λ _. k)
