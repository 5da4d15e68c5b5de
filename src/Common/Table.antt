-- ===== src/Common/Table.antt =====
-- A table of the database as the Prisma client serves it. The client and the database are not
-- part of the repository: a table is a parameter of the model, with the documented behaviour of
-- `findUnique`, `create` and `update` as its laws. Rows are kept under one unique column.
use Prim.Native.String.{String}
use mathlib.Core.Path.{◌≡◌, refl}
use mathlib.Core.Option.{Option, none, some}
use mathlib.Core.List.{List, [], ◌∷◌}
use text.Mathlib.Text.{◌==◌}
use mathlib.Core.Logic.{◌⊎◌, inl, inr}
use native.Mathlib.Omega.{arith}
use text.Mathlib.TextEquality.{eq_iff}
use stprivy.Common.Tests.{if◌then◌else◌, Bool-cases}
use stprivy.Common.Exec.{Result, ok, err, Error, throws, failure}

-- P2002: `create` under a key that is taken
abbrev pub unique_violation : Error
unique_violation = throws failure "Unique constraint failed"

-- P2025: `update` of a row that is not there
abbrev pub record_missing : Error
record_missing = throws failure "Record to update not found"

-- A write answers with the row as it now stands, beside the new contents.
module _ {Row Rows : Type 0} where
  abbrev pub write_fresh : Option Row → Row → Rows → Result (Row × Rows)
  write_fresh none r t = ok (r, t)
  write_fresh (some old) r t = err unique_violation

  -- a write that another unique column refuses where a row with its value is there
  abbrev pub unless_taken : Option Row → Result (Row × Rows) → Result (Row × Rows)
  unless_taken none r = r
  unless_taken (some old) r = err unique_violation

  abbrev pub write_found : Option Row → (Row → Row) → (Row → Rows) → Result (Row × Rows)
  write_found none change t = err record_missing
  write_found (some r) change t = ok (change r, t (change r))

pub record Table (Row : Type 0) : Type 1 where
  pub Rows : Type 0
  pub find : String → Rows → Option Row
  -- the contents with a row written under a key
  pub put : String → Row → Rows → Rows
  pub create : String → Row → Rows → Result (Row × Rows)
  pub update : String → (Row → Row) → Rows → Result (Row × Rows)
  pub find-put :
      (k j : String) (r : Row) (t : Rows)
      → find j (put k r t) ≡ (if k == j then some r else find j t)
  pub create_lem :
      (k : String) (r : Row) (t : Rows) → create k r t ≡ write_fresh (find k t) r (put k r t)
  pub update_lem :
      (k : String) (f : Row → Row) (t : Rows)
      → update k f t ≡ write_found (find k t) f (λ r. put k r t)

module _ {Row : Type 0} (table : Table Row) where
  pub find-put-cases :
      (k j : String) (new row : Row) (t : table.Rows)
      → table.find j (table.put k new t) ≡ some row
      → (new ≡ row) ⊎ (table.find j t ≡ some row)
  find-put-cases k j new row t found = elim (Bool-cases (k == j)) [
    | inl hit ↦ ground (arith, table.find-put k j new t, hit, found)
    | inr miss ↦ inr (ground (arith, table.find-put k j new t, miss, found))
  ]

  pub find-fresh-put :
      (k j : String) (new row : Row) (t : table.Rows)
      → table.find k t ≡ none
      → table.find j t ≡ some row
      → table.find j (table.put k new t) ≡ some row
  find-fresh-put k j new row t fresh found =
      ground (arith, eq_iff k j, table.find-put k j new t, fresh, found)

-- An association list meets the laws.
module _ {Row : Type 0} where
  abbrev pub lookup : String → List (String × Row) → Option Row
  lookup k [] = none
  lookup k ((j, r) ∷ t) = if j == k then some r else lookup k t

abbrev pub assoc_table : (Row : Type 0) → Table Row
assoc_table Row = record {
  Rows = List (String × Row);
  find = lookup;
  put = λ k r t. (k, r) ∷ t;
  create = λ k r t. write_fresh (lookup k t) r ((k, r) ∷ t);
  update = λ k f t. write_found (lookup k t) f (λ r. (k, r) ∷ t);
  find-put = λ k j r t. refl;
  create_lem = λ k r t. refl;
  update_lem = λ k f t. refl;
}
