-- ===== src/Domain/Queries.antt =====
-- The queries of many rows that the services make, as parameters with `findMany`'s documented
-- behaviour, and the tables whose rows stand under their own id.
use stprivy.Common.{String, ◌≡◌, ◌∙◌, ap, sym, some, ◌==◌, inl, inr, arith, eq_iff}
use stprivy.Common.Tests.{Bool-cases}
use stprivy.Common.Table.{Table}
use stprivy.Common.Listing.{Listing, assoc_listing}
use stprivy.Domain.Db.{Prisma, assoc_db}

pub record Queries (p : Prisma) : Type 0 where
  pub credentials : Listing p.credentials
  pub proofs : Listing p.proofs
  pub verifications : Listing p.verifications
  pub requests : Listing p.requests

abbrev pub assoc_queries : Queries assoc_db
assoc_queries = record {
  credentials = assoc_listing;
  proofs = assoc_listing;
  verifications = assoc_listing;
  requests = assoc_listing;
}

module _ {Row : Type 0} (table : Table Row) (id : Row → String) where
  abbrev pub Keyed : table.Rows → Type 0
  Keyed t = (k : String) (row : Row) → table.find k t ≡ some row → id row ≡ k

  pub Keyed-put :
      (k : String) (new : Row) (t : table.Rows) → id new ≡ k → Keyed t → Keyed (table.put k new t)
  Keyed-put k new t named all j row found = elim (Bool-cases (k == j)) [
    | inl hit ↦
        let one : new ≡ row = ground (arith, table.find-put k j new t, hit, found) in
        ap id (sym one) ∙ (named ∙ (eq_iff k j).0 hit)
    | inr miss ↦ all j row (ground (arith, table.find-put k j new t, miss, found))
  ]
