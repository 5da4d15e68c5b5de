-- ===== src/Registry/Issuers.antt =====
-- The issuers' table: the `upsert` of the platform's issuer that credential.controller.ts and
-- veriff.service.ts share, and issuer.controller.ts under apps/server/src/modules/issuers. Rows are
-- kept under the DID; the other unique columns of the table are an index.
use stprivy.Common.{
  ◌≡◌, refl, sym, ap, ◌∙◌, String, true, false, Option, none, some, List, ◌∷◌, ◌==◌, arith, eq_iff,
  eq_refl, inl, inr,
}
use stprivy.Common.Tests.{Option-cases, Bool-cases, if◌then◌else◌}
use stprivy.Common.Exec.{Exec, Result, Error, ok, err, not_found, throws, gets, ◌>>=◌}
use stprivy.Domain.{Issuer}
use stprivy.Domain.Db.{Prisma, Db, create_issuer, update_issuer}
use stprivy.Did.{did_of}
use stprivy.Credential.Texts.{remove_first, remove_first-append}

-- The unique columns `stellarAddress` and `id`, with what a write of the row under a DID makes of
-- them. No write of the repository changes an issuer's address.
pub record IssuerIndex (p : Prisma) : Type 0 where
  pub by_address : String → p.issuers.Rows → Option Issuer
  pub by_id : String → p.issuers.Rows → Option Issuer
  pub by_address-put :
      (did address : String) (r : Issuer) (t : p.issuers.Rows)
      → ((old : Issuer) → p.issuers.find did t ≡ some old → old.stellar_address ≡ r.stellar_address)
      → by_address address (p.issuers.put did r t)
        ≡ (if r.stellar_address == address then some r else by_address address t)

abbrev pub no_issuer : Error
no_issuer = throws not_found "Issuer not found"

abbrev pub activated : Issuer → Issuer
activated r = record r { active = true }

abbrev pub deactivated : Issuer → Issuer
deactivated r = record r { active = false }

-- the row that the `upsert` writes, by the row that was there; `id` is a new row's id
abbrev pub upserted : (id address : String) → Option Issuer → Issuer
upserted id address none = record {
  id = id;
  did = did_of address;
  stellar_address = address;
  name = "STPrivy KYC Service";
  active = true;
}
upserted id address (some r) = activated r

pub upserted-active :
    (id address : String) (o : Option Issuer) → (upserted id address o).active ≡ true
upserted-active id address none = refl
upserted-active id address (some r) = refl

module _ (p : Prisma) (index : IssuerIndex p) where
  abbrev upsert : (id address : String) → Option Issuer → Exec (Db p) Issuer
  upsert id address none = create_issuer p (did_of address) (upserted id address none)
  upsert id address (some r) = update_issuer p r.did activated

  -- `prisma.issuer.upsert`
  unfoldable pub upsert_issuer : (id address : String) → Exec (Db p) Issuer
  upsert_issuer id address = do
    found ← gets (λ s. index.by_address address s.issuers)
    upsert id address found

  -- Both columns name the same rows, and an issuer's DID is its address's.
  pub record Indexed (t : p.issuers.Rows) : Type 0 where
    pub same : (address : String) → index.by_address address t ≡ p.issuers.find (did_of address) t
    pub named :
        (address : String) (r : Issuer)
        → p.issuers.find (did_of address) t ≡ some r
        → (r.did ≡ did_of address) × (r.stellar_address ≡ address)

  pub upsert_issuer_lem :
      (id address : String) (s : Db p)
      → Indexed s.issuers
      → let row = upserted id address (p.issuers.find (did_of address) s.issuers) in
        upsert_issuer id address s
        ≡ (ok row, record s { issuers = p.issuers.put (did_of address) row s.issuers })
  unfolding upsert_issuer
  upsert_issuer_lem id address s good =
      elim (Option-cases (p.issuers.find (did_of address) s.issuers)) [
        | inl e ↦ rw (good.same, e, p.issuers.create_lem, e) refl
        | inr (r, e) ↦
            rw (good.same, e)
              (ap (λ k. update_issuer p k activated s) (good.named address r e).0
                ∙ rw (p.issuers.update_lem, e) refl)
      ]

  did_of-injective : (a b : String) → did_of a ≡ did_of b → a ≡ b
  did_of-injective a b h =
      sym (remove_first-append "d" "id:stellar:" a)
      ∙ ap (remove_first "did:stellar:") h
      ∙ remove_first-append "d" "id:stellar:" b

  same_key : (a b : String) → (did_of a == did_of b) ≡ (a == b)
  same_key a b = elim (Bool-cases (a == b)) [
    | inl hit ↦ rw ((eq_iff a b).0 hit, eq_refl b) (eq_refl (did_of b))
    | inr miss ↦ elim (Bool-cases (did_of a == did_of b)) [
      | inl bad ↦ absurd (
          ground (
            arith,
            miss,
            (eq_iff a b).1 (did_of-injective a b ((eq_iff (did_of a) (did_of b)).0 bad)),
          ))
      | inr other ↦ rw (other, miss) refl
    ]
  ]

  pub put-Indexed :
      (address : String) (row : Issuer) (t : p.issuers.Rows)
      → row.did ≡ did_of address
      → row.stellar_address ≡ address
      → Indexed t
      → Indexed (p.issuers.put (did_of address) row t)
  put-Indexed address row t named at good = record {
    same = λ a.
        index.by_address-put (did_of address) a row t
          (λ old e. (good.named address old e).1 ∙ sym at)
        ∙ rw (p.issuers.find-put, at, same_key address a, good.same a) refl;
    named = λ a r found. elim (Bool-cases (did_of address == did_of a)) [
      | inl hit ↦
          let here = (eq_iff (did_of address) (did_of a)).0 hit in
          let new_row : some row ≡ some r = sym (rw (p.issuers.find-put, hit) refl) ∙ found in
          let same_row : row ≡ r = ground (arith, new_row) in
          (
            sym (ap (λ (x : Issuer). x.did) same_row) ∙ named ∙ here,
            sym (ap (λ (x : Issuer). x.stellar_address) same_row)
                ∙ at
                ∙ did_of-injective address a here,
          )
      | inr miss ↦ good.named a r (sym (rw (p.issuers.find-put, miss) refl) ∙ found)
    ];
  }

  pub upserted-named :
      (id address : String) (t : p.issuers.Rows)
      → Indexed t
      → let row = upserted id address (p.issuers.find (did_of address) t) in
        (row.did ≡ did_of address) × (row.stellar_address ≡ address)
  upserted-named id address t good = elim (Option-cases (p.issuers.find (did_of address) t)) [
    | inl e ↦ rw e (refl, refl)
    | inr (r, e) ↦ rw e (good.named address r e)
  ]

  -- The `upsert` keeps the table's index in order.
  pub upsert_issuer-Indexed :
      (id address : String) (s : Db p)
      → Indexed s.issuers
      → Indexed (upsert_issuer id address s).1.issuers
  upsert_issuer-Indexed id address s good =
      let (named, at) = upserted-named id address s.issuers good in
      rw (upsert_issuer_lem id address s good) (put-Indexed address _ s.issuers named at good)

module _ (p : Prisma) (index : IssuerIndex p) where
  -- The database, and the addresses for which `removeIssuer` was started, the latest first: the
  -- call is not awaited, and its error is dropped.
  pub record Office : Type 0 where
    pub db : Db p
    pub removed : List String

  -- what follows the update, with the row that was read before it
  abbrev settle : Issuer → Result Issuer × Db p → Office → Result Issuer × Office
  settle r (err e, s) o = (err e, record o { db = s })
  settle r (ok row, s) o = (ok row, record { db = s; removed = r.stellar_address ∷ o.removed })

  abbrev switch_off : Option Issuer → Office → Result Issuer × Office
  switch_off none o = (err no_issuer, o)
  switch_off (some r) o = settle r (update_issuer p r.did deactivated o.db) o

  -- `deactivate`
  unfoldable pub deactivate : (id : String) → Office → Result Issuer × Office
  deactivate id o = switch_off (index.by_id id o.db.issuers) o
