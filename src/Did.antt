-- ===== src/Did.antt =====
-- apps/server/src/modules/did/did.service.ts: a user's decentralized identifier and its document.
-- The table of DIDs is kept under the user's id; `by_id` is its other unique column, the DID. The
-- multibase text of an address's key is the SDK's, which throws at `none`.
use Prim.Native.String.{◌++◌}
use stprivy.Common.{◌≡◌, String, Option, none, some, [], ◌∷◌, ◌==◌, arith, eq_refl, inl, inr}
use stprivy.Common.Tests.{is_some, Option-cases, if◌then◌else◌}
use stprivy.Common.Table.{unique_violation}
use stprivy.Common.Exec.{
  Exec, Error, ok, err, conflict, not_found, failure, throws, require, throw_if, gets, pure, ◌>>=◌,
  ◌>>◌,
}
use stprivy.Domain.{Did, DidDocument}
use stprivy.Domain.Db.{Prisma, Db, create_did}

abbrev pub did_of : (stellar_address : String) → String
did_of address = "did:stellar:" ++ address

abbrev pub did_exists : Error
did_exists = throws conflict "DID already exists for this user"

abbrev pub no_such_did : String → Error
no_such_did did = throws not_found ("DID not found: " ++ did)

abbrev pub invalid_key : Error
invalid_key = throws failure "invalid encoded string"

-- `buildDIDDocument`, with the multibase text of the key
unfoldable pub build_did_document : (did multibase : String) → DidDocument
build_did_document did multibase =
    let key_id = did ++ "#key-1" in
    record {
      context =
          "https://www.w3.org/ns/did/v1" ∷ "https://w3id.org/security/suites/ed25519-2020/v1" ∷ [];
      id = did;
      verification_method =
          record {
            id = key_id;
            type = "Ed25519VerificationKey2020";
            controller = did;
            public_key_multibase = multibase;
          }
          ∷ [];
      authentication = key_id ∷ [];
      assertion_method = key_id ∷ [];
    }

-- The unique column `id` beside `userId`, with what a write changes in it.
pub record DidIndex (p : Prisma) : Type 0 where
  pub by_id : String → p.dids.Rows → Option Did
  pub by_id-put :
      (user_id id : String) (r : Did) (t : p.dids.Rows)
      → p.dids.find user_id t ≡ none
      → by_id id (p.dids.put user_id r t) ≡ (if r.id == id then some r else by_id id t)

module _ (p : Prisma) (index : DidIndex p) (multibase : String → Option String) where
  -- `createDID`; `create` fails also where the DID is taken by another user
  unfoldable pub create_did_of : (user_id stellar_address : String) → Exec (Db p) DidDocument
  create_did_of user_id stellar_address = do
    existing ← gets (λ s. p.dids.find user_id s.dids)
    throw_if (is_some existing) did_exists
    key ← require invalid_key (multibase stellar_address)
    let document = build_did_document (did_of stellar_address) key
    taken ← gets (λ s. index.by_id (did_of stellar_address) s.dids)
    throw_if (is_some taken) unique_violation
    create_did p user_id
        (record { id = did_of stellar_address; user_id = user_id; document = document })
    pure document

  -- `resolveDID`
  unfoldable pub resolve_did : (stellar_address : String) → Exec (Db p) DidDocument
  resolve_did stellar_address = do
    found ← gets (λ s. index.by_id (did_of stellar_address) s.dids)
    row ← require (no_such_did (did_of stellar_address)) found
    pure row.document

  -- A DID that has been created resolves to the document that was answered, and a second DID for
  -- the same user, of any address, is refused without a trace.
  pub create_did_of-resolve_did :
      (user_id address again : String) (s : Db p) (document : DidDocument)
      → (create_did_of user_id address s).0 ≡ ok document
      → let s' = (create_did_of user_id address s).1 in
        (resolve_did address s' ≡ (ok document, s'))
        × (create_did_of user_id again s' ≡ (err did_exists, s'))
  unfolding create_did_of resolve_did
  create_did_of-resolve_did user_id address again s document h =
      elim (Option-cases (p.dids.find user_id s.dids)) [
        | inr (old, e) ↦ absurd (ground (arith, e, h))
        | inl e ↦ elim (Option-cases (multibase address)) [
          | inl f ↦ absurd (ground (arith, e, f, h))
          | inr (key, f) ↦ elim (Option-cases (index.by_id (did_of address) s.dids)) [
            | inr (old, g) ↦ absurd (ground (arith, e, f, g, h))
            | inl g ↦
                let row : Did = record {
                  id = did_of address;
                  user_id = user_id;
                  document = build_did_document (did_of address) key;
                } in
                let made = p.dids.create_lem user_id row s.dids in
                let found = p.dids.find-put user_id user_id row s.dids in
                let named = index.by_id-put user_id (did_of address) row s.dids e in
                (
                  ground (arith, e, f, g, h, made, named, eq_refl (did_of address)),
                  ground (arith, e, f, g, h, made, found, eq_refl user_id),
                )
          ]
        ]
      ]
