-- ===== src/Web/Tabs/Manage.antt =====
-- The issuer's page of credentials, apps/web/src/app/issuer/credentials/page.tsx: its buttons to
-- revoke, against what the server revokes.
use stprivy.Common.{ℕ, ◌≡◌, String, none, some, ◌∷◌}
use stprivy.Common.Js.{Js}
use stprivy.Domain.{Credential, Issuer, EventName}
use stprivy.Domain.Db.{Prisma, Db}
use stprivy.Domain.Queries.{Queries, Keyed}
use stprivy.Did.{did_of}
use stprivy.Credential.{Crypto, Relations, Ledger, mark_revoked}

module _ (p : Prisma) (js : Js) (crypto : Crypto) (relations : Relations p) (q : Queries p)
    (address : String) (issuer : Issuer) (l : Ledger p js crypto relations)
    (keyed : Keyed p.credentials (λ c. c.id) l.db.credentials)
    (registered : p.issuers.find (did_of address) l.db.issuers ≡ some issuer)
    (named : issuer.did ≡ did_of address)
    (linked : relations.issuer_of issuer.id l.db.issuers ≡ some issuer) where
  abbrev after_revoke : (now : ℕ) → Credential → Ledger p js crypto relations
  after_revoke now c = record {
    db = record (l.db) {
      credentials = p.credentials.put c.id (mark_revoked p js crypto relations c) l.db.credentials;
      events =
          record {
            name = EventName.credential_revoked;
            actor_did = did_of address;
            subject_did = none;
            resource_id = c.id;
            timestamp = now;
          }
          ∷ l.db.events;
    };
    submitted = c.credential_hash ∷ l.submitted;
  }
