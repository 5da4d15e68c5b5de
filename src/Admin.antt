-- ===== src/Admin.antt =====
-- apps/server/src/modules/admin/admin.controller.ts, and the pages that show what it answers with:
-- apps/web/src/app/status/page.tsx and apps/web/src/app/admin/audit/page.tsx.
pub mod Status
pub mod Export
use Prim.Native.String.{◌++◌}
use stprivy.Common.{
  ℕ, String, Bool, true, false, ◌&&◌, ◌||◌, Option, none, some, List, [], ◌∷◌, ◌++◌ as append, map,
  ◌==◌,
}
use stprivy.Common.Tests.{length, if◌then◌else◌}
use stprivy.Common.Lists.{filter}
use stprivy.Common.Js.{Js}
use stprivy.Common.Separated.{join}
use stprivy.Domain.{User, Credential, Proof, Issuer}
use stprivy.Credential.{is_revoked_status}
use stprivy.Credential.Texts.{includes}
use stprivy.Proof.Service.{is_active}

-- How a call of the database or of the RPC server ends: an exception has a name, or it has none.
pub data Outcome : Type 0 where
  succeeds : Outcome
  throws : (name : Option String) → Outcome

pub data ServiceStatus : Type 0 where
  operational partial outage : ServiceStatus

pub record Service : Type 0 where
  pub name : String
  pub status : ServiceStatus
  pub latency : String

pub record Health : Type 0 where
  pub all_operational : Bool
  pub services : List Service
  pub checked_at : String

-- an element of `Promise.allSettled`'s result
pub data Check : Type 0 where
  fulfilled : (name : String) (latency : Option String) → Check
  rejected : (reason_name : Option String) → Check

abbrev pub or_else : Option String → String → String
or_else none other = other
or_else (some text) other = text

abbrev pub check : Outcome → (name : String) (latency : Option String) → Check
check succeeds name latency = fulfilled name latency
check (throws reason) name latency = rejected reason

abbrev pub service : Check → Service
service (fulfilled name latency) = record {
  name = name;
  status = operational;
  latency = or_else latency "OK";
}
service (rejected reason_name) = record {
  name = or_else reason_name "Unknown";
  status = outage;
  latency = "N/A";
}

abbrev is_operational : ServiceStatus → Bool
is_operational operational = true
is_operational _ = false

abbrev pub every_operational : List Service → Bool
every_operational [] = true
every_operational (x ∷ xs) = is_operational x.status && every_operational xs

module _ (js : Js) where
  abbrev pub services : (database ledger : Outcome) → (elapsed : ℕ) → List Service
  services database ledger elapsed =
      record { name = "API Server"; status = operational; latency = "< 1ms" }
      ∷ service (check database "Database (PostgreSQL)" none)
      ∷ service (check ledger "Stellar RPC (Testnet)" (some (js.of_number elapsed ++ "ms")))
      ∷ record { name = "ZK Proof Generation"; status = operational; latency = "~2s avg" }
      ∷ []

  -- `health`: `database` is how `SELECT 1` ends and `ledger` how `getLatestLedger` does, after
  -- `elapsed` milliseconds
  unfoldable pub health : (now : ℕ) (database ledger : Outcome) (elapsed : ℕ) → Health
  health now database ledger elapsed = record {
    all_operational = every_operational (services database ledger elapsed);
    services = services database ledger elapsed;
    checked_at = js.iso now;
  }

-- `stats`, of all rows of the tables
pub record Stats : Type 0 where
  pub total_users : ℕ
  pub total_credentials : ℕ
  pub total_proofs : ℕ
  pub total_issuers : ℕ
  pub active_issuers : ℕ
  pub active_credentials : ℕ
  pub revoked_credentials : ℕ

unfoldable pub stats : List User → List Credential → List Proof → List Issuer → Stats
stats users credentials proofs issuers = record {
  total_users = length users;
  total_credentials = length credentials;
  total_proofs = length proofs;
  total_issuers = length issuers;
  active_issuers = length (filter (λ i. i.active) issuers);
  active_credentials = length (filter (λ c. is_active c.status) credentials);
  revoked_credentials = length (filter (λ c. is_revoked_status c.status) credentials);
}

-- `StatusPage`
pub record Page : Type 0 where
  pub health : Option Health
  pub loading : Bool

-- how `fetch` ends: it throws, as the reading of the body does; or the response is not ok
pub data Answer : Type 0 where
  healthy : Health → Answer
  not_ok rejects : Answer

unfoldable pub fetch_health : Answer → Page → Page
fetch_health (healthy h) p = record { health = some h; loading = false }
fetch_health not_ok p = record p { loading = false }
fetch_health rejects p = record { health = none; loading = false }

abbrev all_operational_of : Option Health → Bool
all_operational_of none = false
all_operational_of (some h) = h.all_operational

unfoldable pub banner : Page → String
banner p =
    if p.loading
    then "Checking services…"
    else if all_operational_of p.health
    then "All systems operational"
    else "Partial degradation"

-- `AuditLog`
pub record AuditLog : Type 0 where
  pub id : String
  pub action : String
  pub actor_did : String
  pub target_id : Option String
  pub timestamp : String

-- the entries that the page shows; `lower` is `toLowerCase`
unfoldable pub filtered : (lower : String → String) (text : String) → List AuditLog → List AuditLog
filtered lower text logs =
    if text == ""
    then logs
    else filter
        (λ l. includes (lower text) (lower l.action) || includes (lower text) (lower l.actor_did))
        logs

abbrev pub header : List String
header = "ID" ∷ "Action" ∷ "Actor DID" ∷ "Target" ∷ "Timestamp" ∷ []

abbrev pub cells : AuditLog → List String
cells l = l.id ∷ l.action ∷ l.actor_did ∷ or_else l.target_id "" ∷ l.timestamp ∷ []

abbrev pub rows : List AuditLog → List (List String)
rows logs = header ∷ map cells logs

-- the text that `exportCsv` downloads
unfoldable pub export_csv : List AuditLog → String
export_csv logs = join "\n" (map (join ",") (rows logs))
