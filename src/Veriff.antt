-- ===== src/Veriff.antt =====
-- apps/server/src/modules/veriff/veriff.service.ts: identity checks that Veriff makes, from the
-- session to the credential. Veriff's answers, HMAC, `toUpperCase` and the calendar are parameters.
pub mod Age
pub mod Webhook
pub mod Repeated
use Prim.Native.String.{◌++◌}
use stprivy.Common.{ℕ, ◌-◌, String, Bool, true, false, not, ◌&&◌, ◌||◌, Option, none, some, ◌==◌}
use stprivy.Common.Tests.{ltb, nat_eq, if◌then◌else◌}
use stprivy.Common.Exec.{
  Exec, Error, Result, ok, err, bad_request, unauthorized, not_found, failure, throws, require,
  throw_if, raise, gets, pure, try, ◌>>=◌, ◌>>◌,
}
use stprivy.Common.Js.{Js}
use stprivy.Domain.{KycClaims, Did, Credential, VeriffSession}
use stprivy.Domain.Db.{Prisma, Db, create_session, update_session}
use stprivy.Did.{did_of}
use stprivy.Registry.Issuers.{IssuerIndex, upsert_issuer}
use stprivy.Credential.{Vc, Crypto, issue_credential}
use stprivy.Credential.Texts.{remove_first}

-- `VeriffWebhookPayload`, the fields that are read
pub record Person : Type 0 where
  pub date_of_birth : Option String

pub record Document : Type 0 where
  pub country : Option String

pub record Verification : Type 0 where
  pub status : String
  pub person : Option Person
  pub document : Option Document

pub record WebhookPayload : Type 0 where
  pub id : String
  pub verification : Option Verification

-- a date as `getFullYear`, `getMonth` and `getDate` show it
pub record Day : Type 0 where
  pub year : ℕ
  pub month : ℕ
  pub date : ℕ

-- What the `fetch` of a new session comes to.
pub data Answer : Type 0 where
  unreachable : (message : String) → Answer
  refused : Answer
  opened : (session_id session_url session_token : String) → Answer

-- What `createSession` returns.
pub record Opened : Type 0 where
  pub session_id : String
  pub session_url : String
  pub session_token : String

abbrev pub session_failed : Error
session_failed = throws bad_request "Failed to create Veriff session"

abbrev pub no_session : Error
no_session = throws not_found "Session not found"

abbrev pub foreign_session : Error
foreign_session = throws unauthorized "Unauthorized"

abbrev pub invalid_signature : Error
invalid_signature = throws unauthorized "Invalid webhook signature"

-- `calculateAge`: `before` says that this year's birthday is still to come. The subtractions stop
-- at 0, as `Math.max(0, age)` does.
abbrev pub before : (dob today : Day) → Bool
before dob today =
    ltb today.month dob.month || (nat_eq today.month dob.month && ltb today.date dob.date)

unfoldable pub calculate_age : (dob today : Day) → ℕ
calculate_age dob today =
    if before dob today then today.year - dob.year - 1 else today.year - dob.year

-- `text.slice(0, 2)` of a text of the basic plane
unfoldable pub first_two : String → String
first_two String.[] = ""
first_two (String.◌∷◌ c String.[]) = String.◌∷◌ c ""
first_two (String.◌∷◌ c (String.◌∷◌ d rest)) = String.◌∷◌ c (String.◌∷◌ d "")

-- The service's configuration, and the library functions that it calls. `day_of` is `new Date` of a
-- date that parses.
pub record Config (crypto : Crypto) : Type 0 where
  pub api_key : String
  pub api_secret : String
  pub key : crypto.Key
  pub hmac : (secret body : String) → String
  pub upper : String → String
  pub day_of : String → Day

-- `payload.verification?.status ?? 'unknown'`
abbrev pub status_of : WebhookPayload → String
status_of payload = elim payload.verification [ none ↦ "unknown" | some v ↦ v.status ]

-- `payload.verification?.document?.country` and `payload.verification?.person?.dateOfBirth`
abbrev pub country_of : Option Document → Option String
country_of none = none
country_of (some d) = d.country

abbrev pub birth_of : Option Person → Option String
birth_of none = none
birth_of (some x) = x.date_of_birth

abbrev pub or_text : Option String → String → String
or_text none other = other
or_text (some text) other = text

module _ {crypto : Crypto} (config : Config crypto) where
  abbrev pub age_of : Option String → (today : Day) → ℕ
  age_of none today = 18
  age_of (some text) today = if text == "" then 18 else calculate_age (config.day_of text) today

  -- the claims that are issued
  unfoldable pub claims_of : WebhookPayload → (today : Day) → KycClaims
  claims_of payload today = elim payload.verification [
    | none ↦ record { country = config.upper (first_two "XX"); age = 18; accredited = false }
    | some v ↦ record {
      country = config.upper (first_two (or_text (country_of v.document) "XX"));
      age = age_of (birth_of v.person) today;
      accredited = false;
    }
  ]

module _ (p : Prisma) (js : Js) (crypto : Crypto) (issuers : IssuerIndex p)
    (config : Config crypto) where
  abbrev session_row : (user_id session_id session_url status : String) → VeriffSession
  session_row user_id session_id session_url status = record {
    user_id = user_id;
    session_id = session_id;
    session_url = session_url;
    status = status;
    credential_id = none;
  }

  abbrev is_mock : Bool
  is_mock = config.api_key == "" || config.api_key == "your_veriff_api_key"

  open_mock : (now : ℕ) (user_id : String) → Exec (Db p) Opened
  open_mock now user_id = do
    let id = "mock-" ++ (user_id ++ ("-" ++ js.of_number now))
    row ← create_session p id (session_row user_id id "https://veriff.com" "approved")
    pure (record {
      session_id = id;
      session_url = "https://veriff.com";
      session_token = "mock_token";
    })

  open_real : Answer → (user_id : String) → Exec (Db p) Opened
  open_real (unreachable message) user_id = raise (throws failure message)
  open_real refused user_id = raise session_failed
  open_real (opened id url token) user_id = do
    row ← create_session p id (session_row user_id id url "created")
    pure (record { session_id = id; session_url = url; session_token = token })

  -- `createSession`
  unfoldable pub open_session : Answer → (now : ℕ) (user_id : String) → Exec (Db p) Opened
  unfolding open_mock open_real
  open_session answer now user_id =
      if is_mock then open_mock now user_id else open_real answer user_id

  -- `getSession`
  unfoldable pub get_session : (session_id user_id : String) → Exec (Db p) VeriffSession
  get_session session_id user_id = do
    found ← gets (λ s. p.sessions.find session_id s.sessions)
    session ← require no_session found
    throw_if (not (session.user_id == user_id)) foreign_session
    pure session

  abbrev pub platform_did : String
  platform_did = did_of (crypto.public_key config.key)

  abbrev pub attach : (credential_id : String) → VeriffSession → VeriffSession
  attach credential_id r = record r { credential_id = some credential_id }

  -- `issueCredentialFromVeriff` with the user's DID; `uuid` and `issuer_id` are the ids of new rows
  issue_with :
      (uuid issuer_id : String) (now : ℕ) (today : Day) (session_id : String)
      → WebhookPayload
      → Option Did
      → Exec (Db p) (Unit {0})
  issue_with uuid issuer_id now today session_id payload none = pure tt
  issue_with uuid issuer_id now today session_id payload (some did) = do
    issuer ← upsert_issuer p issuers issuer_id (crypto.public_key config.key)
    vc ←
        issue_credential p js crypto config.key uuid now platform_did did.id
          (claims_of config payload today) none
    row ← update_session p session_id (attach (remove_first "urn:uuid:" vc.body.id))
    pure tt

  unfoldable pub issue_credential_from_veriff :
      (uuid issuer_id : String) (now : ℕ) (today : Day) (user_id session_id : String)
      → WebhookPayload
      → Exec (Db p) (Unit {0})
  unfolding issue_with
  issue_credential_from_veriff uuid issuer_id now today user_id session_id payload = do
    did ← gets (λ s. p.dids.find user_id s.dids)
    issue_with uuid issuer_id now today session_id payload did

  abbrev pub check_signature : (signature raw_body : String) → Exec (Db p) (Unit {0})
  check_signature signature raw_body =
      throw_if
        (not (config.api_secret == "") && not (signature == config.hmac config.api_secret raw_body))
        invalid_signature

  abbrev pub mark : (status : String) → VeriffSession → VeriffSession
  mark status r = record r { status = status }

  -- the rest of `handleWebhook`, with the session
  decide :
      (uuid issuer_id : String) (now : ℕ) (today : Day)
      → WebhookPayload
      → Option VeriffSession
      → Exec (Db p) (Unit {0})
  unfolding issue_credential_from_veriff
  decide uuid issuer_id now today payload none = pure tt
  decide uuid issuer_id now today payload (some session) = do
    row ← update_session p payload.id (mark (status_of payload))
    if status_of payload == "approved"
        then try
            (issue_credential_from_veriff uuid issuer_id now today session.user_id payload.id
              payload)
            (λ e. pure tt)
        else pure tt

  -- `handleWebhook`
  unfoldable pub handle_webhook :
      (uuid issuer_id : String) (now : ℕ) (today : Day)
      → WebhookPayload
      → (signature raw_body : String) → Exec (Db p) (Unit {0})
  unfolding decide
  handle_webhook uuid issuer_id now today payload signature raw_body = do
    check_signature signature raw_body
    session ← gets (λ s. p.sessions.find payload.id s.sessions)
    decide uuid issuer_id now today payload session
