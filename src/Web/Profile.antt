-- ===== src/Web/Profile.antt =====
-- The page of the profile, apps/web/src/app/profile/page.tsx, with `useDID` of hooks/use-auth.ts and
-- did.controller.ts behind it: what it shows of the user's DID, and the button that makes one.
use stprivy.Common.{String, Bool, true, false, Option, none, some, ◌==◌}
use stprivy.Common.Tests.{if◌then◌else◌}
use stprivy.Common.Exec.{Result, ok, err}
use stprivy.Domain.{DidDocument}
use stprivy.Domain.Db.{Prisma, Db}
use stprivy.Did.{DidIndex, create_did_of, resolve_did}
use stprivy.Web.{AuthUser}

-- `createMutation`
pub data Creation : Type 0 where
  idle pending done : Creation
  failed : (message : String) → Creation

-- the card of the DID: the document, or the button with the message of the last attempt
pub data DidCard : Type 0 where
  loading : DidCard
  active : DidDocument → DidCard
  absent : (message : Option String) (disabled : Bool) → DidCard

abbrev pub absent_card : Creation → DidCard
absent_card idle = absent none false
absent_card pending = absent none true
absent_card done = absent none false
absent_card (failed message) = absent (some message) false

-- the page, where there is a user
unfoldable pub profile :
    Option AuthUser
    → (did_loading : Bool) → (did_doc : Option DidDocument) → Creation
    → Option DidCard
profile none did_loading did_doc c = none
profile (some user) true did_doc c = some loading
profile (some user) false (some document) c = some (active document)
profile (some user) false none c = some (absent_card c)

abbrev or_null : {S : Type 0} → Result DidDocument × S → Option DidDocument
or_null (ok document, s) = some document
or_null (err e, s) = none

module _ (p : Prisma) (index : DidIndex p) (multibase : String → Option String) where
  -- the query: `resolveDID` of the user's address, with `null` after any throw
  unfoldable pub load_did : AuthUser → Db p → Option DidDocument
  load_did user s =
      if user.stellar_address == ""
      then none
      else or_null (resolve_did p index multibase user.stellar_address s)

  -- the mutation when its call has ended, and what the query then holds: it is asked again after a
  -- success only
  abbrev after_answer :
      AuthUser
      → (did_doc : Option DidDocument) → Result DidDocument × Db p
      → (Creation × Option DidDocument) × Db p
  after_answer user did_doc (ok document, s) = ((done, load_did user s), s)
  after_answer user did_doc (err e, s) = ((failed e.message, did_doc), s)

  -- `createMutation.mutate()`; the server takes the id and the address from the token, which is the
  -- one of the user that is shown
  unfoldable pub press_create :
      AuthUser → (did_doc : Option DidDocument) → Db p → (Creation × Option DidDocument) × Db p
  press_create user did_doc s =
      after_answer user did_doc (create_did_of p index multibase user.id user.stellar_address s)

  -- the card that an answer calls for
  abbrev pub card_for : Result DidDocument → DidCard
  card_for (ok document) = active document
  card_for (err e) = absent (some e.message) false
