-- ===== src/Web/CreateRequest.antt =====
-- The page on which a verifier makes a request, apps/web/src/app/verifier/create-request/page.tsx.
-- zod's tests of a text are parameters.
pub mod Waits
use Prim.Native.String.{◌++◌}
use stprivy.Common.{ℕ, ◌+◌, ◌*◌, ◌≡◌, String, Bool, true, ◌&&◌, ◌||◌, Option, none, some, ◌==◌}
use stprivy.Common.Tests.{leb, if◌then◌else◌}
use stprivy.Common.Js.{Js}
use stprivy.Domain.{ProofRequest}
use stprivy.Request.Dto.{CreateBody, is_circuit}

pub record Zod : Type 0 where
  -- the number of a text's UTF-16 units
  pub length : String → ℕ
  pub length-empty : length "" ≡ 0
  -- `z.string().url()`
  pub is_url : String → Bool

-- `FormValues`; the field takes whole minutes
pub record FormValues : Type 0 where
  pub circuit_id : String
  pub purpose : String
  pub callback_url : Option String
  pub expires_in_minutes : ℕ

module _ (z : Zod) where
  abbrev url_or_empty : Option String → Bool
  url_or_empty none = true
  url_or_empty (some text) = z.is_url text || text == ""

  -- `create_schema`
  unfoldable pub create_schema : FormValues → Bool
  create_schema values =
      is_circuit values.circuit_id
      && (leb 5 (z.length values.purpose)
          && (url_or_empty values.callback_url
              && (leb 1 values.expires_in_minutes && leb values.expires_in_minutes 10080)))

-- `values.callbackUrl || undefined`
abbrev pub or_undefined : Option String → Option String
or_undefined none = none
or_undefined (some text) = if text == "" then none else some text

-- what `create` sends
unfoldable pub create_body : Js → (now : ℕ) → FormValues → CreateBody
create_body js now values = record {
  circuit_id = values.circuit_id;
  purpose = values.purpose;
  callback_url = or_undefined values.callback_url;
  expires_at = js.iso (now + values.expires_in_minutes * 60000);
}

-- a submission: nothing is sent for values that the create_schema refuses
unfoldable pub submit_create : Js → Zod → (now : ℕ) → FormValues → Option CreateBody
submit_create js z now values =
    if create_schema z values then some (create_body js now values) else none

-- `deepLink`
unfoldable pub deep_link : (origin : String) → Option ProofRequest → String
deep_link origin none = ""
deep_link origin (some req) = origin ++ "/kyc/respond?requestId=" ++ req.id
