-- ===== src/Web.antt =====
-- The session of the web application: apps/web/src/context/auth-context.tsx, lib/api.ts and
-- components/layout/protected-layout.tsx beside it. What `atob` and `JSON.parse` make of a token
-- and what `fetch` answers are parameters.
pub mod Session
pub mod VeriffFlow
pub mod Respond
pub mod CreateRequest
pub mod Issue
pub mod Wallet
pub mod Sidebar
pub mod Tabs
pub mod Generate
pub mod ProofDetails
pub mod Profile
use Prim.Native.String.{◌++◌}
use stprivy.Common.{
  ℕ, ◌*◌, String, Bool, true, false, not, ◌&&◌, ◌||◌, Option, none, some, List, [], ◌∷◌, ◌==◌,
}
use stprivy.Common.Tests.{leb, ltb, nat_eq, is_some, if◌then◌else◌}
use stprivy.Domain.{Role}
use stprivy.Credential.Texts.{after_prefix}

-- `DecodedJWT`
pub record DecodedJwt : Type 0 where
  pub sub : String
  pub address : String
  pub role : Role
  pub exp : ℕ

-- `AuthUser`
pub record AuthUser : Type 0 where
  pub id : String
  pub stellar_address : String
  pub role : Role
  pub has_did : Bool

-- A tab of the browser: the token in `localStorage`, the state of `AuthProvider`, and whether the
-- document is being left for another page.
pub record Tab : Type 0 where
  pub stored : Option String
  pub token : Option String
  pub user : Option AuthUser
  pub is_loading : Bool
  pub leaving : Option String

-- a new document, before the provider's effect has run
abbrev pub load : Tab → Tab
load t = record { stored = t.stored; token = none; user = none; is_loading = true; leaving = none }

-- `isExpired`
abbrev pub is_expired : (now : ℕ) → DecodedJwt → Bool
is_expired now d = leb (d.exp * 1000) now

-- the user that is restored
abbrev pub minimal : DecodedJwt → AuthUser
minimal d = record { id = d.sub; stellar_address = d.address; role = d.role; has_did = false }

module _ (decode_jwt : String → Option DecodedJwt) where
  abbrev pub restored : (now : ℕ) → (stored : String) → Option DecodedJwt → Tab → Tab
  restored now stored none t = record t { stored = none; is_loading = false }
  restored now stored (some d) t =
      if is_expired now d
      then record t { stored = none; is_loading = false }
      else record t { token = some stored; user = some (minimal d); is_loading = false }

  abbrev pub restored_from : (now : ℕ) → Option String → Tab → Tab
  restored_from now none t = record t { is_loading = false }
  restored_from now (some stored) t =
      if stored == ""
      then record t { is_loading = false }
      else restored now stored (decode_jwt stored) t

  -- the provider's effect, which runs once
  unfoldable pub restore : (now : ℕ) → Tab → Tab
  restore now t = restored_from now t.stored t

-- `setAuth` and `logout`
unfoldable pub set_auth : (token : String) → AuthUser → Tab → Tab
set_auth token user t = record t { stored = some token; token = some token; user = some user }

unfoldable pub logout : Tab → Tab
logout t = record t { stored = none; token = none; user = none }

-- What `fetch` comes to: it rejects, or there is a response, whose error's message is the body's
-- where the body is JSON and has one. The body itself is left to the caller.
pub data Response : Type 0 where
  rejects : (message : String) → Response
  responds : (status : ℕ) (status_text : String) (body_message : Option String) → Response

-- How `request` ends; the body of an answer is the caller's.
pub data Reply : Type 0 where
  body undefined : Reply
  api_error : (status : ℕ) (message : String) → Reply
  failed : (message : String) → Reply

-- the header `Authorization`
abbrev pub authorization : Tab → Option String
authorization t = elim t.stored [
  | none ↦ none
  | some token ↦ if token == "" then none else some ("Bearer " ++ token)
]

-- `res.ok`
abbrev pub is_ok : ℕ → Bool
is_ok status = leb 200 status && ltb status 300

abbrev pub or_text : Option String → String → String
or_text none other = other
or_text (some text) other = text

-- `path.startsWith('/auth/')`
abbrev pub is_auth_route : String → Bool
is_auth_route path = is_some (after_prefix "/auth/" path)

abbrev pub sent_away : Tab → Tab
sent_away t = record t { stored = none; leaving = some "/connect" }

abbrev refused : (path : String) (status : ℕ) (message : String) → Tab → Reply × Tab
refused path status message t =
    if nat_eq status 401 && not (is_auth_route path)
    then (undefined, sent_away t)
    else (api_error status message, t)

-- `request` in the browser, with the answer to its call of `fetch`
abbrev pub received : (path : String) → Response → Tab → Reply × Tab
received path (rejects message) t = (failed message, t)
received path (responds status status_text body_message) t =
    if is_ok status
    then ((if nat_eq status 204 then undefined else body), t)
    else refused path status (or_text body_message status_text) t

unfoldable pub request :
    (fetch : (path : String) → (authorization : Option String) → Response)
    → (path : String) → Tab
    → Reply × Tab
request fetch path t = received path (fetch ("/api/v1" ++ path) (authorization t)) t

-- `ProtectedLayout`: what it shows, and where its effect sends the browser
pub data View : Type 0 where
  skeleton blank content : View

abbrev same_role : Role → Role → Bool
same_role Role.subject Role.subject = true
same_role Role.issuer Role.issuer = true
same_role Role.admin Role.admin = true
same_role _ _ = false

unfoldable pub has_role : List Role → Role → Bool
has_role [] role = false
has_role (r ∷ roles) role = same_role r role || has_role roles role

-- `!!token`
abbrev pub has_token : Option String → Bool
has_token none = false
has_token (some token) = not (token == "")

unfoldable pub view : Tab → View
view t = if t.is_loading then skeleton else if has_token t.token then content else blank

abbrev role_redirect : Option (List Role) → Option AuthUser → Option String
role_redirect none user = none
role_redirect (some roles) none = none
role_redirect (some roles) (some u) = if has_role roles u.role then none else some "/dashboard"

unfoldable pub redirect : (allowed_roles : Option (List Role)) → Tab → Option String
redirect allowed_roles t =
    if t.is_loading
    then none
    else if has_token t.token
    then role_redirect allowed_roles t.user
    else some "/connect"
