-- ===== src/Credential/Dto.antt =====
-- `SelfIssueDto` of credential.controller.ts and its validation, which runs before the handler. The
-- decorators are parameters: `Length(2, 2)` is a test, and of `IsDateString` nothing is assumed.
use stprivy.Common.{ℕ, ◌≡◌, String, Bool, true, false, not, ◌&&◌, Option, none, some, ◌==◌}
use stprivy.Common.Tests.{leb}
use stprivy.Common.Js.{Js}
use stprivy.Common.Exec.{Exec, Error, bad_request, throws, throw_if, ◌>>◌}
use stprivy.Domain.{KycClaims}
use stprivy.Domain.Db.{Prisma, Db}
use stprivy.Did.{DidIndex}
use stprivy.Registry.Issuers.{IssuerIndex}
use stprivy.Credential.{Vc, Crypto}
use stprivy.Credential.Controller.{Env, self_issue}

pub record Decorators : Type 0 where
  pub length_two : String → Bool
  pub length_two-empty : length_two "" ≡ false
  pub is_date_string : String → Bool
  pub refusal : String

-- `age` is a whole number, which is what `IsInt` asks for
pub record SelfIssueBody : Type 0 where
  pub country : String
  pub age : ℕ
  pub accredited : Bool
  pub expires_at : Option String

abbrev pub body_claims : SelfIssueBody → KycClaims
body_claims body = record { country = body.country; age = body.age; accredited = body.accredited }

module _ (v : Decorators) where
  abbrev pub date_or_none : Option String → Bool
  date_or_none none = true
  date_or_none (some text) = v.is_date_string text

  unfoldable pub valid_issue : SelfIssueBody → Bool
  valid_issue body =
      (not (body.country == "") && v.length_two body.country)
      && (leb body.age 150 && date_or_none body.expires_at)

  abbrev pub refused : Error
  refused = throws bad_request v.refusal

  module _ (p : Prisma) (js : Js) (crypto : Crypto) (dids : DidIndex p) (issuers : IssuerIndex p)
      (multibase : String → Option String) (env : Env p js crypto) where
    -- `POST /credentials/issue`
    unfoldable pub issue_route :
        (uuid issuer_id : String) (now : ℕ) (user_id address : String)
        → SelfIssueBody
        → Exec (Db p) Vc
    issue_route uuid issuer_id now user_id address body = do
      throw_if (not (valid_issue body)) refused
      self_issue p js crypto dids issuers multibase env uuid issuer_id now user_id address
          (body_claims body) body.expires_at
