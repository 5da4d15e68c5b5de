-- ===== src/Web/Issue.antt =====
-- The forms that have a credential issued: `ManualKYCForm` of apps/web/src/app/kyc/form/page.tsx and
-- apps/web/src/app/issuer/issue/page.tsx. zod's length of a text and `toUpperCase` are parameters;
-- the number fields take whole numbers.
pub mod Claims
use stprivy.Common.{ℕ, ◌≡◌, String, Bool, true, false, ◌&&◌, Option, none, some, ◌==◌}
use stprivy.Common.Tests.{leb, nat_eq, if◌then◌else◌}
use stprivy.Credential.Dto.{SelfIssueBody}
use stprivy.Web.CreateRequest.{or_undefined}

pub record Texts : Type 0 where
  pub length : String → ℕ
  pub to_upper_case : String → String

-- `FormValues` of the KYC form
pub record KycForm : Type 0 where
  pub country : String
  pub age : ℕ
  pub accredited : Bool
  pub expires_at : Option String

-- `FormValues` of the issuer's form
pub record IssueForm : Type 0 where
  pub subject_did : String
  pub type : String
  pub country : Option String
  pub age : Option ℕ
  pub accredited : Option Bool
  pub expires_at : Option String

abbrev pub or_else : {A : Type 0} → Option A → A → A
or_else none other = other
or_else (some a) other = a

module _ (z : Texts) where
  unfoldable pub kyc_schema : KycForm → Bool
  kyc_schema values = nat_eq (z.length values.country) 2 && (leb 1 values.age && leb values.age 150)

  -- the KYC form's `onSubmit`, with what the schema makes of the country
  unfoldable pub submit_kyc : KycForm → Option SelfIssueBody
  submit_kyc values =
      if kyc_schema values
      then some (record {
        country = z.to_upper_case values.country;
        age = values.age;
        accredited = values.accredited;
        expires_at = or_undefined values.expires_at;
      })
      else none

  abbrev age_in_range : Option ℕ → Bool
  age_in_range none = true
  age_in_range (some age) = leb age 200

  unfoldable pub issue_schema : IssueForm → Bool
  issue_schema values =
      leb 10 (z.length values.subject_did)
      && (leb 1 (z.length values.type) && age_in_range values.age)

  -- the issuer's form's `onSubmit`
  unfoldable pub submit_issue : IssueForm → Option SelfIssueBody
  submit_issue values =
      if issue_schema values
      then some (record {
        country = or_else (or_undefined values.country) "US";
        age = or_else values.age 0;
        accredited = or_else values.accredited false;
        expires_at = or_undefined values.expires_at;
      })
      else none
