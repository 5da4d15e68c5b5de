-- ===== src/Web/Sidebar.antt =====
-- The navigation of apps/web/src/components/layout/sidebar.tsx, beside the layouts of the pages that
-- it leads to: apps/web/src/app/issuer/layout.tsx, verifier/layout.tsx and admin/layout.tsx.
pub mod Agreed
use Prim.Native.String.{◌++◌}
use stprivy.Common.{
  ℕ, ◌≡◌, ◌↔◌, refl, String, Bool, true, false, not, ◌&&◌, ◌||◌, Option, none, some, List, [], ◌∷◌,
  ◌==◌, arith,
}
use stprivy.Common.Tests.{is_some, if◌then◌else◌}
use stprivy.Common.Lists.{All}
use stprivy.Domain.{Role}
use stprivy.Credential.Texts.{after_prefix}
use stprivy.Web.{Tab, AuthUser, has_role, logout, redirect}

-- `NavSection`; an item is its link and its label
pub record NavSection : Type 0 where
  pub title : String
  pub items : List (String × String)
  pub roles : Option (List Role)

abbrev pub issuers : List Role
issuers = Role.issuer ∷ Role.admin ∷ []

abbrev pub admins : List Role
admins = Role.admin ∷ []

abbrev pub account : NavSection
account = record {
  title = "My Account";
  items =
      ("/dashboard", "Dashboard")
      ∷ ("/credentials", "My Credentials")
      ∷ ("/proofs", "My Proofs")
      ∷ ("/profile", "Profile & DID")
      ∷ [];
  roles = none;
}

abbrev pub verification : NavSection
verification = record {
  title = "Verification";
  items =
      ("/kyc/start", "Start KYC")
      ∷ ("/kyc/generate", "Generate Proof")
      ∷ ("/kyc/respond", "Proof Requests")
      ∷ [];
  roles = none;
}

abbrev pub issuer : NavSection
issuer = record {
  title = "Issuer";
  items =
      ("/issuer/dashboard", "Issuer Dashboard")
      ∷ ("/issuer/issue", "Issue Credential")
      ∷ ("/issuer/credentials", "Manage Credentials")
      ∷ ("/issuer/settings", "Issuer Settings")
      ∷ [];
  roles = some issuers;
}

abbrev pub verifier : NavSection
verifier = record {
  title = "Verifier";
  items =
      ("/verifier/dashboard", "Verifier Dashboard")
      ∷ ("/verifier/create-request", "Create Request")
      ∷ ("/verifier/results", "Results")
      ∷ [];
  roles = some issuers;
}

abbrev pub admin : NavSection
admin = record {
  title = "Admin";
  items =
      ("/admin/dashboard", "Admin Dashboard")
      ∷ ("/admin/issuers", "Issuer Registry")
      ∷ ("/admin/audit", "Audit Logs")
      ∷ ("/admin/settings", "System Settings")
      ∷ [];
  roles = some admins;
}

-- `NAV_SECTIONS`
abbrev pub nav_sections : List NavSection
nav_sections = account ∷ verification ∷ issuer ∷ verifier ∷ admin ∷ []

-- `roles && user && !roles.includes(user.role)`
abbrev pub hides : Option (List Role) → Option AuthUser → Bool
hides none user = false
hides (some roles) none = false
hides (some roles) (some u) = not (has_role roles u.role)

-- the items that a section shows while it is open
unfoldable pub shown_items :
    Option AuthUser → (is_open : Bool) → NavSection → List (String × String)
shown_items user is_open section =
    if hides section.roles user then [] else if is_open then section.items else []

-- `isActive` of a link
abbrev pub is_active_link : (pathname href : String) → Bool
is_active_link pathname href = pathname == href || is_some (after_prefix (href ++ "/") pathname)

-- the roles that the layout above a page asks for
unfoldable pub allowed_roles : (href : String) → Option (List Role)
allowed_roles href =
    if is_some (after_prefix "/admin/" href)
    then some admins
    else if is_some (after_prefix "/issuer/" href)
    then some issuers
    else if is_some (after_prefix "/verifier/" href)
    then some issuers
    else none

-- `handleLogout`: where it sends the browser, beside the tab
unfoldable pub handle_logout : Tab → Tab × String
handle_logout t = (logout t, "/")
