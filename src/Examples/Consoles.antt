-- ===== src/Examples/Consoles.antt =====
-- The consoles of the web application: tabs, navigation, wallets and the forms for credentials.
use mathlib.Core.List.{Memᴰ, Perm}
use stprivy.Common.{◌≡◌, ◌↔◌, refl, true, false, none, some, List, [], ◌∷◌, ◌++◌, ◌==◌}
use stprivy.Common.Tests.{if◌then◌else◌}
use stprivy.Common.Exec.{ok}
use stprivy.Domain.{Credential, CredentialStatus, Role}
use stprivy.Domain.Db.{Db, assoc_db}
use stprivy.Credential.{Ledger, Vc}
use stprivy.Credential.Dto.{Decorators, SelfIssueBody, valid_issue, issue_route}
use stprivy.Web.{Tab, AuthUser, redirect, set_auth}
use stprivy.Web.Tabs.{credential_tabs, proof_tabs, issuer_tabs}
use stprivy.Web.Tabs.Parts.{tabs-Perm}
use stprivy.Web.Sidebar as Sidebar
use stprivy.Web.Sidebar.{nav_sections, shown_items, allowed_roles}
use stprivy.Web.Sidebar.Agreed.{nav_iff}
use stprivy.Web.Wallet.{
  WalletType, Extensions, returns, throws, plain, AuthRoutes, ConnectCard, select, connect_with,
  sign_with, handle_connect, shown_error,
}
use stprivy.Web.Wallet.Login.{connected, second_connect}
use stprivy.Web.Issue.{
  Texts, KycForm, IssueForm, kyc_schema, submit_kyc, issue_schema, submit_issue,
}
use stprivy.Web.Issue.Claims.{credential_of, submit_kyc-issues, submit_issue-own}
use stprivy.Examples.Data.{unary_js, count}
use stprivy.Examples.Credentials.{crypto, relations, issuer}
use stprivy.Examples.Pages.{credential, holding}
use stprivy.Examples.Requests.{proof}
use stprivy.Examples.Accounts.{index, multibase}
use stprivy.Examples.Flows.{issuers, env, start, newcomer, no_issuers}

abbrev registry : Db assoc_db
registry = record holding { issuers = ("did:stellar:GA", issuer) ∷ [] }

abbrev revoked_one : Credential
revoked_one = record credential { status = CredentialStatus.revoked }

abbrev held : List Credential
held = revoked_one ∷ credential ∷ []

tabs-Perm_example :
    let c = credential_tabs held in
    let x = proof_tabs (proof ∷ []) in
    let i = issuer_tabs (issuer ∷ []) in
    Perm (c.active ++ (c.revoked ++ c.expired)) held
    × Perm (x.completed ++ (x.pending ++ x.failed)) (proof ∷ [])
    × Perm (i.active ++ i.inactive) (issuer ∷ [])
tabs-Perm_example = tabs-Perm held (proof ∷ []) (issuer ∷ [])

abbrev books : Ledger assoc_db unary_js crypto relations
books = record { db = registry; submitted = [] }

abbrev account : AuthUser
account = record { id = "u1"; stellar_address = "GA"; role = Role.issuer; has_did = true }

abbrev fresh_tab : Tab
fresh_tab = record { stored = none; token = none; user = none; is_loading = false; leaving = none }

abbrev tab : Tab
tab = record fresh_tab { token = some "t"; user = some account }

nav_iff_example :
    Memᴰ ("/issuer/issue", "Issue Credential") (shown_items tab.user true Sidebar.issuer)
    ↔ (redirect (allowed_roles "/issuer/issue") tab ≡ none)
nav_iff_example =
    nav_iff tab account Sidebar.issuer ("/issuer/issue", "Issue Credential") refl refl refl
      (Memᴰ.tail (Memᴰ.tail (Memᴰ.head refl))) (Memᴰ.tail (Memᴰ.head refl))

abbrev extensions : Extensions
extensions = record {
  freighter_connected = true;
  freighter_access = returns "GA";
  freighter_sign = λ xdr. returns (plain xdr);
  xbull_key = none;
  xbull_sign = none;
  lobstr_key = none;
  lobstr_sign = none;
  hex_to_base64 = λ hex. hex;
  is_hex = λ text. false;
  stringify = λ answer. "";
}

abbrev routes : AuthRoutes
routes = record {
  challenge = λ address. returns "xdr";
  login = λ signed. if signed == "xdr" then returns ("t", account) else throws "Invalid";
}

abbrev card : ConnectCard
card = record {
  wallet = record { address = none; wallet_type = none; is_connecting = false; error = none };
  step = select;
  auth_error = none;
  tab = fresh_tab;
  sent_to = none;
}

opened : connect_with extensions WalletType.freighter ≡ returns "GA"
unfolding connect_with
opened = refl

sealed : sign_with extensions WalletType.freighter "xdr" ≡ returns "xdr"
unfolding sign_with
sealed = refl

second_connect_example :
    let once = handle_connect extensions routes WalletType.freighter card in
    let twice = handle_connect extensions routes WalletType.freighter once in
    (once.tab ≡ fresh_tab)
    × (shown_error once ≡ some "No wallet connected")
    × (once.wallet ≡ connected extensions routes WalletType.freighter "GA")
    × (twice.tab ≡ set_auth "t" account fresh_tab)
    × (twice.sent_to ≡ some "/dashboard")
second_connect_example =
    second_connect extensions routes WalletType.freighter "GA" "xdr" "xdr" "t" account card refl
      opened refl sealed refl

abbrev decorators : Decorators
decorators = record {
  length_two = λ text. text == "US";
  length_two-empty = refl;
  is_date_string = λ text. true;
  refusal = "Bad Request Exception";
}

abbrev texts : Texts
texts = record { length = count; to_upper_case = λ text. "US" }

abbrev kyc : KycForm
kyc = record { country = "us"; age = 30; accredited = true; expires_at = some "" }

abbrev kyc_body : SelfIssueBody
kyc_body = record { country = "US"; age = 30; accredited = true; expires_at = none }

kyc_sent : submit_kyc texts kyc ≡ some kyc_body
unfolding submit_kyc kyc_schema count
kyc_sent = refl

abbrev kyc_credential : Vc
kyc_credential =
    credential_of assoc_db unary_js crypto index issuers multibase env decorators texts "c1" "i1" 5
      "u1" "GU" none start newcomer no_issuers refl kyc_body

submit_kyc-issues_example :
    ((issue_route decorators assoc_db unary_js crypto index issuers multibase env "c1" "i1" 5 "u1"
        "GU" kyc_body start).0
      ≡ ok kyc_credential)
    × (kyc_credential.body.claims ≡ record { country = "US"; age = 30; accredited = true })
submit_kyc-issues_example =
    submit_kyc-issues assoc_db unary_js crypto index issuers multibase env decorators texts "c1"
      "i1" 5 "u1" "GU" none start newcomer no_issuers refl kyc kyc_body kyc_sent refl refl refl refl

-- an issuer means to issue a credential to somebody else
abbrev wanted : IssueForm
wanted = record {
  subject_did = "did:stellar:GOTHER";
  type = "AgeCredential";
  country = none;
  age = some 30;
  accredited = none;
  expires_at = none;
}

abbrev wanted_body : SelfIssueBody
wanted_body = record { country = "US"; age = 30; accredited = false; expires_at = none }

wanted_sent : submit_issue texts wanted ≡ some wanted_body
unfolding submit_issue issue_schema count
wanted_sent = refl

wanted_valid : valid_issue decorators wanted_body ≡ true
unfolding valid_issue
wanted_valid = refl

submit_issue-own_example :
    (vc : Vc) × ((issue_route decorators assoc_db unary_js crypto index issuers multibase env "c1"
        "i1" 5 "u1" "GU" wanted_body start).0
      ≡ ok vc)
    × (vc.body.subject ≡ "did:stellar:GU")
    × (vc.body.claims ≡ record { country = "US"; age = 30; accredited = false })
submit_issue-own_example =
    submit_issue-own assoc_db unary_js crypto index issuers multibase env decorators texts "c1" "i1"
      5 "u1" "GU" none start newcomer no_issuers refl wanted wanted_body wanted_sent wanted_valid
      refl refl
