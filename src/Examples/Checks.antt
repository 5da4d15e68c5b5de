-- ===== src/Examples/Checks.antt =====
-- Veriff's webhook, the registry of verified wallets and the guard of the roles, at work.
use stprivy.Common.{
  ℕ, zero, suc, eq_iff, ◌≤◌, ◌<◌, ◌≡◌, ◌≢◌, refl, String, true, false, Option, none, some, [], ◌∷◌,
  inr, arith,
}
use Prim.Native.Char.{code}
use stprivy.Common.Tests.{ltb, if◌then◌else◌}
use stprivy.Common.Exec.{Result, ok}
use stprivy.Domain.{Credential, CredentialStatus, VeriffSession}
use stprivy.Domain.Db.{Db, assoc_db, empty_db}
use stprivy.Veriff.{Config, Day, WebhookPayload, calculate_age, claims_of, handle_webhook}
use stprivy.Veriff.Age.{ordinal, birthday, calculate_age-birthday}
use stprivy.Veriff.Webhook.{after_approval, hash_for, handle_webhook-approved}
use stprivy.Credential.{compute_credential_hash}
use stprivy.Veriff.Repeated.{handle_webhook-repeated}
use stprivy.Kyc.Records.{Payload, record_of}
use stprivy.Kyc.Net.{Net, ContractConfig, TxStatus, success, not_found}
use stprivy.Kyc.Signer.{AttestationData, serialize_payload}
use stprivy.Kyc.Signer.Payload.{HasNoBar, read_payload, read_payload-serialize_payload}
use stprivy.Kyc.Contract.{make, wait_status, is_verified}
use stprivy.Kyc.Contract.Wait.{at_once, poll, wait_status-ends}
use stprivy.Kyc.Contract.History.{latest, attested, revoked, after, is_verified-latest}
use stprivy.Kyc.Transaction.Effects.{StartsCapital}
use stprivy.Examples.Data.{unary, unary_js}
use stprivy.Examples.Requests
use stprivy.Examples.Credentials.{crypto}
use stprivy.Examples.Flows.{issuers, no_issuers}

abbrev leap_day : Day
leap_day = record { year = 2004; month = 1; date = 29 }

abbrev today : Day
today = record { year = 2022; month = 1; date = 28 }

calculate_age-birthday_example :
    (ordinal (birthday leap_day 17) ≤ ordinal today)
    × (ordinal today < ordinal (birthday leap_day 18))
unfolding calculate_age
calculate_age-birthday_example =
    calculate_age-birthday leap_day today (record { month = omega arith; date = omega arith })
      (record { month = omega arith; date = omega arith }) (omega arith)

abbrev config : Config crypto
config = record {
  api_key = "key";
  api_secret = "secret";
  key = tt;
  hmac = λ secret body. body;
  upper = λ t. t;
  day_of = λ t. leap_day;
}

abbrev session : VeriffSession
session = record {
  user_id = "u1";
  session_id = "v1";
  session_url = "";
  status = "created";
  credential_id = none;
}

abbrev approval : WebhookPayload
approval = record {
  id = "v1";
  verification = some (record { status = "approved"; person = none; document = none });
}

abbrev visits : Db assoc_db
visits = record empty_db { sessions = ("v1", session) ∷ []; dids = ("u1", Requests.did) ∷ [] }

handle_webhook-approved_example :
    handle_webhook assoc_db unary_js crypto issuers config "c1" "i1" 5 today approval "sent" "sent"
      visits
    ≡ (
      ok tt,
      after_approval assoc_db unary_js crypto issuers config "c1" "i1" 5 today approval "sent"
          "sent" visits session Requests.did,
    )
handle_webhook-approved_example =
    handle_webhook-approved assoc_db unary_js crypto issuers config "c1" "i1" 5 today approval
      "sent" "sent" visits session Requests.did (inr refl) refl refl refl no_issuers refl refl

five-neq-six :
    hash_for assoc_db unary_js crypto issuers config "c1" "i1" 5 today approval "sent" "sent" visits
      Requests.did
    ≢ hash_for assoc_db unary_js crypto issuers config "c2" "i2" 6 today approval "sent" "sent"
        visits Requests.did
unfolding compute_credential_hash unary
five-neq-six e = ground (arith, (eq_iff "xxxxx" "xxxxxx").1 e)

handle_webhook-repeated_example :
    let s =
      (handle_webhook assoc_db unary_js crypto issuers config "c1" "i1" 5 today approval "sent"
        "sent" visits).1 in
    let s' =
      (handle_webhook assoc_db unary_js crypto issuers config "c2" "i2" 6 today approval "sent"
        "sent" s).1 in
    (first : Credential) × (second : Credential) × (assoc_db.credentials.find "c1" s.credentials
      ≡ some first)
    × (assoc_db.credentials.find "c1" s'.credentials ≡ some first)
    × (assoc_db.credentials.find "c2" s'.credentials ≡ some second)
    × (first.subject_did ≡ second.subject_did)
    × (first.claims ≡ claims_of config approval today)
    × (second.claims ≡ claims_of config approval today)
    × (first.status ≡ CredentialStatus.active)
    × (second.status ≡ CredentialStatus.active)
handle_webhook-repeated_example =
    handle_webhook-repeated assoc_db unary_js crypto issuers config approval "sent" "sent" visits
      "c1" "i1" 5 today "c2" "i2" 6 today session Requests.did (inr refl) refl refl refl no_issuers
      refl refl (λ e. ground (arith, (eq_iff "c1" "c2").1 e)) (refl, refl, five-neq-six)

unary-HasNoBar : (n : ℕ) → HasNoBar (unary n)
unfolding unary
unary-HasNoBar zero = tt
unary-HasNoBar (suc n) = (refl, unary-HasNoBar n)

abbrev attestation : AttestationData
attestation = record {
  wallet = "GA";
  verified = true;
  country = "US";
  age_over_18 = true;
  issued_at = 1;
  expires_at = 3;
  nonce = "n";
  proof_hash = "h";
  issuer = "backend";
}

read_payload-serialize_payload_example :
    read_payload unary_js (serialize_payload unary_js attestation) ≡ some attestation
read_payload-serialize_payload_example =
    read_payload-serialize_payload unary_js attestation unary-HasNoBar (
      (refl, (refl, tt)),
      (
        (refl, (refl, tt)),
        (
          (refl, tt),
          ((refl, tt), ((refl, (refl, (refl, (refl, (refl, (refl, (refl, tt))))))), tt)),
        ),
      ),
    )

-- a server that knows a transaction after a number of polls, and an attestation that is no JSON
-- where it starts with a capital letter
abbrev known_after : ℕ → Result TxStatus × ℕ
known_after zero = (ok success, 0)
known_after (suc n) = (ok not_found, n)

abbrev read : String → Option Payload
read String.[] = none
read (String.◌∷◌ c text) =
    if ltb (code c) b'a'
    then none
    else some (record {
      country = none;
      age_over_18 = none;
      issued_at = none;
      expires_at = none;
      issuer = none;
      circuit_id = none;
      proof = none;
      public_inputs = none;
    })

read-capital : (t : String) → StartsCapital t → read t ≡ none
read-capital String.[] h = refl
read-capital (String.◌∷◌ c t) (above, below) = ground (arith, above, below)

abbrev pub net : Net
net = record {
  W = ℕ;
  Account = Unit {0};
  Tx = Unit {0};
  public_key = λ key. "GA";
  is_contract = λ id. true;
  get_account = λ key w. (ok tt, w);
  build = λ passphrase id method args account. ok tt;
  sign = λ key tx. tx;
  to_xdr = λ tx. "";
  from_xdr = λ xdr passphrase. ok tt;
  simulate = λ tx w. (ok tt, w);
  send = λ tx w. (ok "hash", w);
  get_transaction = λ hash w. known_after w;
  parse = read;
  lower = λ t. t;
}

abbrev pub contract : (id : String) → ContractConfig
contract id = record { contract_id = id; rpc_url = ""; network_passphrase = ""; secret_key = "S" }

real : (make net (contract "C") 2).use_mock_mode ≡ false
unfolding make
real = refl

mocked : (make net (contract "") 2).use_mock_mode ≡ true
unfolding make
mocked = refl

wait_status-ends_example :
    wait_status net 5 "hash" (make net (contract "C") 2)
    ≡ (ok (some success), record (make net (contract "C") 2) { world = 0 })
unfolding make
wait_status-ends_example =
    wait_status-ends net "hash" (poll refl (poll refl at_once)) 5 success 0
      (make net (contract "C") 2) refl (omega arith) refl (λ e. ground (arith, e))

is_verified-latest_example :
    is_verified net 9 "ga"
      (after net unary_js (attested 7 "ga" "x" "" ∷ revoked 6 "ga" ∷ []) (make net (contract "") 2))
    ≡ true
unfolding latest record_of make
is_verified-latest_example =
    is_verified-latest net unary_js 9 "ga" (attested 7 "ga" "x" "" ∷ revoked 6 "ga" ∷ [])
      (make net (contract "") 2) mocked refl
