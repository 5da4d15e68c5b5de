-- ===== src/Examples/Routes.antt =====
-- The routes of the KYC controller over a contract without a network, at work.
use stprivy.Common.{◌≡◌, refl, String, Bool, true, false, none, List, [], ◌∷◌}
use stprivy.Kyc.Contract.{Kyc, make, is_verified}
use stprivy.Kyc.Contract.History.{attested, after}
use stprivy.Kyc.Routes.{
  Pipe, KycRequest, verify, revoke, verify_groth16, initializes, submit_signed, routes,
}
use stprivy.Kyc.Routes.Unchanged.{routes-keep}
use stprivy.Examples.Data.{unary_js}
use stprivy.Examples.Checks.{net, contract}

-- whether there is nothing to refuse in an undecorated class
abbrev passes : (decorated sent : List String) → Bool
passes [] (k ∷ ks) = false
passes _ _ = true

abbrev pipe : Pipe
pipe = record {
  accepts = passes;
  accepts-undecorated = λ k ks. refl;
  is_not_empty = λ t. true;
  refusal = "Bad Request";
}

-- a wallet is attested, and then the records are in memory
abbrev verified_wallet : Kyc net
verified_wallet = after net unary_js (attested 7 "ga" "x" "" ∷ []) (make net (contract "") 2)

abbrev requests : List KycRequest
requests =
    revoke "ga"
    ∷ verify "gb" "US" 30 "hash" none
    ∷ initializes "key" "GA" none
    ∷ verify_groth16 "age-proof" "proof" []
    ∷ submit_signed "xdr"
    ∷ []

routes-keep_example :
    is_verified net 9 "ga"
      (routes net unary_js (λ t. t) "GK" pipe 8 3 "nonce" requests verified_wallet)
    ≡ is_verified net 9 "ga" verified_wallet
routes-keep_example =
    routes-keep net unary_js 8 (λ t. t) "GK" pipe 3 "nonce" requests 9 "ga" verified_wallet
