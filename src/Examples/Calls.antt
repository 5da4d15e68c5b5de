-- ===== src/Examples/Calls.antt =====
-- A flaky function under the retry loop, and contract calls over a silent server.
use stprivy.Common.{ℕ, suc, ◌≤◌, String, Bool, true, false, refl}
use stprivy.Common.Tests.{ltb}
use stprivy.Retry.{Outcome, done, threw}
use stprivy.Soroban.{Rpc, Simulation, accepted, not_found, Traffic, invoke_contract}
use stprivy.Soroban.Invoke.{IsSilent, invoke_contract-traffic}

abbrev any : Bool → Bool
any e = e

-- the number of the attempt is the world; the third one succeeds
abbrev third : ℕ → Outcome Bool ℕ × ℕ
third n = elim (ltb n 2) [ true ↦ (threw true, suc n) | false ↦ (done n, suc n) ]

-- the second one throws an error that is not worth another attempt
abbrev fatal : ℕ → Outcome Bool ℕ × ℕ
fatal n = elim (ltb n 1) [ true ↦ (threw true, suc n) | false ↦ (threw false, suc n) ]

abbrev rpc : Rpc
rpc = record {
  W = ℕ;
  Account = ℕ;
  Args = ℕ;
  Tx = String;
  Data = ℕ;
  Value = ℕ;
  get_account = λ w. (done w, w);
  build = λ id method args a. method;
  simulate = λ tx w. (done (Simulation.success 0), w);
  prepare = λ tx d. tx;
  send = λ tx w. (done (accepted tx), suc w);
  get_transaction = λ hash w. (done not_found, w);
}

silent : IsSilent rpc
silent = record {
  loads = λ w. (w, refl);
  simulates = λ tx w. (0, refl);
  accepts = λ tx w. (tx, refl);
  says_nothing = λ hash w. refl;
}

abbrev config : String → String
config key = "CA"

abbrev quiet : Traffic ℕ
quiet = record { world = 0; sends = 0; polls = 0 }

invoke_contract-traffic_example :
    let t' = (invoke_contract rpc config "kyc-registry" "verify_proof" 0 quiet).1.world in
    (t'.sends ≤ 6) × (t'.polls ≤ 120)
invoke_contract-traffic_example =
    invoke_contract-traffic rpc config "kyc-registry" "verify_proof" 0 quiet
