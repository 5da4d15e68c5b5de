-- ===== src/Registry.antt =====
-- apps/server/src/modules/issuers/issuer.service.ts: the registry of issuers on the chain, through
-- the contract calls of `Soroban`. How an address and a name become arguments, and what Boolean a
-- simulation's value holds, are the SDK's.
pub mod Issuers
use stprivy.Common.{ℕ, ◌+◌, ◌≤◌, String, Bool, false, Option, none, some}
use stprivy.Retry.{Outcome, done, threw, Timed}
use stprivy.Soroban.{Rpc, Traffic, SorobanError, simulate_contract, invoke_contract}
use stprivy.Soroban.Invoke.{invoke_contract-traffic}

module _ (rpc : Rpc) (config : String → String) (address_arg : String → rpc.Args)
    (issuer_args : (address name : String) → rpc.Args) (bool_of : rpc.Data → Option Bool) where
  -- no value and a value of another type are `false`
  abbrev or_false : Option Bool → Bool
  or_false none = false
  or_false (some b) = b

  abbrev answer : Outcome SorobanError rpc.Data × Timed (Traffic rpc.W) → Bool × Traffic rpc.W
  answer (done d, t) = (or_false (bool_of d), t.world)
  answer (threw e, t) = (false, t.world)

  -- `isRegistered`
  unfoldable pub is_registered : (stellar_address : String) → Traffic rpc.W → Bool × Traffic rpc.W
  is_registered address t =
      answer (simulate_contract rpc config "issuer-registry" "is_issuer" (address_arg address) t)

  abbrev outcome_only :
      Outcome SorobanError (String × rpc.Value) × Timed (Traffic rpc.W)
      → Outcome SorobanError (Unit {0}) × Traffic rpc.W
  outcome_only (done r, t) = (done tt, t.world)
  outcome_only (threw e, t) = (threw e, t.world)

  -- `addIssuer`: an error is thrown on
  unfoldable pub add_issuer :
      (stellar_address name : String)
      → Traffic rpc.W
      → Outcome SorobanError (Unit {0}) × Traffic rpc.W
  add_issuer address name t =
      outcome_only
        (invoke_contract rpc config "issuer-registry" "add_issuer" (issuer_args address name) t)

  -- `removeIssuer`: an error is only logged
  unfoldable pub remove_issuer : (stellar_address : String) → Traffic rpc.W → Traffic rpc.W
  remove_issuer address t =
      (invoke_contract rpc config "issuer-registry" "remove_issuer" (address_arg address) t).1.world

  outcome_only-traffic :
      (x : Outcome SorobanError (String × rpc.Value) × Timed (Traffic rpc.W)) (bound : ℕ)
      → x.1.world.sends ≤ bound
      → (outcome_only x).1.sends ≤ bound
  outcome_only-traffic (done r, t) bound h = h
  outcome_only-traffic (threw e, t) bound h = h

  -- Each change of the registry sends at most six transactions.
  registry-traffic :
      (address name : String) (t : Traffic rpc.W)
      → ((add_issuer address name t).1.sends ≤ t.sends + 6)
        × ((remove_issuer address t).sends ≤ t.sends + 6)
  unfolding add_issuer remove_issuer
  registry-traffic address name t = (
    outcome_only-traffic
        (invoke_contract rpc config "issuer-registry" "add_issuer" (issuer_args address name) t)
        (t.sends + 6)
        (invoke_contract-traffic rpc config "issuer-registry" "add_issuer"
          (issuer_args address name) t).0,
    (invoke_contract-traffic rpc config "issuer-registry" "remove_issuer" (address_arg address)
        t).0,
  )
