-- ===== src/Soroban/Invoke.antt =====
-- How much a contract call asks of the network, and what happens to a transaction that is sent and
-- not confirmed in time.
use stprivy.Common.{ℕ, zero, suc, ◌+◌, ◌≤◌, ◌≡◌, refl, String, some, arith, inl, inr, ◌≢◌, eq_iff}
use stprivy.Retry.{done, threw, Outcome-cases}
use stprivy.Retry.Attempts.{with_retry-grows, with_retry-exhausts}
use stprivy.Soroban.{
  timed_out, Rpc, Traffic, accepted, not_found, Simulation, config_key, resolve_contract_id, always,
  poll, poll_from, poll_transaction, invoke_once, invoke_contract,
}

module _ (rpc : Rpc) where
  poll_from-polls :
      (left : ℕ) (hash : String) (t : Traffic rpc.W)
      → let t' = (poll_from rpc left hash t).1 in (t'.polls ≤ t.polls + left) × (t'.sends ≡ t.sends)
  unfolding poll_from
  poll_from-polls zero hash t = omega arith
  poll_from-polls (suc left) hash t = ground (arith, poll_from-polls left hash (poll rpc hash t).1)

  -- Waiting for a transaction takes at most 20 polls and sends nothing.
  poll_transaction-polls :
      (hash : String) (t : Traffic rpc.W)
      → let t' = (poll_transaction rpc hash t).1 in (t'.polls ≤ t.polls + 20) × (t'.sends ≡ t.sends)
  unfolding poll_transaction
  poll_transaction-polls hash t = poll_from-polls 20 hash t

  invoke_once-traffic :
      (id method : String) (args : rpc.Args) (t : Traffic rpc.W)
      → let t' = (invoke_once rpc id method args t).1 in
        (t'.polls ≤ t.polls + 20) × (t'.sends ≤ t.sends + 1)
  unfolding invoke_once
  invoke_once-traffic id method args t = grind (arith, poll_transaction-polls)

  -- A server that takes every transaction and never reports on one.
  pub record IsSilent : Type 0 where
    pub loads : (w : rpc.W) → (a : rpc.Account) × ((rpc.get_account w).0 ≡ done a)
    pub simulates :
        (tx : rpc.Tx) (w : rpc.W)
        → (d : rpc.Data) × ((rpc.simulate tx w).0 ≡ done (Simulation.success d))
    pub accepts :
        (tx : rpc.Tx) (w : rpc.W) → (hash : String) × ((rpc.send tx w).0 ≡ done (accepted hash))
    pub says_nothing : (hash : String) (w : rpc.W) → (rpc.get_transaction hash w).0 ≡ done not_found

  module _ (config : String → String) (name method : String) (args : rpc.Args) where
    -- A call, with all its retries, sends at most six transactions and polls at most 120 times.
    pub invoke_contract-traffic :
        (t : Traffic rpc.W)
        → let t' = (invoke_contract rpc config name method args t).1.world in
          (t'.sends ≤ t.sends + 6) × (t'.polls ≤ t.polls + 120)
    unfolding invoke_contract
    invoke_contract-traffic t = elim (Outcome-cases (resolve_contract_id config name)) [
      | inl (id, e) ↦
          let once = invoke_once-traffic id method args in
          let sends =
            with_retry-grows (always rpc) (invoke_once rpc id method args) (λ u. u.sends) 1
              (λ u. (once u).1) t in
          let polls =
            with_retry-grows (always rpc) (invoke_once rpc id method args) (λ u. u.polls) 20
              (λ u. (once u).0) t in
          rw e (omega arith)
      | inr (x, e) ↦ rw e (omega arith)
    ]

    poll_from_silent :
        (silent : IsSilent) (left : ℕ) (hash : String) (t : Traffic rpc.W)
        → ((poll_from rpc left hash t).0 ≡ threw timed_out)
          × ((poll_from rpc left hash t).1.sends ≡ t.sends)
    unfolding poll_from
    poll_from_silent silent zero hash t = (refl, refl)
    poll_from_silent silent (suc left) hash t = ground (
      arith,
      silent.says_nothing hash t.world,
      poll_from_silent silent left hash (poll rpc hash t).1,
    )

    poll_transaction_silent :
        (silent : IsSilent) (hash : String) (t : Traffic rpc.W)
        → ((poll_transaction rpc hash t).0 ≡ threw timed_out)
          × ((poll_transaction rpc hash t).1.sends ≡ t.sends)
    unfolding poll_transaction
    poll_transaction_silent silent hash t = poll_from_silent silent 20 hash t

    invoke_once_silent :
        (silent : IsSilent) (id : String) (t : Traffic rpc.W)
        → ((invoke_once rpc id method args t).0 ≡ threw timed_out)
          × ((invoke_once rpc id method args t).1.sends ≡ t.sends + 1)
    unfolding invoke_once
    invoke_once_silent silent id t =
        let (a, loaded) = silent.loads t.world in
        let w1 = (rpc.get_account t.world).1 in
        let tx = rpc.build id method args a in
        let (d, fits) = silent.simulates tx w1 in
        let w2 = (rpc.simulate tx w1).1 in
        let (hash, taken) = silent.accepts (rpc.prepare tx d) w2 in
        let w3 = (rpc.send (rpc.prepare tx d) w2).1 in
        let t' : Traffic rpc.W = record { world = w3; sends = t.sends + 1; polls = t.polls } in
        ground (arith, loaded, fits, taken, poll_transaction_silent silent hash t')

    -- A call of a configured contract over such a server throws a timeout, after it has sent the
    -- transaction six times.
    pub silent_resends :
        (key id : String) (t : Traffic rpc.W)
        → IsSilent
        → config_key name ≡ some key
        → config key ≡ id
        → id ≢ ""
        → ((invoke_contract rpc config name method args t).0 ≡ threw timed_out)
          × ((invoke_contract rpc config name method args t).1.world.sends ≡ t.sends + 6)
    unfolding invoke_contract resolve_contract_id
    silent_resends key id t silent known set ne =
        let (thrown, sends) =
          with_retry-exhausts (always rpc) (invoke_once rpc id method args) (λ u. u.sends) 1
            timed_out refl (invoke_once_silent silent id) t in
        ground (arith, known, set, ne, eq_iff id "", thrown, sends)
