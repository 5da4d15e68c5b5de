-- ===== src/Kyc/Contract/Wait.antt =====
-- The loop of `verifyProof` that waits for a transaction: when it ends, and when it does not.
use stprivy.Common.{ℕ, zero, suc, ◌<◌, ◌≡◌, ◌≢◌, refl, ◌∙◌, ap, String, none, some, arith}
use stprivy.Common.Exec.{ok}
use stprivy.Kyc.Net.{Net, TxStatus, success, failed, not_found}
use stprivy.Kyc.Contract.{Kyc, wait_status}

module _ (net : Net) (hash : String) where
  -- `n` polls in a row, from one world to another, for which the server does not know the
  -- transaction.
  pub data Unknown : ℕ → net.W → net.W → Type 0 where
    at_once : {w : net.W} → Unknown zero w w
    poll :
        {n : ℕ} {w w' v : net.W}
        → net.get_transaction hash w ≡ (ok not_found, w')
        → Unknown n w' v
        → Unknown (suc n) w v

  wait_status-poll :
      (polls : ℕ) (s : Kyc net) (w' : net.W)
      → net.get_transaction hash s.world ≡ (ok not_found, w')
      → wait_status net (suc polls) hash s ≡ wait_status net polls hash (record s { world = w' })
  unfolding wait_status
  wait_status-poll polls s w' h = ground (arith, h)

  wait_status-known :
      (polls : ℕ) (status : TxStatus) (s : Kyc net) (w' : net.W)
      → net.get_transaction hash s.world ≡ (ok status, w')
      → status ≢ not_found
      → wait_status net (suc polls) hash s ≡ (ok (some status), record s { world = w' })
  unfolding wait_status
  wait_status-known polls success s w' h k = ground (arith, h)
  wait_status-known polls failed s w' h k = ground (arith, h)
  wait_status-known polls not_found s w' h k = absurd (k refl)

  -- When the server knows the transaction at a poll after `n` others, the wait ends there, with any
  -- more than `n` polls to go, with the status that the server reports, and changes nothing of the
  -- service but the world.
  pub wait_status-ends :
      {n : ℕ} {w v : net.W}
      → Unknown n w v
      → (polls : ℕ) (status : TxStatus) (v' : net.W) (s : Kyc net) → s.world ≡ w
      → n < polls
      → net.get_transaction hash v ≡ (ok status, v')
      → status ≢ not_found
      → wait_status net polls hash s ≡ (ok (some status), record s { world = v' })
  wait_status-ends at_once zero status v' s e l h k = absurd (omega arith)
  wait_status-ends at_once (suc polls) status v' s e l h k =
      wait_status-known polls status s v' (ap (net.get_transaction hash) e ∙ h) k
  wait_status-ends (poll p rest) zero status v' s e l h k = absurd (omega arith)
  wait_status-ends (poll {w' = w'} p rest) (suc polls) status v' s e l h k =
      wait_status-poll polls s w' (ap (net.get_transaction hash) e ∙ p)
      ∙ wait_status-ends rest polls status v' (record s { world = w' }) refl (omega arith) h k

  -- Over a server that never knows the transaction, the wait does not end with any number of polls.
  pub wait_status_forever :
      (never : (w : net.W) → (net.get_transaction hash w).0 ≡ ok not_found)
      → (polls : ℕ) (s : Kyc net) → (wait_status net polls hash s).0 ≡ ok none
  unfolding wait_status
  wait_status_forever never zero s = refl
  wait_status_forever never (suc polls) s =
      let s' : Kyc net = record s { world = (net.get_transaction hash s.world).1 } in
      ground (arith, never s.world, wait_status_forever never polls s')
