-- ===== src/Stellar.antt =====
-- apps/server/src/modules/stellar/stellar.service.ts: transactions are submitted through Horizon,
-- in the retry loop of `Retry`. Horizon and the SDK are a parameter.
use stprivy.Common.{
  ℕ, ◌≡◌, refl, String, Bool, true, false, not, ◌||◌, Option, none, some, List, ◌∷◌, ◌==◌, arith,
  inl,
}
use stprivy.Common.Tests.{if◌then◌else◌}
use stprivy.Retry.{Outcome, done, threw, Timed, with_retry}
use stprivy.Retry.Attempts.{never, with_retry-threw}
use stprivy.Credential.Texts.{includes}

-- What is thrown: `is_error` is `err instanceof Error`, and `tx_code` Horizon's result code of the
-- transaction, where the error has one.
pub record HorizonError : Type 0 where
  pub is_error : Bool
  pub message : String
  pub tx_code : Option String

-- `txCode && RETRYABLE_RESULT_CODES.has(txCode)`
abbrev pub retryable_code : Option String → Bool
retryable_code none = false
retryable_code (some code) = code == "tx_bad_seq"

-- `isRetryableError`; `lower` is `text.toLowerCase()`
unfoldable pub is_retryable_error : (lower : String → String) → HorizonError → Bool
is_retryable_error lower e =
    if not e.is_error
    then false
    else (let msg = lower e.message in
        if includes "timeout" msg
          || includes "econnreset" msg
          || includes "econnrefused" msg
          || includes "network" msg
        then true
        else retryable_code e.tx_code)

pub record SubmitResult : Type 0 where
  pub tx_hash : String
  pub ledger : ℕ

pub record Horizon : Type 1 where
  pub W : Type 0
  pub Account : Type 0
  pub Operations : Type 0
  pub Tx : Type 0
  pub lower : String → String
  pub load_account : W → Outcome HorizonError Account × W
  -- the builder with the operations, a timeout of 30 seconds, and the signature
  pub build : Operations → Account → Tx
  pub submit : Tx → W → Outcome HorizonError SubmitResult × W

-- the world, and the transactions that were submitted, the latest first
pub record Submitted (W Tx : Type 0) : Type 0 where
  pub world : W
  pub txs : List Tx

module _ (h : Horizon) where
  abbrev submit_counted :
      h.Tx → Submitted h.W h.Tx → Outcome HorizonError SubmitResult × Submitted h.W h.Tx
  submit_counted tx s =
      let (r, w) = h.submit tx s.world in (r, record { world = w; txs = tx ∷ s.txs })

  abbrev loaded :
      h.Operations
      → Outcome HorizonError h.Account
      → Submitted h.W h.Tx
      → Outcome HorizonError SubmitResult × Submitted h.W h.Tx
  loaded ops (threw e) s = (threw e, s)
  loaded ops (done a) s = submit_counted (h.build ops a) s

  -- one attempt: the account is loaded again each time
  unfoldable pub submit_once :
      h.Operations → Submitted h.W h.Tx → Outcome HorizonError SubmitResult × Submitted h.W h.Tx
  submit_once ops s = let (r, w) = h.load_account s.world in loaded ops r (record s { world = w })

  -- `buildAndSubmitTx`
  unfoldable pub build_and_submit_tx :
      h.Operations
      → Submitted h.W h.Tx
      → Outcome HorizonError SubmitResult × Timed (Submitted h.W h.Tx)
  build_and_submit_tx ops s = with_retry (is_retryable_error h.lower) (submit_once ops) s

  -- An answer of Horizon that is not worth another attempt, such as a transaction that is rejected
  -- for another reason than its sequence number, is thrown on after one submission, of the
  -- transaction that is built from the account as it was just loaded.
  pub fatal_submits_once :
      (ops : h.Operations) (s : Submitted h.W h.Tx) (a : h.Account) (w w' : h.W) (e : HorizonError)
      → h.load_account s.world ≡ (done a, w)
      → h.submit (h.build ops a) w ≡ (threw e, w')
      → is_retryable_error h.lower e ≡ false
      → ((build_and_submit_tx ops s).0 ≡ threw e)
        × ((build_and_submit_tx ops s).1.world.txs ≡ h.build ops a ∷ s.txs)
        × ((build_and_submit_tx ops s).1.attempts ≡ 1)
  unfolding build_and_submit_tx
  fatal_submits_once ops s a w w' e f g r =
      let after : Submitted h.W h.Tx = record { world = w'; txs = h.build ops a ∷ s.txs } in
      let (thrown, world, count) =
        with_retry-threw (is_retryable_error h.lower) (submit_once ops) {n = 0} {w = s} {v = s}
          after e never (omega arith) (unfold submit_once in (rw (f, g) refl)) (inl r) in
      (thrown, rw world refl, count)
