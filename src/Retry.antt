-- ===== src/Retry.antt =====
-- The retry loop that SorobanService.withRetry (modules/soroban/soroban.service.ts) and
-- StellarService.buildAndSubmitTx (modules/stellar/stellar.service.ts) share: attempts with a
-- pause of 1, 2, 4, 8 and 16 seconds between them. The errors that are tried again differ.
pub mod Attempts
use stprivy.Common.{ℕ, ◌+◌, ◌≡◌, ◌⊎◌, inl, inr, refl, Bool, true, false, List, [], ◌∷◌}

pub data Outcome (E A : Type 0) : Type 0 where
  done : A → Outcome E A
  threw : E → Outcome E A

pub Outcome-cases :
    {E A : Type 0} (r : Outcome E A) → ((a : A) × (r ≡ done a)) ⊎ ((e : E) × (r ≡ threw e))
Outcome-cases (done a) = inl (a, refl)
Outcome-cases (threw e) = inr (e, refl)

-- The world that an attempt reads and changes, the pauses so far, the latest first, and the number
-- of attempts.
pub record Timed (W : Type 0) : Type 0 where
  pub world : W
  pub slept : List ℕ
  pub attempts : ℕ

-- `RETRY_DELAYS_MS`
abbrev pub retry_delays_ms : List ℕ
retry_delays_ms = 1000 ∷ 2000 ∷ 4000 ∷ 8000 ∷ 16000 ∷ []

module _ {W E A : Type 0} (retryable : E → Bool) (fn : W → Outcome E A × W) where
  abbrev pub attempt : Timed W → Outcome E A × Timed W
  attempt t = let (r, w) = fn t.world in (r, record t { world = w; attempts = t.attempts + 1 })

  abbrev pub pause : ℕ → Timed W → Timed W
  pause ms t = record t { slept = ms ∷ t.slept }

  -- The attempts that are left, one more than the delays. An error is thrown on after the last
  -- attempt, or if it is not worth another.
  unfoldable pub retry_from : List ℕ → Timed W → Outcome E A × Timed W
  retry_from [] t = attempt t
  retry_from (ms ∷ delays) t =
      let (r, t') = attempt t in
      elim r [
        | done a ↦ (done a, t')
        | threw e ↦
            let again = retry_from delays (pause ms t') in
            elim (retryable e) [ true ↦ again | false ↦ (threw e, t') ]
      ]

  -- the loop `for (attempt = 0; attempt <= RETRY_DELAYS_MS.length; attempt++)`
  unfoldable pub with_retry : W → Outcome E A × Timed W
  unfolding retry_from
  with_retry w = retry_from retry_delays_ms (record { world = w; slept = []; attempts = 0 })
