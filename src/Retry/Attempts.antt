-- ===== src/Retry/Attempts.antt =====
-- How often the loop tries, how long it pauses, and what it returns.
use stprivy.Common.{
  ℕ, zero, suc, ◌+◌, ◌*◌, ◌≤◌, ◌≡◌, refl, ◌⊎◌, Bool, true, false, List, [], ◌∷◌, arith,
}
use stprivy.Common.Tests.{length}
use stprivy.Retry.{
  Outcome, done, threw, Timed, retry_delays_ms, retry_from, with_retry, attempt, pause,
}

abbrev pub total : List ℕ → ℕ
total [] = 0
total (ms ∷ rest) = ms + total rest

module _ {W E A : Type 0} (retryable : E → Bool) (fn : W → Outcome E A × W) where
  -- between two attempts there is one pause
  retry_from-pauses :
      (delays : List ℕ) (t : Timed W)
      → let t' = (retry_from retryable fn delays t).1 in
        t'.attempts + length t.slept ≡ t.attempts + 1 + length t'.slept
  unfolding retry_from
  retry_from-pauses [] t = omega arith
  retry_from-pauses (ms ∷ delays) t =
      ground (arith, retry_from-pauses delays (pause retryable fn ms (attempt retryable fn t).1))

  retry_from-bounds :
      (delays : List ℕ) (t : Timed W)
      → let t' = (retry_from retryable fn delays t).1 in
        (length t'.slept ≤ length t.slept + length delays)
        × (length t.slept ≤ length t'.slept)
        × (total t'.slept ≤ total t.slept + total delays)
  unfolding retry_from
  retry_from-bounds [] t = omega arith
  retry_from-bounds (ms ∷ delays) t =
      ground (arith, retry_from-bounds delays (pause retryable fn ms (attempt retryable fn t).1))

  -- There are between one and six attempts, one pause between each two of them, and no more than
  -- 31 seconds of pauses in all.
  pub with_retry_bounds :
      (w : W)
      → let t = (with_retry retryable fn w).1 in
        (t.attempts ≡ length t.slept + 1)
        × (1 ≤ t.attempts)
        × (t.attempts ≤ 6)
        × (total t.slept ≤ 31000)
  unfolding with_retry
  with_retry_bounds w =
      let start : Timed W = record { world = w; slept = []; attempts = 0 } in
      omega
        (arith, retry_from-pauses retry_delays_ms start, retry_from-bounds retry_delays_ms start)

  -- `n` attempts in a row that throw errors worth another attempt, from one world to another.
  pub data Fails : ℕ → W → W → Type 0 where
    never : {w : W} → Fails zero w w
    again :
        {n : ℕ} {w w' v : W} {e : E}
        → fn w ≡ (threw e, w')
        → retryable e ≡ true
        → Fails n w' v
        → Fails (suc n) w v

  retry_from-done :
      {n : ℕ} {w v : W}
      → Fails n w v
      → (delays : List ℕ) (t : Timed W) (v' : W) (a : A) → t.world ≡ w
      → n ≤ length delays
      → fn v ≡ (done a, v')
      → ((retry_from retryable fn delays t).0 ≡ done a)
        × ((retry_from retryable fn delays t).1.world ≡ v')
        × ((retry_from retryable fn delays t).1.attempts ≡ t.attempts + suc n)
  unfolding retry_from
  retry_from-done never [] t v' a e b h = ground (arith, e, h)
  retry_from-done never (ms ∷ delays) t v' a e b h = ground (arith, e, h)
  retry_from-done (again f r fails) [] t v' a e b h = absurd (omega arith)
  retry_from-done (again {w' = w'} f r fails) (ms ∷ delays) t v' a e b h = ground (
    arith,
    e,
    f,
    r,
    retry_from-done fails delays
        (record { world = w'; slept = ms ∷ t.slept; attempts = t.attempts + 1 }) v' a refl
        (omega arith) h,
  )

  -- If an attempt succeeds after at most five failures in a row that are worth another attempt,
  -- its value is the result, and no attempt follows it.
  pub with_retry-done :
      {n : ℕ} {w v : W} (v' : W) (a : A)
      → Fails n w v
      → n ≤ 5
      → fn v ≡ (done a, v')
      → ((with_retry retryable fn w).0 ≡ done a)
        × ((with_retry retryable fn w).1.world ≡ v')
        × ((with_retry retryable fn w).1.attempts ≡ suc n)
  unfolding with_retry
  with_retry-done {n} {w} {v} v' a fails b h =
      let (same, world, count) =
        retry_from-done fails retry_delays_ms (record { world = w; slept = []; attempts = 0 }) v' a
          refl b h in
      (same, world, omega arith)

  retry_from-threw :
      {n : ℕ} {w v : W}
      → Fails n w v
      → (delays : List ℕ) (t : Timed W) (v' : W) (e : E) → t.world ≡ w
      → n ≤ length delays
      → fn v ≡ (threw e, v')
      → (retryable e ≡ false) ⊎ (n ≡ length delays)
      → ((retry_from retryable fn delays t).0 ≡ threw e)
        × ((retry_from retryable fn delays t).1.world ≡ v')
        × ((retry_from retryable fn delays t).1.attempts ≡ t.attempts + suc n)
  unfolding retry_from
  retry_from-threw never [] t v' a e b h l = ground (arith, e, h)
  retry_from-threw never (ms ∷ delays) t v' a e b h l = ground (arith, e, h, l)
  retry_from-threw (again f r fails) [] t v' a e b h l = absurd (omega arith)
  retry_from-threw (again {n = n} {w' = w'} f r fails) (ms ∷ delays) t v' a e b h l = ground (
    arith,
    e,
    f,
    r,
    retry_from-threw fails delays
        (record { world = w'; slept = ms ∷ t.slept; attempts = t.attempts + 1 }) v' a refl
        (omega arith) h (ground (arith, l)),
  )

  -- An error that is not worth another attempt ends the loop at once, and so does the error of the
  -- sixth attempt: it is thrown on.
  pub with_retry-threw :
      {n : ℕ} {w v : W} (v' : W) (e : E)
      → Fails n w v
      → n ≤ 5
      → fn v ≡ (threw e, v')
      → (retryable e ≡ false) ⊎ (n ≡ 5)
      → ((with_retry retryable fn w).0 ≡ threw e)
        × ((with_retry retryable fn w).1.world ≡ v')
        × ((with_retry retryable fn w).1.attempts ≡ suc n)
  unfolding with_retry
  with_retry-threw {n} {w} {v} v' e fails b h l =
      let (same, world, count) =
        retry_from-threw fails retry_delays_ms (record { world = w; slept = []; attempts = 0 }) v' e
          refl b h l in
      (same, world, omega arith)

  -- What grows by at most `k` in an attempt grows by at most `k` in each of the attempts.
  retry_from-grows :
      (measure : W → ℕ) (k : ℕ)
      → ((w : W) → measure (fn w).1 ≤ measure w + k)
      → (delays : List ℕ) (t : Timed W)
      → measure (retry_from retryable fn delays t).1.world
        ≤ measure t.world + k * suc (length delays)
  unfolding retry_from
  retry_from-grows measure k step [] t = omega (arith, step t.world)
  retry_from-grows measure k step (ms ∷ delays) t = ground (
    arith,
    step t.world,
    retry_from-grows measure k step delays (pause retryable fn ms (attempt retryable fn t).1),
  )

  -- Where every attempt throws the same error, which is worth another attempt, all are made.
  retry_from-exhausts :
      (measure : W → ℕ) (k : ℕ) (e : E)
      → retryable e ≡ true
      → ((w : W) → ((fn w).0 ≡ threw e) × (measure (fn w).1 ≡ measure w + k))
      → (delays : List ℕ) (t : Timed W)
      → ((retry_from retryable fn delays t).0 ≡ threw e)
        × (measure (retry_from retryable fn delays t).1.world
            ≡ measure t.world + k * suc (length delays))
  unfolding retry_from
  retry_from-exhausts measure k e r step [] t = ((step t.world).0, omega (arith, (step t.world).1))
  retry_from-exhausts measure k e r step (ms ∷ delays) t = ground (
    arith,
    r,
    step t.world,
    retry_from-exhausts measure k e r step delays
        (pause retryable fn ms (attempt retryable fn t).1),
  )

  -- What grows by at most `k` in an attempt grows by at most 6 `k` in the loop.
  pub with_retry-grows :
      (measure : W → ℕ) (k : ℕ)
      → ((w : W) → measure (fn w).1 ≤ measure w + k)
      → (w : W) → measure (with_retry retryable fn w).1.world ≤ measure w + k * 6
  unfolding with_retry
  with_retry-grows measure k step w =
      retry_from-grows measure k step retry_delays_ms
        (record { world = w; slept = []; attempts = 0 })

  -- Where every attempt throws the same error, which is worth another attempt, six are made.
  pub with_retry-exhausts :
      (measure : W → ℕ) (k : ℕ) (e : E)
      → retryable e ≡ true
      → ((w : W) → ((fn w).0 ≡ threw e) × (measure (fn w).1 ≡ measure w + k))
      → (w : W)
      → ((with_retry retryable fn w).0 ≡ threw e)
        × (measure (with_retry retryable fn w).1.world ≡ measure w + k * 6)
  unfolding with_retry
  with_retry-exhausts measure k e r step w =
      retry_from-exhausts measure k e r step retry_delays_ms
        (record { world = w; slept = []; attempts = 0 })
