-- ===== src/Auth/Replay.antt =====
-- A signed challenge logs in once: what the marks in Redis rule out, and what they do not.
use Prim.Native.Char.{code}
use Prim.Native.String.{◌++◌}
use text.Mathlib.TextLemmas.{cons-append, append_assoc}
use stprivy.Common.{
  ℕ, zero, suc, ◌+◌, ◌≤◌, ◌<◌, ◌≡◌, ◌≢◌, refl, ap, ◌∙◌, String, true, List, [], ◌∷◌, arith, eq_iff,
  eq_refl, inl, inr,
}
use stprivy.Common.Tests.{is_some, Bool-cases, Option-cases}
use stprivy.Common.Exec.{ok, err, Error, Result-cases}
use stprivy.Auth.{
  Redis, Users, Sdk, State, Tokens, nonce_key, used_key, refresh_key, nonce_used, invalid_challenge,
  bad_signature, generate_challenge, login, refresh_access_token, logout, check_challenge,
  finish_login,
}

-- the code of the character at a position, 0 behind the end
nth : ℕ → String → ℕ
nth n String.[] = 0
nth zero (String.◌∷◌ c s) = code c
nth (suc n) (String.◌∷◌ c s) = nth n s

count : String → ℕ
count String.[] = 0
count (String.◌∷◌ c s) = suc (count s)

nth-append : (n : ℕ) (s t : String) → n < count s → nth n (s ++ t) ≡ nth n s
unfolding nth count
nth-append n String.[] t h = elim h [ ]
nth-append zero (String.◌∷◌ c s) t h = rw cons-append
nth-append (suc n) (String.◌∷◌ c s) t h = rw cons-append (nth-append n s t (omega arith))

-- The two kinds of keys differ in their sixth character.
refresh_key-ne-used_key : (token nonce : String) → refresh_key token ≢ used_key nonce
unfolding nth count
refresh_key-ne-used_key token nonce e =
    let left : nth 5 (refresh_key token) ≡ 114 = nth-append 5 "auth:refresh:" token (omega arith) in
    let right : nth 5 (used_key nonce) ≡ 110 =
      ap (nth 5) (append_assoc "auth:nonce:" nonce ":used")
      ∙ nth-append 5 "auth:nonce:" (nonce ++ ":used") (omega arith) in
    absurd (omega (arith, left, right, ap (nth 5) e))

-- What is asked of the service, with the values that the server makes on its way.
pub data Call : Type 0 where
  challenge : (nonce public_key : String) → Call
  sign_in : (xdr id token : String) → Call
  refresh : (token : String) → Call
  sign_out : (token : String) → Call

module _ (redis : Redis) (users : Users) (sdk : Sdk) where
  -- one call at its time; the answer is dropped
  unfoldable pub call : (now : ℕ) → Call → State redis users sdk → State redis users sdk
  call now (challenge nonce key) s = (generate_challenge redis users sdk now nonce key s).1
  call now (sign_in xdr id token) s = (login redis users sdk now xdr id token s).1
  call now (refresh token) s = (refresh_access_token redis users sdk now token s).1
  call now (sign_out token) s = (logout redis users sdk token s).1

  -- calls one after the other, each some seconds after the one before
  unfoldable pub calls :
      (now : ℕ) → List (ℕ × Call) → State redis users sdk → ℕ × State redis users sdk
  calls now [] s = (now, s)
  calls now ((later, c) ∷ rest) s = calls (now + later) rest (call (now + later) c s)

  -- from `now` until 300 seconds after `start`, the challenge is marked
  abbrev Marked : (start now : ℕ) (xdr : String) → State redis users sdk → Type 0
  Marked start now xdr s =
      (t : ℕ)
      → now ≤ t
      → t < start + 300
      → is_some (redis.get t (used_key (sdk.sha256 xdr)) s.store) ≡ true

  setex-Marked :
      (start now t ttl : ℕ) (k j v : String) (store : redis.Store)
      → start ≤ now
      → 300 ≤ ttl
      → now ≤ t
      → t < start + 300
      → is_some (redis.get t j store) ≡ true
      → is_some (redis.get t j (redis.setex now k ttl v store)) ≡ true
  setex-Marked start now t ttl k j v store h h' n l m =
      rw (redis.get-setex t now ttl k j v store n) (ground arith)

  del-Marked :
      (t : ℕ) (token nonce : String) (store : redis.Store)
      → is_some (redis.get t (used_key nonce) store) ≡ true
      → is_some (redis.get t (used_key nonce) (redis.del (refresh_key token) store)) ≡ true
  del-Marked t token nonce store m =
      rw (redis.get-del t (refresh_key token) (used_key nonce) store) (
        ground
          (arith, eq_iff (refresh_key token) (used_key nonce), refresh_key-ne-used_key token nonce))

  pub check_challenge-state :
      (now : ℕ) (xdr : String) (s : State redis users sdk)
      → (check_challenge redis users sdk now xdr s).1 ≡ s
  unfolding check_challenge
  check_challenge-state now xdr s = ground arith

  finish_login-store :
      (now : ℕ) (xdr id token client : String) (s : State redis users sdk)
      → (user_id : String) × ((finish_login redis users sdk now xdr id token client s).1.store
          ≡ redis.setex now
              (refresh_key token)
              604800
              user_id
              (redis.setex now (used_key (sdk.sha256 xdr)) 300 "1" s.store))
  unfolding finish_login
  finish_login-store now xdr id token client s =
      elim (Option-cases (users.by_address client s.rows)) [
        | inl e ↦ (id, rw e)
        | inr (u, e) ↦ (u.id, rw e)
      ]

  finish_login-Marked :
      (start now : ℕ) (xdr xdr' id token client : String) (s : State redis users sdk)
      → start ≤ now
      → Marked start now xdr s
      → Marked start now xdr (finish_login redis users sdk now xdr' id token client s).1
  finish_login-Marked start now xdr xdr' id token client s h m t n l =
      let (user_id, e) = finish_login-store now xdr' id token client s in
      rw e (
        setex-Marked start now t 604800 (refresh_key token) _ user_id _ h (omega arith) n l (
          setex-Marked start now t 300 (used_key (sdk.sha256 xdr')) _ "1" s.store h (omega arith) n
            l (m t n l)))

  finish_login-ok :
      (now : ℕ) (xdr id token client : String) (s : State redis users sdk)
      → (out : Tokens) × ((finish_login redis users sdk now xdr id token client s).0 ≡ ok out)
  unfolding finish_login
  finish_login-ok now xdr id token client s = elim (Option-cases (users.by_address client s.rows)) [
    | inl e ↦ rw e (_, refl)
    | inr (u, e) ↦ rw e (_, refl)
  ]

  login-Marked :
      (start now : ℕ) (xdr xdr' id token : String) (s : State redis users sdk)
      → start ≤ now
      → Marked start now xdr s
      → Marked start now xdr (login redis users sdk now xdr' id token s).1
  unfolding login
  login-Marked start now xdr xdr' id token s h m t n l =
      let same = check_challenge-state now xdr' s in
      elim (Result-cases (check_challenge redis users sdk now xdr' s).0) [
        | inl (client, e) ↦
            rw (e, same) (finish_login-Marked start now xdr xdr' id token client s h m t n l)
        | inr (x, e) ↦ rw (e, same) (m t n l)
      ]

  call-Marked :
      (start now : ℕ) (xdr : String) (c : Call) (s : State redis users sdk)
      → start ≤ now
      → Marked start now xdr s
      → Marked start now xdr (call now c s)
  unfolding call generate_challenge refresh_access_token logout
  call-Marked start now xdr (challenge nonce key) s h m t n l =
      setex-Marked start now t 300 (nonce_key nonce) _ key s.store h (omega arith) n l (m t n l)
  call-Marked start now xdr (sign_in xdr' id token) s h m t n l =
      login-Marked start now xdr xdr' id token s h m t n l
  call-Marked start now xdr (refresh token) s h m t n l = ground (arith, m t n l)
  call-Marked start now xdr (sign_out token) s h m t n l =
      del-Marked t token (sdk.sha256 xdr) s.store (m t n l)

  call-Marked-all :
      (start now : ℕ) (xdr : String) (cs : List (ℕ × Call)) (s : State redis users sdk)
      → start ≤ now
      → Marked start now xdr s
      → (start ≤ (calls now cs s).0) × Marked start (calls now cs s).0 xdr (calls now cs s).1
  unfolding calls
  call-Marked-all start now xdr [] s h m = (h, m)
  call-Marked-all start now xdr ((later, c) ∷ rest) s h m =
      call-Marked-all start (now + later) xdr rest (call (now + later) c s) (omega (arith, h)) (
        call-Marked start (now + later) xdr c s (omega (arith, h))
          (λ t n l. m t (omega (arith, n)) l))

  finish_login-marks :
      (now : ℕ) (xdr id token client : String) (s : State redis users sdk)
      → Marked now now xdr (finish_login redis users sdk now xdr id token client s).1
  finish_login-marks now xdr id token client s t n l =
      let (user_id, e) = finish_login-store now xdr id token client s in
      rw e (
        setex-Marked now now t 604800 (refresh_key token) _ user_id _ (omega arith) (omega arith) n
          l
          (rw
            (redis.get-setex t now 300 (used_key (sdk.sha256 xdr)) (used_key (sdk.sha256 xdr)) "1"
              s.store n)
            (ground (arith, eq_refl (used_key (sdk.sha256 xdr))))))

  login-marks :
      (now : ℕ) (xdr id token : String) (s : State redis users sdk) (out : Tokens)
      → (login redis users sdk now xdr id token s).0 ≡ ok out
      → Marked now now xdr (login redis users sdk now xdr id token s).1
  unfolding login
  login-marks now xdr id token s out good t n l =
      let same = check_challenge-state now xdr s in
      elim (Result-cases (check_challenge redis users sdk now xdr s).0) [
        | inl (client, e) ↦ rw (e, same) (finish_login-marks now xdr id token client s t n l)
        | inr (x, e) ↦ absurd (ground (arith, e, good))
      ]

  marked-refused :
      (now : ℕ) (xdr id token : String) (s : State redis users sdk)
      → is_some (redis.get now (used_key (sdk.sha256 xdr)) s.store) ≡ true
      → ((x : Error) × ((login redis users sdk now xdr id token s).0 ≡ err x))
        × ((login redis users sdk now xdr id token s).1 ≡ s)
  unfolding login check_challenge
  marked-refused now xdr id token s m = elim (Option-cases (sdk.read_challenge now xdr)) [
    | inl e ↦ rw e ((invalid_challenge, refl), refl)
    | inr (client, e) ↦ elim (Bool-cases (sdk.signers_ok now xdr client)) [
      | inl e' ↦ rw (e, e', m) ((nonce_used, refl), refl)
      | inr e' ↦ rw (e, e') ((bad_signature, refl), refl)
    ]
  ]

  -- A signed challenge that has logged in is refused when it comes again before 300 seconds have
  -- passed, whatever calls the service has answered in between, and the second attempt changes
  -- neither Redis nor the users.
  pub replay_refused :
      (now later : ℕ) (xdr id token id' token' : String) (cs : List (ℕ × Call))
      (s : State redis users sdk) (out : Tokens)
      → (login redis users sdk now xdr id token s).0 ≡ ok out
      → let (now', s') = calls now cs (login redis users sdk now xdr id token s).1 in
        now' + later < now + 300
        → ((x : Error) × ((login redis users sdk (now' + later) xdr id' token' s').0 ≡ err x))
          × ((login redis users sdk (now' + later) xdr id' token' s').1 ≡ s')
  replay_refused now later xdr id token id' token' cs s out good soon =
      let (h, m) =
        call-Marked-all now now xdr cs (login redis users sdk now xdr id token s).1 (omega arith)
          (login-marks now xdr id token s out good) in
      marked-refused _ xdr id' token' _ (m _ (omega arith) soon)

  -- Two requests with the same signed challenge that both pass the test of the nonce before either
  -- has marked it are both given tokens: the test and the mark are two steps.
  pub overlapping_logins :
      (now : ℕ) (xdr id token id' token' client : String) (s : State redis users sdk)
      → (check_challenge redis users sdk now xdr s).0 ≡ ok client
      → let s1 = (check_challenge redis users sdk now xdr s).1 in
        let (second, s2) = check_challenge redis users sdk now xdr s1 in
        let (out, s3) = finish_login redis users sdk now xdr id token client s2 in
        let (out', s4) = finish_login redis users sdk now xdr id' token' client s3 in
        (second ≡ ok client) × (((a : Tokens) × (out ≡ ok a)) × ((b : Tokens) × (out' ≡ ok b)))
  overlapping_logins now xdr id token id' token' client s e =
      let same = check_challenge-state now xdr s in
      (
        rw same e,
        (finish_login-ok now xdr id token client _, finish_login-ok now xdr id' token' client _),
      )
