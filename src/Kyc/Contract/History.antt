-- ===== src/Kyc/Contract/History.antt =====
-- The records in memory against the history of the service: whether a wallet is verified is what
-- the last call about it says.
use stprivy.Common.{
  ℕ, ◌≡◌, refl, String, Bool, true, false, Option, none, some, List, [], ◌∷◌, ◌==◌, arith, inl, inr,
  eq_iff,
}
use stprivy.Common.Tests.{ltb, if◌then◌else◌, Option-cases}
use stprivy.Common.Js.{Js}
use stprivy.Kyc.Records.{VerificationRecord, Payload, map_get, map_set, map_delete, record_of}
use stprivy.Kyc.Net.{Net}
use stprivy.Kyc.Contract.{
  Kyc, initialize, revoke_user, rotate_backend_key, verify_attestation, is_verified,
}

module _ {A : Type 0} where
  pub map_get-delete :
      (k j : String) (m : List (String × A))
      → map_get j (map_delete k m) ≡ (if k == j then none else map_get j m)
  unfolding map_get map_delete
  map_get-delete k j [] = ground arith
  map_get-delete k j ((i, a) ∷ m) =
      ground (arith, map_get-delete k j m, eq_iff i k, eq_iff i j, eq_iff k j)

  map_get-set :
      (k j : String) (a : A) (m : List (String × A))
      → map_get j (map_set k a m) ≡ (if k == j then some a else map_get j m)
  unfolding map_get map_set
  map_get-set k j a m = ground (arith, map_get-delete k j m)

-- The calls of the service that change something, each with its time.
pub data Event : Type 0 where
  attested : (now : ℕ) (wallet payload signature : String) → Event
  revoked : (now : ℕ) (wallet : String) → Event
  initialized : (now : ℕ) (key admin version : String) → Event
  rotated : (now : ℕ) (key : String) → Event

module _ (net : Net) (js : Js) where
  -- the service after a call, whatever it answers
  unfoldable pub handle : Event → Kyc net → Kyc net
  handle (attested now wallet payload signature) s =
      (verify_attestation net js now 0 wallet payload signature s).1
  handle (revoked now wallet) s = (revoke_user net js now wallet s).1
  handle (initialized now key admin version) s = (initialize net js now key admin version s).1
  handle (rotated now key) s = (rotate_backend_key net js now key s).1

  -- the service after a history, the latest call first
  unfoldable pub after : List Event → Kyc net → Kyc net
  after [] s = s
  after (e ∷ earlier) s = handle e (after earlier s)

  -- The specification: the record that the latest call about a wallet left, with no map.
  abbrev pub attestation_of :
      (now : ℕ) (wallet payload : String)
      → Option Payload
      → Option VerificationRecord
      → Option VerificationRecord
  attestation_of now wallet payload none before = before
  attestation_of now wallet payload (some p) before =
      some (record_of js now wallet payload "mock-issuer" p)

  unfoldable pub latest : (wallet : String) → List Event → Option VerificationRecord
  latest wallet [] = none
  latest wallet (attested now w payload signature ∷ earlier) =
      let before = latest wallet earlier in
      if net.lower w == net.lower wallet
      then attestation_of now w payload (net.parse payload) before
      else before
  latest wallet (revoked now w ∷ earlier) =
      let before = latest wallet earlier in if net.lower w == net.lower wallet then none else before
  latest wallet (initialized now key admin version ∷ earlier) = latest wallet earlier
  latest wallet (rotated now key ∷ earlier) = latest wallet earlier

  abbrev pub is_current : (now : ℕ) → Option VerificationRecord → Bool
  is_current now none = false
  is_current now (some r) = ltb now r.expires_at

  handle-mock :
      (e : Event) (s : Kyc net) → s.use_mock_mode ≡ true → (handle e s).use_mock_mode ≡ true
  unfolding handle verify_attestation revoke_user initialize rotate_backend_key
  handle-mock (attested now w payload signature) s m = elim (Option-cases (net.parse payload)) [
    | inl e ↦ ground (arith, e)
    | inr (p, e) ↦ ground (arith, e)
  ]
  handle-mock (revoked now w) s m = ground arith
  handle-mock (initialized now key admin version) s m = ground arith
  handle-mock (rotated now key) s m = ground arith

  after-mock :
      (es : List Event) (s : Kyc net) → s.use_mock_mode ≡ true → (after es s).use_mock_mode ≡ true
  unfolding after
  after-mock [] s m = m
  after-mock (e ∷ es) s m = handle-mock e (after es s) (after-mock es s m)

  after-latest :
      (wallet : String) (es : List Event) (s : Kyc net)
      → s.use_mock_mode ≡ true
      → s.store ≡ []
      → map_get (net.lower wallet) (after es s).store ≡ latest wallet es
  unfolding after latest handle map_get verify_attestation revoke_user initialize rotate_backend_key
  after-latest wallet [] s m e = rw e refl
  after-latest wallet (attested now w payload signature ∷ es) s m e =
      let t = after es s in
      let mock = after-mock es s m in
      let ih = after-latest wallet es s m e in
      elim (Option-cases (net.parse payload)) [
        | inl f ↦ ground (arith, f, mock, ih)
        | inr (p, f) ↦ ground (
          arith,
          f,
          mock,
          ih,
          map_get-set (net.lower w) (net.lower wallet) (record_of js now w payload "mock-issuer" p)
              t.store,
        )
      ]
  after-latest wallet (revoked now w ∷ es) s m e =
      let t = after es s in
      ground (
        arith,
        after-mock es s m,
        after-latest wallet es s m e,
        map_get-delete (net.lower w) (net.lower wallet) t.store,
      )
  after-latest wallet (initialized now key admin version ∷ es) s m e =
      ground (arith, after-mock es s m, after-latest wallet es s m e)
  after-latest wallet (rotated now key ∷ es) s m e =
      ground (arith, after-mock es s m, after-latest wallet es s m e)

  -- In mock mode, from an empty store and after any calls, a wallet is verified exactly if the latest
  -- call about it, in any spelling of its letters that is lowered to the same text, left a record
  -- that has not expired.
  pub is_verified-latest :
      (now : ℕ) (wallet : String) (es : List Event) (s : Kyc net)
      → s.use_mock_mode ≡ true
      → s.store ≡ []
      → is_verified net now wallet (after es s) ≡ is_current now (latest wallet es)
  unfolding is_verified
  is_verified-latest now wallet es s m e =
      let same = after-latest wallet es s m e in
      elim (Option-cases (latest wallet es)) [
        | inl f ↦ ground (arith, same, f)
        | inr (r, f) ↦ ground (arith, same, f)
      ]
