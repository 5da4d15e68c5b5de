-- ===== src/Kyc/Transaction/Effects.antt =====
-- What the calls of transaction.service.ts leave behind.
use Prim.Native.Char.{code}
use text.Mathlib.TextLemmas.{cons-append}
use stprivy.Common.{
  ℕ, ◌-◌, ◌*◌, ◌/◌, ◌≤◌, ◌≡◌, refl, ap, ◌∙◌, String, true, false, none, some, List, ◌∷◌, arith, inl,
  inr, eq_refl,
}
use stprivy.Common.Tests.{if◌then◌else◌, Bool-cases}
use stprivy.Common.Exec.{Result, ok, err}
use stprivy.Common.Js.{Js}
use stprivy.Kyc.Records.{VerificationRecord, map_get}
use stprivy.Kyc.Net.{Net, Arg}
use stprivy.Common.Separated.{join}
use stprivy.Kyc.Signer.{join_bar, serialize_payload, sign_attestation, create_attestation}
use stprivy.Kyc.Contract.{
  Kyc, verify_attestation, revoke_user, is_verified, invalid_payload, syntax_error, send_call,
}
use stprivy.Kyc.Contract.History.{map_get-delete}
use stprivy.Kyc.Transaction.{refused, caught, signed, submit_verification, revoke_verification}

-- The texts that start with a capital letter: no JSON text does.
abbrev pub StartsCapital : String → Type 0
StartsCapital String.[] = ⊥
StartsCapital (String.◌∷◌ c text) = (b'A' ≤ code c) × (code c ≤ b'Z')

module _ (net : Net) (js : Js) (sign : String → String) (now : ℕ) where
  join_bar-capital :
      (x : String) (y : String) (xs : List String)
      → StartsCapital x
      → StartsCapital (join_bar (x ∷ y ∷ xs))
  join_bar-capital String.[] y xs h = absurd h
  join_bar-capital (String.◌∷◌ c x) y xs h = unfold join in (rw cons-append h)

  -- `JSON.parse` throws on a text that starts with a capital letter. A Stellar address does, and so
  -- does the payload, which is no JSON: every submission for such a wallet is refused, in both modes,
  -- and changes nothing.
  pub submit_verification-refused :
      (json : (t : String) → StartsCapital t → net.parse t ≡ none)
      → (polls : ℕ) (nonce wallet country : String) (age : ℕ) (proof_hash : String) (days : ℕ)
        (s : Kyc net)
      → StartsCapital wallet
      → submit_verification net js sign now polls nonce wallet country age proof_hash days s
        ≡ (refused (if s.use_mock_mode then invalid_payload.message else syntax_error.message), s)
  unfolding submit_verification verify_attestation sign_attestation serialize_payload
      create_attestation
  submit_verification-refused json polls nonce wallet country age proof_hash days s h =
      let none_there =
        json (signed net js sign now nonce wallet country age proof_hash days).payload
          (join_bar-capital wallet _ _ h) in
      elim (Bool-cases s.use_mock_mode) [
        | inl e ↦ ground (arith, e, none_there)
        | inr e ↦ ground (arith, e, none_there)
      ]

  send_call-store :
      (method : String) (args : List Arg) (s : Kyc net)
      → (send_call net method args s).1.store ≡ s.store
  unfolding send_call
  send_call-store method args s = ground arith

  caught-state : (x : Result String × Kyc net) → (caught x).1 ≡ x.1
  caught-state (ok hash, s) = refl
  caught-state (err e, s) = refl

  pub is_verified-store :
      (later : ℕ) (wallet : String) (s t : Kyc net)
      → s.store ≡ t.store
      → is_verified net later wallet s ≡ is_verified net later wallet t
  unfolding is_verified
  is_verified-store later wallet s t e = ground (arith, e)

  revoke_user-store :
      (wallet : String) (s : Kyc net)
      → s.use_mock_mode ≡ false
      → (revoke_user net js now wallet s).1.store ≡ s.store
  unfolding revoke_user
  revoke_user-store wallet s m = unfold send_call in ground (arith, m)

  -- With a contract, a revocation leaves the records in memory as they are: whether it succeeds or
  -- not, a wallet that was verified still is, as long as it would have been.
  pub revoke_verification-keeps :
      (wallet other : String) (later : ℕ) (s : Kyc net)
      → s.use_mock_mode ≡ false
      → is_verified net later other (revoke_verification net js sign now wallet s).1
        ≡ is_verified net later other s
  unfolding revoke_verification
  revoke_verification-keeps wallet other later s m = is_verified-store later other _ s (
      ap (λ (t : Kyc net). t.store) (caught-state (revoke_user net js now wallet s))
      ∙ revoke_user-store wallet s m)

  -- In mock mode a revoked wallet is not verified at any time, until it is attested again.
  pub revoke_verification-ends :
      (wallet : String) (later : ℕ) (s : Kyc net)
      → s.use_mock_mode ≡ true
      → is_verified net later wallet (revoke_verification net js sign now wallet s).1 ≡ false
  unfolding revoke_verification revoke_user is_verified
  revoke_verification-ends wallet later s m = ground (
    arith,
    m,
    map_get-delete (net.lower wallet) (net.lower wallet) s.store,
    eq_refl (net.lower wallet),
  )

  -- The times of an attestation are seconds, and the records are compared with milliseconds: a record
  -- that holds an attestation's end of validity has expired when it is made, for all validities of up
  -- to some thousand years.
  pub attestation_expired :
      (nonce wallet country : String) (age : ℕ) (proof_hash : String) (days later : ℕ)
      (r : VerificationRecord) (s : Kyc net)
      → r.expires_at ≡ (create_attestation now nonce wallet country age proof_hash days).expires_at
      → map_get (net.lower wallet) s.store ≡ some r
      → days * 86400 ≤ now - now / 1000
      → now ≤ later
      → is_verified net later wallet s ≡ false
  unfolding is_verified create_attestation
  attestation_expired nonce wallet country age proof_hash days later r s e f g h =
      ground (arith, e, f)
