-- ===== src/Kyc/Routes/Unchanged.antt =====
-- What the routes of the controller can do to the records of verified wallets.
use stprivy.Common.{
  ℕ, zero, suc, ◌≡◌, refl, ◌∙◌, String, Bool, true, false, Option, none, some, List, [], ◌∷◌, arith,
  inl, inr,
}
use stprivy.Common.Tests.{if◌then◌else◌, Bool-cases}
use stprivy.Common.Exec.{Result, Result-cases, ok, err, Exec, pure, resume}
use stprivy.Common.Js.{Js}
use stprivy.Kyc.Net.{Net, Arg}
use stprivy.Kyc.Contract.{
  Kyc, build_call, send_call, initialize, wait_status, send_and_wait, simulated, verify_args,
  verify_proof, build_verify_proof_transaction, submit_signed_transaction, is_verified,
}
use stprivy.Kyc.Routes.{
  Pipe, KycRequest, KycAnswer, verify, revoke, verified, verification, rotate, public_key,
  initializes, verify_groth16, build, submit_signed, valid, answer_with, or_version, handler, route,
  routes,
}
use stprivy.Kyc.Transaction.Effects.{is_verified-store}

module _ (net : Net) (js : Js) (now : ℕ) where
  initialize-store :
      (backend_public_key admin_address version : String) (s : Kyc net)
      → (initialize net js now backend_public_key admin_address version s).1.store ≡ s.store
  unfolding initialize
  initialize-store backend_public_key admin_address version s =
      unfold send_call in (unfold build_call in ground arith)

  build-store :
      (user_public_key circuit_id proof : String) (public_inputs : List String) (s : Kyc net)
      → (build_verify_proof_transaction net user_public_key circuit_id proof public_inputs
          s).1.store
        ≡ s.store
  unfolding build_verify_proof_transaction
  build-store user_public_key circuit_id proof public_inputs s = unfold build_call in ground arith

  submit-store :
      (signed_xdr : String) (s : Kyc net)
      → (submit_signed_transaction net signed_xdr s).1.store ≡ s.store
  unfolding submit_signed_transaction
  submit-store signed_xdr s = ground arith

  wait_status-store :
      (polls : ℕ) (hash : String) (s : Kyc net) → (wait_status net polls hash s).1.store ≡ s.store
  unfolding wait_status
  wait_status-store zero hash s = refl
  wait_status-store (suc polls) hash s =
      let s' : Kyc net = record s { world = (net.get_transaction hash s.world).1 } in
      ground (arith, wait_status-store polls hash s')

  send_and_wait-store :
      (polls : ℕ) (tx : net.Tx) (s : Kyc net) → (send_and_wait net polls tx s).1.store ≡ s.store
  unfolding send_and_wait
  send_and_wait-store polls tx s =
      let s' : Kyc net = record s { world = (net.send tx s.world).1 } in
      elim (Result-cases ((net.send tx s.world).0)) [
        | inl (hash, e) ↦ ground (arith, e, wait_status-store polls hash s')
        | inr (message, e) ↦ ground (arith, e)
      ]

  build_call-store :
      (key method : String) (args : List Arg) (s : Kyc net)
      → (build_call net key method args s).1.store ≡ s.store
  unfolding build_call
  build_call-store key method args s = ground arith

  module _ {A B : Type 0} where
    resume-store :
        (x : Result A × Kyc net) (f : A → Exec (Kyc net) B)
        → ((a : A) (t : Kyc net) → (f a t).1.store ≡ t.store)
        → (resume x f).1.store ≡ x.1.store
    resume-store (ok a, s) f k = k a s
    resume-store (err e, s) f k = refl

  either-store :
      {A : Type 0} (b : Bool) (x y : Result A × Kyc net) (s : Kyc net)
      → x.1.store ≡ s.store
      → y.1.store ≡ s.store
      → (if b then x else y).1.store ≡ s.store
  either-store true x y s p q = p
  either-store false x y s p q = q

  -- what is left of `verifyProof` when the simulation has ended, and before it
  abbrev sent_if : (polls : ℕ) → net.Tx → Bool → Exec (Kyc net) (Option Bool)
  sent_if polls tx fits = if fits then send_and_wait net polls tx else pure (some false)

  abbrev proved : (polls : ℕ) → net.Tx → Exec (Kyc net) (Option Bool)
  proved polls tx s = resume (simulated net tx s) (sent_if polls tx)

  sent_if-store :
      (polls : ℕ) (tx : net.Tx) (fits : Bool) (s : Kyc net)
      → (sent_if polls tx fits s).1.store ≡ s.store
  sent_if-store polls tx true s = send_and_wait-store polls tx s
  sent_if-store polls tx false s = refl

  simulated-store : (tx : net.Tx) (s : Kyc net) → (simulated net tx s).1.store ≡ s.store
  simulated-store tx s = ground arith

  proved-store : (polls : ℕ) (tx : net.Tx) (s : Kyc net) → (proved polls tx s).1.store ≡ s.store
  proved-store polls tx s =
      resume-store (simulated net tx s) (sent_if polls tx) (sent_if-store polls tx)
      ∙ simulated-store tx s

  verify_proof-store :
      (polls : ℕ) (circuit_id : String) (proof : Option String) (public_inputs : List String)
      (s : Kyc net)
      → (verify_proof net polls circuit_id proof public_inputs s).1.store ≡ s.store
  unfolding verify_proof build_call
  verify_proof-store polls circuit_id proof public_inputs s =
      let key : String = net.public_key s.keypair in
      let args : List Arg = verify_args net circuit_id proof public_inputs in
      either-store s.use_mock_mode (ok (some true), s)
        (resume (build_call net key "verify_proof" args s)
          (λ built. proved polls (net.sign s.keypair built)))
        s refl
        (resume-store (build_call net key "verify_proof" args s)
            (λ built. proved polls (net.sign s.keypair built))
            (λ built. proved-store polls (net.sign s.keypair built))
          ∙ build_call-store key "verify_proof" args s)

  module _ (sign : String → String) (server_key : String) (pipe : Pipe) (polls : ℕ)
      (nonce : String) where
    abbrev valid_body : KycRequest → Bool
    valid_body = valid net js sign server_key pipe now polls nonce

    abbrev handle : KycRequest → Kyc net → Result KycAnswer × Kyc net
    handle = handler net js sign server_key pipe now polls nonce

    answer-store :
        {A : Type 0} (make : A → KycAnswer) (x : Result A × Kyc net)
        → (answer_with net js sign server_key pipe now polls nonce make x).1.store ≡ x.1.store
    answer-store make (ok a, t) = refl
    answer-store make (err e, t) = refl

    undecorated_refused : (k : String) (ks : List String) → ¬ (pipe.accepts [] (k ∷ ks) ≡ true)
    undecorated_refused k ks h = ground (arith, h, pipe.accepts-undecorated k ks)

    -- a handler that is run leaves the records as they are
    handler-store :
        (r : KycRequest) (s : Kyc net) → valid_body r ≡ true → (handle r s).1.store ≡ s.store
    unfolding valid handler
    handler-store (verify wallet country age proof_hash none) s h =
        absurd (undecorated_refused _ _ h)
    handler-store (verify wallet country age proof_hash (some days)) s h =
        absurd (undecorated_refused _ _ h)
    handler-store (revoke wallet) s h = absurd (undecorated_refused _ _ h)
    handler-store (verified wallet) s h = refl
    handler-store (verification wallet) s h = refl
    handler-store (rotate new_public_key) s h = absurd (undecorated_refused _ _ h)
    handler-store public_key s h = refl
    handler-store (initializes backend admin version) s h =
        answer-store _ (initialize net js now backend admin (or_version version) s)
        ∙ initialize-store backend admin (or_version version) s
    handler-store (verify_groth16 circuit_id proof public_inputs) s h =
        answer-store _ (verify_proof net polls circuit_id (some proof) public_inputs s)
        ∙ verify_proof-store polls circuit_id (some proof) public_inputs s
    handler-store (build user circuit_id proof public_inputs) s h =
        answer-store _ (build_verify_proof_transaction net user circuit_id proof public_inputs s)
        ∙ build-store user circuit_id proof public_inputs s
    handler-store (submit_signed signed_xdr) s h =
        answer-store _ (submit_signed_transaction net signed_xdr s) ∙ submit-store signed_xdr s

    route-store :
        (r : KycRequest) (s : Kyc net)
        → (route net js sign server_key pipe now polls nonce r s).1.store ≡ s.store
    unfolding route
    route-store r s = elim (Bool-cases (valid_body r)) [
      | inl e ↦ ground (arith, e, handler-store r s e)
      | inr e ↦ ground (arith, e)
    ]

    routes-store :
        (rs : List KycRequest) (s : Kyc net)
        → (routes net js sign server_key pipe now polls nonce rs s).store ≡ s.store
    unfolding routes
    routes-store [] s = refl
    routes-store (r ∷ rs) s =
        routes-store rs (route net js sign server_key pipe now polls nonce r s).1 ∙ route-store r s

    -- No request to the controller, with a body that has its properties, and no sequence of such
    -- requests changes whether a wallet is verified, at any time and in both modes: the validation
    -- refuses the bodies of verify, of revoke and of rotate-key, and the routes that are served do not
    -- write to the records.
    pub routes-keep :
        (rs : List KycRequest) (later : ℕ) (wallet : String) (s : Kyc net)
        → is_verified net later wallet (routes net js sign server_key pipe now polls nonce rs s)
          ≡ is_verified net later wallet s
    routes-keep rs later wallet s =
        is_verified-store net js sign now later wallet _ s (routes-store rs s)
