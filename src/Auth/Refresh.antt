-- ===== src/Auth/Refresh.antt =====
-- Refresh tokens of auth.service.ts: how long a login's token gives new access tokens, and that a
-- logout ends it.
use stprivy.Common.{
  ℕ, ◌+◌, ◌≡◌, refl, subst, String, none, some, ◌==◌, arith, eq_refl, eq_iff, inl, inr,
}
use stprivy.Common.Tests.{ltb, Bool-cases, Option-cases, if◌then◌else◌}
use stprivy.Common.Exec.{ok, err, Result-cases}
use stprivy.Domain.{User, Role}
use stprivy.Auth.Replay.{check_challenge-state}
use stprivy.Auth.{
  Redis, Users, Sdk, State, Tokens, refresh_key, bad_refresh, login, refresh_access_token, logout,
  check_challenge, finish_login, payload, used_key,
}

module _ (redis : Redis) (users : Users) (sdk : Sdk) where
  refresh-no_token :
      (now : ℕ) (token : String) (s : State redis users sdk)
      → redis.get now (refresh_key token) s.store ≡ none
      → refresh_access_token redis users sdk now token s ≡ (err bad_refresh, s)
  unfolding refresh_access_token
  refresh-no_token now token s e = rw e refl

  -- After a logout with a refresh token, that token gives no access token at any time, and the
  -- attempt changes nothing.
  pub logout_ends :
      (now : ℕ) (token : String) (s : State redis users sdk)
      → let s' = (logout redis users sdk token s).1 in
        refresh_access_token redis users sdk now token s' ≡ (err bad_refresh, s')
  unfolding logout
  logout_ends now token s = refresh-no_token now token _ (
      rw (redis.get-del now (refresh_key token) (refresh_key token) s.store)
        (ground (arith, eq_refl (refresh_key token))))

  -- The table of users holds each row under its address and under its id.
  unfoldable pub Coherent : users.Rows → Type 0
  Coherent rows =
      (a : String) (u : User)
      → users.by_address a rows ≡ some u
      → (users.by_id u.id rows ≡ some u) × (u.stellar_address ≡ a)

  abbrev pub Refreshes :
      (now later : ℕ) (token : String) (out : Tokens) → State redis users sdk → Type 0
  Refreshes now later token out s =
      (out.access_token
        ≡ sdk.sign_jwt now (payload redis users sdk out.user out.user.stellar_address))
      × (refresh_access_token redis users sdk (now + later) token s ≡ (
        (if ltb later 604800
            then ok (
                sdk.sign_jwt (now + later)
                  (payload redis users sdk out.user out.user.stellar_address))
            else err bad_refresh),
        s,
      ))

  refresh-kept :
      (now later : ℕ) (token : String) (u : User) (rows : users.Rows) (store : redis.Store)
      → users.by_id u.id rows ≡ some u
      → Refreshes now later token
          (record {
            access_token = sdk.sign_jwt now (payload redis users sdk u u.stellar_address);
            refresh_token = token;
            user = u;
          })
          (record { store = redis.setex now (refresh_key token) 604800 u.id store; rows = rows })
  unfolding refresh_access_token
  refresh-kept now later token u rows store e =
      let stored =
        redis.get-setex (now + later) now 604800 (refresh_key token) (refresh_key token) u.id store
          (omega arith) in
      (refl, ground (arith, e, stored, eq_refl (refresh_key token)))

  granted : (now : ℕ) (token client : String) (u : User) → Tokens
  granted now token client u = record {
    access_token = sdk.sign_jwt now (payload redis users sdk u client);
    refresh_token = token;
    user = u;
  }

  finish_login-Refreshes :
      (now later : ℕ) (xdr id token client : String) (s : State redis users sdk) (out : Tokens)
      → Coherent s.rows
      → (finish_login redis users sdk now xdr id token client s).0 ≡ ok out
      → Refreshes now later token out (finish_login redis users sdk now xdr id token client s).1
  unfolding finish_login Coherent granted
  finish_login-Refreshes now later xdr id token client s out good e =
      elim (Option-cases (users.by_address client s.rows)) [
        | inl none_there ↦
            let u : User = record {
              id = id;
              stellar_address = client;
              role = Role.subject;
              created_at = now;
            } in
            let same : granted now token client u ≡ out = ground (arith, none_there, e) in
            subst
              (λ (o : Tokens).
                Refreshes now later token o
                  (finish_login redis users sdk now xdr id token client s).1)
              same
              (rw none_there (
                refresh-kept now later token u _ _
                  (rw (users.by_id-add u id s.rows) (ground (arith, eq_refl id)))))
        | inr (u, found) ↦
            let (there, same) = good client u found in
            let same_out : granted now token client u ≡ out = ground (arith, found, e) in
            let store = redis.setex now (used_key (sdk.sha256 xdr)) 300 "1" s.store in
            subst
              (λ (o : Tokens).
                Refreshes now later token o
                  (finish_login redis users sdk now xdr id token client s).1)
              same_out
              (rw found (
                subst
                  (λ (c : String). Refreshes now later token (granted now token c u) (record {
                    store = redis.setex now (refresh_key token) 604800 u.id store;
                    rows = s.rows;
                  }))
                  same (refresh-kept now later token u s.rows store there)))
      ]

  -- The tokens of a login belong together: the access token is signed for the user the answer names,
  -- and the refresh token gives a new access token for that same user until 604800 seconds (7 days)
  -- have passed and is refused from then on, where the table of users holds each row under both keys.
  pub login-Refreshes :
      (now later : ℕ) (xdr id token : String) (s : State redis users sdk) (out : Tokens)
      → Coherent s.rows
      → (login redis users sdk now xdr id token s).0 ≡ ok out
      → Refreshes now later token out (login redis users sdk now xdr id token s).1
  unfolding login
  login-Refreshes now later xdr id token s out good e =
      let same = check_challenge-state redis users sdk now xdr s in
      elim (Result-cases (check_challenge redis users sdk now xdr s).0) [
        | inl (client, e') ↦
            rw (e', same)
              (finish_login-Refreshes now later xdr id token client s out good
                (ground (arith, e, e', same)))
        | inr (x, e') ↦ absurd (ground (arith, e, e'))
      ]

  add-Coherent :
      (u : User) (rows : users.Rows)
      → Coherent rows
      → users.by_id u.id rows ≡ none
      → Coherent (users.add u rows)
  unfolding Coherent
  add-Coherent u rows good free a u' e = elim (Bool-cases (u.stellar_address == a)) [
    | inl same ↦ ground (
      arith,
      e,
      same,
      users.by_address-add u a rows,
      users.by_id-add u u.id rows,
      users.by_id-add u u'.id rows,
      eq_refl u.id,
      eq_iff u.stellar_address a,
    )
    | inr other ↦
        let old : users.by_address a rows ≡ some u' =
          ground (arith, e, other, users.by_address-add u a rows) in
        let (there, same) = good a u' old in
        ground (arith, there, same, free, users.by_id-add u u'.id rows, eq_iff u.id u'.id)
  ]

  finish_login-Coherent :
      (now : ℕ) (xdr id token client : String) (s : State redis users sdk)
      → Coherent s.rows
      → users.by_id id s.rows ≡ none
      → Coherent (finish_login redis users sdk now xdr id token client s).1.rows
  unfolding finish_login
  finish_login-Coherent now xdr id token client s good free =
      elim (Option-cases (users.by_address client s.rows)) [
        | inl e ↦ rw e (add-Coherent _ s.rows good free)
        | inr (u, e) ↦ rw e good
      ]

  -- A login keeps the table of users coherent when the id it would give to a new user is free.
  pub login-Coherent :
      (now : ℕ) (xdr id token : String) (s : State redis users sdk)
      → Coherent s.rows
      → users.by_id id s.rows ≡ none
      → Coherent (login redis users sdk now xdr id token s).1.rows
  unfolding login
  login-Coherent now xdr id token s good free =
      let same = check_challenge-state redis users sdk now xdr s in
      elim (Result-cases (check_challenge redis users sdk now xdr s).0) [
        | inl (client, e') ↦
            rw (e', same) (finish_login-Coherent now xdr id token client s good free)
        | inr (x, e') ↦ rw (e', same) good
      ]
