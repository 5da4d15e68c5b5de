-- ===== src/Web/Session.antt =====
-- The session over everything that the user, the clock and the server do.
use Prim.Native.String.{◌++◌}
use stprivy.Common.{
  ℕ, ◌*◌, ◌<◌, ◌≡◌, ◌≢◌, refl, ap, String, true, false, not, ◌&&◌, Option, none, some, List, [],
  ◌∷◌, ◌==◌, arith, inl, inr, ◌⊎◌, ◌↔◌, eq_iff,
}
use stprivy.Common.Texts.{text-neq}
use stprivy.Common.Tests.{nat_eq, Option-cases, Bool-cases}
use stprivy.Common.Lists.{All}
use stprivy.Domain.{Role}
use stprivy.Web.{
  blank, is_ok, restored_from, authorization, Tab, AuthUser, DecodedJwt, Response, load, restore,
  set_auth, logout, request, received, is_auth_route, responds, rejects, undefined, redirect, view,
  minimal, is_expired,
}

pub data Event : Type 0 where
  loads : (now : ℕ) → Event
  logs_in : (token : String) → AuthUser → Event
  logs_out : Event
  requests :
      (fetch : (path : String) → (authorization : Option String) → Response)
      → (path : String) → Event

-- The user is the one that the token names.
pub record Names (d : DecodedJwt) (u : AuthUser) : Type 0 where
  pub id : u.id ≡ d.sub
  pub address : u.stellar_address ≡ d.address
  pub role : u.role ≡ d.role

module _ (decode_jwt : String → Option DecodedJwt) where
  -- The server's answer to a login has the token of the user that it names.
  abbrev pub Honest : Event → Type 0
  Honest (logs_in token user) = (d : DecodedJwt) × (decode_jwt token ≡ some d) × Names d user
  Honest _ = Unit {0}

  -- A tab whose document is not being left shows what is stored: the user of the token where there
  -- is one in `localStorage`, and nobody where there is none.
  pub data Coherent (t : Tab) : Type 0 where
    away : (to : String) → t.leaving ≡ some to → Coherent t
    nobody :
        t.leaving ≡ none
        → t.token ≡ none
        → t.user ≡ none
        → (t.stored ≡ none) ⊎ (t.stored ≡ some "")
        → Coherent t
    somebody :
        (token : String) (d : DecodedJwt) (u : AuthUser)
        → t.leaving ≡ none
        → t.stored ≡ some token
        → t.token ≡ some token
        → t.user ≡ some u
        → decode_jwt token ≡ some d
        → Names d u
        → Coherent t

  unfoldable pub happens : Event → Tab → Tab
  happens (loads now) t = restore decode_jwt now (load t)
  happens (logs_in token user) t = set_auth token user t
  happens logs_out t = logout t
  happens (requests fetch path) t = (request fetch path t).1

  -- the tab after a history, the latest event first
  unfoldable pub after : List Event → Tab → Tab
  after [] t = t
  after (e ∷ earlier) t = happens e (after earlier t)

  -- a document whose effect runs
  abbrev fresh : Option String → Tab
  fresh stored = record {
    stored = stored;
    token = none;
    user = none;
    is_loading = true;
    leaving = none;
  }

  restored_from-Coherent :
      (now : ℕ) (stored : Option String)
      → Coherent (restored_from decode_jwt now stored (fresh stored))
  restored_from-Coherent now none = nobody refl refl refl (inl refl)
  restored_from-Coherent now (some token) = elim (Bool-cases (token == "")) [
    | inl e ↦ rw e (nobody refl refl refl (inr (ap some ((eq_iff token "").0 e))))
    | inr e ↦ elim (Option-cases (decode_jwt token)) [
      | inl f ↦ rw (e, f) (nobody refl refl refl (inl refl))
      | inr (d, f) ↦ elim (Bool-cases (is_expired now d)) [
        | inl x ↦ rw (e, f, x) (nobody refl refl refl (inl refl))
        | inr x ↦
            rw (e, f, x)
              (somebody token d (minimal d) refl refl refl refl f
                (record { id = refl; address = refl; role = refl }))
      ]
    ]
  ]

  restore-Coherent : (now : ℕ) (t : Tab) → Coherent (restore decode_jwt now (load t))
  unfolding restore
  restore-Coherent now t = restored_from-Coherent now t.stored

  received-Coherent :
      (path : String) (r : Response) (t : Tab) → Coherent t → Coherent (received path r t).1
  received-Coherent path (rejects message) t h = h
  received-Coherent path (responds status status_text body_message) t h =
      elim (Bool-cases (is_ok status)) [
        | inl good ↦ rw good h
        | inr bad ↦ elim (Bool-cases (nat_eq status 401 && not (is_auth_route path))) [
          | inl out ↦ rw (bad, out) (away "/connect" refl)
          | inr other ↦ rw (bad, other) h
        ]
      ]

  happens-Coherent : (e : Event) (t : Tab) → Honest e → Coherent t → Coherent (happens e t)
  unfolding happens set_auth logout request
  happens-Coherent (loads now) t honest h = restore-Coherent now t
  happens-Coherent (logs_in token user) t honest (away to e) = away to e
  happens-Coherent (logs_in token user) t (d, f, named) (nobody e _ _ _) =
      somebody token d user e refl refl refl f named
  happens-Coherent (logs_in token user) t (d, f, named) (somebody _ _ _ e _ _ _ _ _) =
      somebody token d user e refl refl refl f named
  happens-Coherent logs_out t honest (away to e) = away to e
  happens-Coherent logs_out t honest (nobody e _ _ _) = nobody e refl refl (inl refl)
  happens-Coherent logs_out t honest (somebody _ _ _ e _ _ _ _ _) = nobody e refl refl (inl refl)
  happens-Coherent (requests fetch path) t honest h =
      received-Coherent path (fetch ("/api/v1" ++ path) (authorization t)) t h

  -- After any events, in any order: documents that load, logins that are answered with the token of
  -- the user, logouts and calls of the server with any answers, a tab shows the user that the stored
  -- token names, with its id, address and role, or nobody where no token is stored, unless the tab is
  -- being left.
  pub after-Coherent :
      (es : List Event) (t : Tab) → All Honest es → Coherent t → Coherent (after es t)
  unfolding after
  after-Coherent [] t honest h = h
  after-Coherent (e ∷ es) t (honest, rest) h =
      happens-Coherent e (after es t) honest (after-Coherent es t rest h)

  -- An answer 401 outside the routes of the login, to whatever the tab was, ends the session: the
  -- browser is sent to the page where one logs in, and the next document has no token and no user.
  -- If it is a page with the protected layout, that layout shows nothing of it and sends the browser
  -- to the login again.
  pub unauthorized_ends :
      (fetch : (path : String) → (authorization : Option String) → Response)
      (path status_text : String) (body_message : Option String) (now : ℕ)
      (allowed_roles : Option (List Role)) (t : Tab)
      → fetch ("/api/v1" ++ path) (authorization t) ≡ responds 401 status_text body_message
      → is_auth_route path ≡ false
      → let (reply, t') = request fetch path t in
        let next = restore decode_jwt now (load t') in
        (reply ≡ undefined)
        × (t'.leaving ≡ some "/connect")
        × (next.token ≡ none)
        × (next.user ≡ none)
        × (view next ≡ blank)
        × (redirect allowed_roles next ≡ some "/connect")
  unfolding request restore view redirect
  unauthorized_ends fetch path status_text body_message now allowed_roles t answer outside =
      rw (answer, outside) (refl, refl, refl, refl, refl, refl)

  -- What there must be for a user to be restored.
  pub record Restorable (now : ℕ) (stored : Option String) (u : AuthUser) : Type 0 where
    pub held : String
    pub decoded : DecodedJwt
    pub there : stored ≡ some held
    pub full : held ≢ ""
    pub readable : decode_jwt held ≡ some decoded
    pub in_time : now < decoded.exp * 1000
    pub named : u ≡ minimal decoded

  restored_needs :
      (now : ℕ) (stored : Option String) (u : AuthUser)
      → (restored_from decode_jwt now stored (fresh stored)).user ≡ some u
      → Restorable now stored u
  restored_needs now none u h = absurd (ground (arith, h))
  restored_needs now (some token) u h = elim (Bool-cases (token == "")) [
    | inl e ↦ absurd (ground (arith, e, h))
    | inr e ↦ elim (Option-cases (decode_jwt token)) [
      | inl f ↦ absurd (ground (arith, e, f, h))
      | inr (d, f) ↦ elim (Bool-cases (is_expired now d)) [
        | inl x ↦ absurd (ground (arith, e, f, x, h))
        | inr x ↦ record {
          held = token;
          decoded = d;
          there = refl;
          full = λ k. ground (arith, e, (eq_iff token "").1 k);
          readable = f;
          in_time = ground (arith, x);
          named = ground (arith, e, f, x, h);
        }
      ]
    ]
  ]

  restored_allowed :
      (now : ℕ) (stored : Option String) (u : AuthUser)
      → Restorable now stored u
      → (restored_from decode_jwt now stored (fresh stored)).user ≡ some u
  restored_allowed now stored u r =
      rw (r.there, text-neq r.held "" r.full, r.readable) (ground (arith, r.in_time, r.named))

  -- A new document restores a user exactly if there is a token in `localStorage` that is not the
  -- empty text, can be read, and has not expired; the user is the one that the token names.
  pub restore_iff :
      (now : ℕ) (t : Tab) (u : AuthUser)
      → ((restore decode_jwt now (load t)).user ≡ some u) ↔ Restorable now t.stored u
  unfolding restore
  restore_iff now t u = (restored_needs now t.stored u, restored_allowed now t.stored u)
