-- ===== src/Auth.antt =====
-- apps/server/src/modules/auth/auth.service.ts: login with a signed challenge, refresh tokens and
-- logout. Redis, the Stellar SDK's `WebAuth`, SHA-256 and the JWT library are parameters. Times
-- are seconds.
pub mod Replay
pub mod Refresh
pub mod Guards
pub mod Routes
use Prim.Native.String.{◌++◌}
use stprivy.Common.{
  ℕ, ◌+◌, ◌*◌, ◌≤◌, ◌≡◌, String, Bool, true, false, not, Option, none, some, List, [], ◌∷◌, ◌==◌,
}
use stprivy.Common.Tests.{ltb, is_some, if◌then◌else◌}
use stprivy.Common.Exec.{
  Exec, Error, ok, err, unauthorized, throws, require, throw_if, gets, modify, pure, ◌>>=◌, ◌>>◌,
}
use stprivy.Domain.{Role, User}

-- Redis keeps a value until its time to live has passed.
pub record Redis : Type 1 where
  pub Store : Type 0
  pub get : (now : ℕ) → (key : String) → Store → Option String
  pub setex : (now : ℕ) → (key : String) → (ttl : ℕ) → (value : String) → Store → Store
  pub del : (key : String) → Store → Store
  pub get-setex :
      (t now ttl : ℕ) (k j v : String) (s : Store)
      → now ≤ t
      → get t j (setex now k ttl v s)
        ≡ (if k == j then (if ltb t (now + ttl) then some v else none) else get t j s)
  pub get-del :
      (t : ℕ) (k j : String) (s : Store) → get t j (del k s) ≡ (if k == j then none else get t j s)

-- The table of users, under the id and under the Stellar address, which are unique. `add` is
-- `create` of a row that is not there.
pub record Users : Type 1 where
  pub Rows : Type 0
  pub by_id : String → Rows → Option User
  pub by_address : String → Rows → Option User
  pub add : User → Rows → Rows
  pub by_id-add :
      (u : User) (id : String) (t : Rows)
      → by_id id (add u t) ≡ (if u.id == id then some u else by_id id t)
  pub by_address-add :
      (u : User) (a : String) (t : Rows)
      → by_address a (add u t) ≡ (if u.stellar_address == a then some u else by_address a t)

pub record JwtPayload : Type 0 where
  pub sub : String
  pub address : String
  pub role : Role

-- `readChallengeTx` gives the client's account, and `none` where it throws; at `false`
-- `verifyChallengeTxSigners` throws.
pub record Sdk : Type 0 where
  pub read_challenge : (now : ℕ) → (xdr : String) → Option String
  pub signers_ok : (now : ℕ) → (xdr client : String) → Bool
  pub build_challenge : (now : ℕ) → (public_key : String) → String
  pub sha256 : String → String
  pub sign_jwt : (now : ℕ) → JwtPayload → String

abbrev pub challenge_ttl_seconds : ℕ
challenge_ttl_seconds = 300

abbrev pub refresh_ttl_seconds : ℕ
refresh_ttl_seconds = 7 * 24 * 60 * 60

abbrev pub nonce_key : String → String
nonce_key nonce = "auth:nonce:" ++ nonce

abbrev pub used_key : String → String
used_key nonce = nonce_key nonce ++ ":used"

abbrev pub refresh_key : String → String
refresh_key token = "auth:refresh:" ++ token

abbrev pub invalid_challenge : Error
invalid_challenge = throws unauthorized "Invalid challenge transaction"

abbrev pub bad_signature : Error
bad_signature = throws unauthorized "Invalid or expired challenge transaction"

abbrev pub nonce_used : Error
nonce_used = throws unauthorized "Nonce already used"

abbrev pub bad_refresh : Error
bad_refresh = throws unauthorized "Invalid or expired refresh token"

abbrev pub no_user : Error
no_user = throws unauthorized "User not found"

abbrev pub unauthorized_user : Error
unauthorized_user = throws unauthorized "Unauthorized"

pub record Tokens : Type 0 where
  pub access_token : String
  pub refresh_token : String
  pub user : User

module _ (redis : Redis) (users : Users) (sdk : Sdk) where
  pub record State : Type 0 where
    pub store : redis.Store
    pub rows : users.Rows

  -- `generateChallenge`; `nonce` is the new UUID
  unfoldable pub generate_challenge :
      (now : ℕ) (nonce public_key : String) → Exec State (String × String)
  generate_challenge now nonce public_key = do
    modify (λ s. record s {
      store = redis.setex now (nonce_key nonce) challenge_ttl_seconds public_key s.store;
    })
    pure (sdk.build_challenge now public_key, nonce)

  -- `upsert` by the address: the row that is there, or a new one under a fresh id
  abbrev found_or_new : (now : ℕ) (id address : String) → Option User → State → User × State
  found_or_new now id address (some u) s = (u, s)
  found_or_new now id address none s =
      let u : User = record {
        id = id;
        stellar_address = address;
        role = Role.subject;
        created_at = now;
      } in
      (u, record s { rows = users.add u s.rows })

  upsert : (now : ℕ) (id address : String) → Exec State User
  upsert now id address s =
      let (u, s') = found_or_new now id address (users.by_address address s.rows) s in (ok u, s')

  abbrev pub payload : User → (address : String) → JwtPayload
  payload u address = record { sub = u.id; address = address; role = u.role }

  -- `issueTokenPair`; `id` is a new user's id and `token` the new refresh token
  issue_token_pair : (now : ℕ) (id token address : String) → Exec State Tokens
  unfolding upsert
  issue_token_pair now id token address = do
    user ← upsert now id address
    modify (λ s. record s {
      store = redis.setex now (refresh_key token) refresh_ttl_seconds user.id s.store;
    })
    pure (record {
      access_token = sdk.sign_jwt now (payload user address);
      refresh_token = token;
      user = user;
    })

  -- `verifyChallengeAndLogin` up to the test of the nonce: the client's key
  unfoldable pub check_challenge : (now : ℕ) (xdr : String) → Exec State String
  check_challenge now xdr = do
    client ← require invalid_challenge (sdk.read_challenge now xdr)
    throw_if (not (sdk.signers_ok now xdr client)) bad_signature
    consumed ← gets (λ s. redis.get now (used_key (sdk.sha256 xdr)) s.store)
    throw_if (is_some consumed) nonce_used
    pure client

  -- the rest: the nonce is marked, and the tokens are issued
  unfoldable pub finish_login : (now : ℕ) (xdr id token client : String) → Exec State Tokens
  unfolding issue_token_pair
  finish_login now xdr id token client = do
    modify (λ s. record s {
      store = redis.setex now (used_key (sdk.sha256 xdr)) challenge_ttl_seconds "1" s.store;
    })
    issue_token_pair now id token client

  -- `verifyChallengeAndLogin`
  unfoldable pub login : (now : ℕ) (xdr id token : String) → Exec State Tokens
  login now xdr id token = do client ← check_challenge now xdr; finish_login now xdr id token client

  -- `getMe`
  unfoldable pub get_me : (user_id : String) → Exec State User
  get_me user_id = do row ← gets (λ s. users.by_id user_id s.rows); require unauthorized_user row

  -- `refreshAccessToken`
  unfoldable pub refresh_access_token : (now : ℕ) (token : String) → Exec State String
  refresh_access_token now token = do
    found ← gets (λ s. redis.get now (refresh_key token) s.store)
    user_id ← require bad_refresh found
    row ← gets (λ s. users.by_id user_id s.rows)
    user ← require no_user row
    pure (sdk.sign_jwt now (payload user user.stellar_address))

  -- `logout`
  unfoldable pub logout : (token : String) → Exec State (Unit {0})
  logout token = modify (λ s. record s { store = redis.del (refresh_key token) s.store })
