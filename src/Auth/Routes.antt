-- ===== src/Auth/Routes.antt =====
-- apps/server/src/modules/auth/auth.controller.ts: the routes with the validation of their bodies
-- (dto/auth.dto.ts). The rate limit's guard and the guard of the JWT run before them, and what
-- they answer is a parameter: Auth/Guards has the latter's own code.
use stprivy.Common.{ℕ, String, Bool, true, not, Option, none, some, ◌≡◌, arith}
use stprivy.Common.Exec.{
  Exec, Result, ok, err, Error, bad_request, throws, throw_if, pure, raise, ◌>>=◌, ◌>>◌,
}
use stprivy.Domain.{User}
use stprivy.Auth.{
  Redis, Users, Sdk, State, Tokens, bad_refresh, generate_challenge, login, get_me,
  refresh_access_token, logout,
}
use stprivy.Auth.Guards.{handle_request}
use stprivy.Auth.Refresh.{logout_ends}

-- A request. For `me` the guard has the error and the user's id of the token.
pub data AuthRequest : Type 0 where
  challenge : (public_key : String) → AuthRequest
  log_in : (signed_transaction : String) → AuthRequest
  refresh log_out : (refresh_token : String) → AuthRequest
  me : (token_error : Option Error) (user_id : Option String) → AuthRequest

pub data AuthAnswer : Type 0 where
  challenged : (transaction nonce : String) → AuthAnswer
  tokens : Tokens → AuthAnswer
  access_token : String → AuthAnswer
  user : User → AuthAnswer
  no_content : AuthAnswer

-- the text of the query or the body that must not be empty
abbrev pub required_text : AuthRequest → Option String
required_text (challenge public_key) = some public_key
required_text (log_in signed_transaction) = some signed_transaction
required_text (refresh refresh_token) = some refresh_token
required_text (log_out refresh_token) = some refresh_token
required_text (me token_error user_id) = none

abbrev pub is_filled : (is_not_empty : String → Bool) → Option String → Bool
is_filled is_not_empty none = true
is_filled is_not_empty (some text) = is_not_empty text

module _ (redis : Redis) (users : Users) (sdk : Sdk) (is_not_empty : String → Bool)
    (refusal : String) where
  of_guard : Result String → Exec (State redis users sdk) AuthAnswer
  of_guard (err e) = raise e
  of_guard (ok user_id) = do row ← get_me redis users sdk user_id; pure (user row)

  -- the methods; `id`, `nonce` and `token` are the new user's id, the nonce and the refresh token
  unfoldable pub auth_handler :
      (now : ℕ) (id nonce token : String) → AuthRequest → Exec (State redis users sdk) AuthAnswer
  unfolding of_guard
  auth_handler now id nonce token (challenge public_key) = do
    made ← generate_challenge redis users sdk now nonce public_key
    pure (challenged made.0 made.1)
  auth_handler now id nonce token (log_in signed_transaction) = do
    pair ← login redis users sdk now signed_transaction id token
    pure (tokens pair)
  auth_handler now id nonce token (refresh refresh_token) = do
    given ← refresh_access_token redis users sdk now refresh_token
    pure (access_token given)
  auth_handler now id nonce token (log_out refresh_token) = do
    logout redis users sdk refresh_token
    pure no_content
  auth_handler now id nonce token (me token_error user_id) =
      of_guard (handle_request token_error user_id)

  -- a route: the rate limit's guard, the validation, the method
  unfoldable pub auth_route :
      (limited : Option Error) (now : ℕ) (id nonce token : String)
      → AuthRequest
      → Exec (State redis users sdk) AuthAnswer
  auth_route (some e) now id nonce token r = raise e
  auth_route none now id nonce token r = do
    throw_if (not (is_filled is_not_empty (required_text r))) (throws bad_request refusal)
    auth_handler now id nonce token r

  -- A token that was logged out over its route is refused by the route that refreshes, at any time.
  logged_out-refused :
      (now later : ℕ) (id nonce token refresh_token : String) (s : State redis users sdk)
      → is_not_empty refresh_token ≡ true
      → let s' = (auth_route none now id nonce token (log_out refresh_token) s).1 in
        auth_route none later id nonce token (refresh refresh_token) s' ≡ (err bad_refresh, s')
  unfolding auth_route auth_handler
  logged_out-refused now later id nonce token refresh_token s filled =
      ground (arith, filled, logout_ends redis users sdk later refresh_token s)
