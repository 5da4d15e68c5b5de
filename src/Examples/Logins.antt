-- ===== src/Examples/Logins.antt =====
-- Logins of one user, with a store that is a list of writes with their times.
use stprivy.Common.{
  ℕ, ◌+◌, ◌≡◌, ◌<◌, String, true, Option, none, some, List, [], ◌∷◌, ◌==◌, refl, arith,
}
use stprivy.Common.Tests.{ltb, if◌then◌else◌}
use stprivy.Common.Exec.{Error, ok, err}
use stprivy.Domain.{User, Role}
use stprivy.Auth.{Redis, Users, Sdk, State, Tokens, login, check_challenge, finish_login}
use stprivy.Auth.Replay.{Call, refresh, sign_out, calls, replay_refused}
use stprivy.Auth.Refresh.{Coherent, Refreshes, login-Refreshes}

-- a value with the time at which it ends, or a deletion
abbrev Entry : Type 0
Entry = String × Option (ℕ × String)

abbrev alive : (now : ℕ) → Option (ℕ × String) → Option String
alive now none = none
alive now (some (until, v)) = if ltb now until then some v else none

abbrev read : (now : ℕ) → String → List Entry → Option String
read now k [] = none
read now k ((j, e) ∷ rest) = if j == k then alive now e else read now k rest

abbrev redis : Redis
redis = record {
  Store = List Entry;
  get = read;
  setex = λ now k ttl v s. (k, some (now + ttl, v)) ∷ s;
  del = λ k s. (k, none) ∷ s;
  get-setex = λ t now ttl k j v s h. refl;
  get-del = λ t k j s. refl;
}

abbrev with_id : String → List User → Option User
with_id id [] = none
with_id id (u ∷ us) = if u.id == id then some u else with_id id us

abbrev with_address : String → List User → Option User
with_address a [] = none
with_address a (u ∷ us) = if u.stellar_address == a then some u else with_address a us

abbrev users : Users
users = record {
  Rows = List User;
  by_id = with_id;
  by_address = with_address;
  add = λ u us. u ∷ us;
  by_id-add = λ u id us. refl;
  by_address-add = λ u a us. refl;
}

abbrev sdk : Sdk
sdk = record {
  read_challenge = λ now xdr. some "GA";
  signers_ok = λ now xdr client. true;
  build_challenge = λ now key. key;
  sha256 = λ xdr. xdr;
  sign_jwt = λ now payload. payload.sub;
}

abbrev empty : State redis users sdk
empty = record { store = []; rows = [] }

abbrev u1 : User
u1 = record { id = "u1"; stellar_address = "GA"; role = Role.subject; created_at = 10 }

abbrev tokens : Tokens
tokens = record { access_token = "u1"; refresh_token = "t1"; user = u1 }

first : (login redis users sdk 10 "xdr" "u1" "t1" empty).0 ≡ ok tokens
unfolding login check_challenge finish_login
first = refl

abbrev after : State redis users sdk
after = (login redis users sdk 10 "xdr" "u1" "t1" empty).1

abbrev between : List (ℕ × Call)
between = (5, refresh "t1") ∷ (20, sign_out "t1") ∷ []

soon : (calls redis users sdk 10 between after).0 + 3 < 310
unfolding calls
soon = omega arith

replay_refused_example :
    let (now, s) = calls redis users sdk 10 between after in
    ((x : Error) × ((login redis users sdk (now + 3) "xdr" "u2" "t2" s).0 ≡ err x))
    × ((login redis users sdk (now + 3) "xdr" "u2" "t2" s).1 ≡ s)
replay_refused_example =
    replay_refused redis users sdk 10 3 "xdr" "u1" "t1" "u2" "t2" between empty tokens first soon

checked : (check_challenge redis users sdk 10 "xdr" empty).0 ≡ ok "GA"
unfolding check_challenge
checked = refl

nobody : Coherent redis users sdk []
unfolding Coherent
nobody a u e = ground (arith, e)

login-Refreshes_example : Refreshes redis users sdk 10 500 "t1" tokens after
login-Refreshes_example =
    login-Refreshes redis users sdk 10 500 "xdr" "u1" "t1" empty tokens nobody first
