-- ===== src/Auth/Guards.antt =====
-- Who passes the guards of apps/server/src/modules/auth/guards: jwt-auth.guard.ts and
-- roles.guard.ts. The metadata of a route, the decision of Passport's `jwt` strategy and
-- `toUpperCase` are parameters.
use stprivy.Common.{
  ◌≡◌, ap, ◌∙◌, ◌↔◌, inl, inr, refl, String, Bool, true, false, ◌||◌, Option, none, some, List, [],
  ◌∷◌, ◌==◌, arith, eq_iff,
}
use stprivy.Common.Tests.{Bool-cases, Option-cases, if◌then◌else◌}
use stprivy.Common.Exec.{Result, Error, ok, err, forbidden, unauthorized, throws}

-- what `validate` of jwt.strategy.ts makes of a token, as the guards read it
pub record RequestUser : Type 0 where
  pub sub : String
  pub role : Option String

abbrev pub forbidden_error : Error
forbidden_error = throws forbidden "Forbidden"

abbrev pub unauthorized_error : Error
unauthorized_error = throws unauthorized "Unauthorized"

-- `handleRequest`: an error that was thrown is thrown on
unfoldable pub handle_request : {User : Type 0} → Option Error → Option User → Result User
handle_request (some e) user = err e
handle_request none none = err unauthorized_error
handle_request none (some user) = ok user

-- `canActivate` of the guard of the JWT: the routes that are marked as public ask for nothing
unfoldable pub jwt_can_activate :
    {User : Type 0} → (is_public : Bool) → Option Error → Option User → Result (Option User)
jwt_can_activate true e user = ok none
jwt_can_activate false e user = elim (handle_request e user) [ ok u ↦ ok (some u) | err x ↦ err x ]

module _ (upper : String → String) where
  -- `user.role?.toUpperCase() === role.toUpperCase()`
  abbrev pub role_matches : Option String → (role : String) → Bool
  role_matches none role = false
  role_matches (some given) role = upper given == upper role

  unfoldable pub has_role : Option String → List String → Bool
  has_role given [] = false
  has_role given (role ∷ roles) = role_matches given role || has_role given roles

  checked : List String → Option RequestUser → Result (Unit {0})
  checked roles none = err forbidden_error
  checked roles (some user) = if has_role user.role roles then ok tt else err forbidden_error

  -- `canActivate` of the guard of the roles
  unfoldable pub roles_can_activate :
      (required : Option (List String)) → Option RequestUser → Result (Unit {0})
  unfolding checked
  roles_can_activate none user = ok tt
  roles_can_activate (some []) user = ok tt
  roles_can_activate (some (role ∷ roles)) user = checked (role ∷ roles) user

  -- A role that the guard accepts: it is among the required ones, and is the user's but for the case
  -- of its letters.
  pub data Accepts (given : String) : List String → Type 0 where
    here :
        {role : String} {roles : List String}
        → upper given ≡ upper role
        → Accepts given (role ∷ roles)
    later :
        {role : String} {roles : List String} → Accepts given roles → Accepts given (role ∷ roles)

  Accepts-has_role :
      (given : String) (roles : List String)
      → Accepts given roles
      → has_role (some given) roles ≡ true
  unfolding has_role
  Accepts-has_role given [] x = elim x [ ]
  Accepts-has_role given (role ∷ roles) (here same) =
      rw ((eq_iff (upper given) (upper role)).1 same) refl
  Accepts-has_role given (role ∷ roles) (later rest) =
      ground (arith, Accepts-has_role given roles rest)

  has_role-Accepts :
      (given : String) (roles : List String)
      → has_role (some given) roles ≡ true
      → Accepts given roles
  unfolding has_role
  has_role-Accepts given [] h = ground (arith, h)
  has_role-Accepts given (role ∷ roles) h = elim (Bool-cases (upper given == upper role)) [
    | inl same ↦ here ((eq_iff (upper given) (upper role)).0 same)
    | inr other ↦ later (has_role-Accepts given roles (ground (arith, h, other)))
  ]

  no_role : (roles : List String) → has_role none roles ≡ false
  unfolding has_role
  no_role [] = refl
  no_role (role ∷ roles) = no_role roles

  abbrev role_of : Option RequestUser → Option String
  role_of none = none
  role_of (some u) = u.role

  -- A route that requires roles lets through exactly the users with a role among them, whatever the
  -- case of its letters, and nobody without a user.
  pub roles_can_activate_iff :
      (role : String) (roles : List String) (user : Option RequestUser)
      → (roles_can_activate (some (role ∷ roles)) user ≡ ok tt) ↔ (
          (u : RequestUser) × (given : String) × (user ≡ some u)
          × (u.role ≡ some given)
          × Accepts given (role ∷ roles))
  unfolding roles_can_activate
  roles_can_activate_iff role roles none =
      (λ h. ground (arith, h), λ (u, given, e, rest, a). ground (arith, e))
  roles_can_activate_iff role roles (some u) = (
    λ h. elim (Option-cases u.role) [
      | inl e ↦
          absurd (ground (arith, h, ap (λ r. has_role r (role ∷ roles)) e, no_role (role ∷ roles)))
      | inr (given, e) ↦ (
        u,
        given,
        refl,
        e,
        has_role-Accepts given (role ∷ roles)
            (ground (arith, h, ap (λ r. has_role r (role ∷ roles)) e)),
      )
    ],
    λ (v, given, same, e, a).
        rw (ap role_of same ∙ e) (rw (Accepts-has_role given (role ∷ roles) a) refl),
  )
