-- ===== src/Admin/Status.antt =====
-- What the status page says, of what the health route has checked.
use mathlib.Core.List.{Memᴰ}
use mathlib.Core.List.Memᴰ
use stprivy.Common.{
  ℕ, ◌≡◌, ◌≢◌, ◌↔◌, refl, ap, ◌∙◌, sym, subst, inl, inr, String, false, ◌==◌, eq_iff, Option, none,
  some, arith,
}
use stprivy.Common.Js.{Js}
use stprivy.Admin.{
  Outcome, succeeds, throws, Service, Page, health, healthy, not_ok, rejects, fetch_health, banner,
  or_else,
}

differ : (a b : String) → (a == b) ≡ false → a ≢ b
differ a b h e = ground (arith, h, (eq_iff a b).1 e)

degraded : ◌≢◌ {A = String} "Partial degradation" "All systems operational"
degraded = differ "Partial degradation" "All systems operational" refl

abbrev name_of : Service → String
name_of x = x.name

unknown :
    (reason : Option String)
    → reason ≢ some "Database (PostgreSQL)"
    → or_else reason "Unknown" ≢ "Database (PostgreSQL)"
unknown none other = differ "Unknown" "Database (PostgreSQL)" refl
unknown (some name) other = λ e. other (ap some e)

named : (x : Service) (a b : String) → x.name ≡ a → (a == b) ≡ false → x.name ≢ b
named x a b e h = subst (λ n. n ≢ b) (sym e) (differ a b h)

module _ (js : Js) (now elapsed : ℕ) (p : Page) where
  -- After an answer of the health route the page says that all systems are operational exactly if
  -- both the database and the ledger have answered. After a request that fails it never says so,
  -- but after a response that is not ok it still says so if it did before.
  pub banner_iff :
      (database ledger : Outcome)
      → let shown = fetch_health (healthy (health js now database ledger elapsed)) p in
        ((banner shown ≡ "All systems operational") ↔ ((database ≡ succeeds) × (ledger ≡ succeeds)))
        × (banner (fetch_health rejects shown) ≢ "All systems operational")
        × (banner (fetch_health not_ok shown) ≡ banner shown)
  unfolding banner fetch_health health
  banner_iff succeeds succeeds = ((λ e. (refl, refl), λ e. refl), degraded, refl)
  banner_iff succeeds (throws name) =
      ((λ e. absurd (degraded e), λ (e, f). absurd (ground (arith, f))), degraded, refl)
  banner_iff (throws name) ledger =
      ((λ e. absurd (degraded e), λ (e, f). absurd (ground (arith, e))), degraded, refl)

  -- An outage of the database is listed under the name of the exception, so that no entry of the
  -- list is the database's, unless the exception has its name.
  pub outage_unnamed :
      (reason : Option String)
      → reason ≢ some "Database (PostgreSQL)"
      → (x : Service) → Memᴰ x (health js now (throws reason) succeeds elapsed).services
      → x.name ≢ "Database (PostgreSQL)"
  unfolding health
  outage_unnamed reason other x m = elim (Memᴰ.cases_cons m) [
    | inl e ↦ named x "API Server" _ (ap name_of e) refl
    | inr m1 ↦ elim (Memᴰ.cases_cons m1) [
      | inl e ↦ λ same. unknown reason other (sym (ap name_of e) ∙ same)
      | inr m2 ↦ elim (Memᴰ.cases_cons m2) [
        | inl e ↦ named x "Stellar RPC (Testnet)" _ (ap name_of e) refl
        | inr m3 ↦ elim (Memᴰ.cases_cons m3) [
          | inl e ↦ named x "ZK Proof Generation" _ (ap name_of e) refl
          | inr m4 ↦ absurd (Memᴰ.not-nil m4)
        ]
      ]
    ]
  ]
