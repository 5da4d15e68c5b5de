-- ===== src/Examples/Tabs.antt =====
-- A tab of the web application whose session ends.
use stprivy.Common.{List, ◌≡◌, refl, String, false, Option, none, some, [], ◌∷◌, inl}
use stprivy.Domain.{Role}
use stprivy.Credential.Texts.{after_prefix}
use stprivy.Web.{
  Tab, DecodedJwt, Response, responds, undefined, blank, load, restore, request, view, redirect,
  minimal,
}
use stprivy.Web.VeriffFlow as Flow
use stprivy.Web.VeriffFlow.{VeriffStatus, initial, handle, clear_interval}
use stprivy.Web.VeriffFlow.Told.{Told, after-Told}
use stprivy.Web.Session.{
  logs_in, requests, loads, Coherent, nobody, after, after-Coherent, unauthorized_ends,
}

abbrev jwt : DecodedJwt
jwt = record { sub = "u1"; address = "GA"; role = Role.subject; exp = 9 }

abbrev decode : String → Option DecodedJwt
decode token = some jwt

abbrev tab : Tab
tab = record { stored = none; token = none; user = none; is_loading = false; leaving = none }

abbrev held : Tab
held = record tab { stored = some "t" }

abbrev expired : (path : String) → (authorization : Option String) → Response
expired path authorization = responds 401 "Unauthorized" none

after-Coherent_example :
    Coherent decode
      (after decode (requests expired "/did/create" ∷ loads 5 ∷ logs_in "t" (minimal jwt) ∷ []) tab)
after-Coherent_example =
    after-Coherent decode
      (requests expired "/did/create" ∷ loads 5 ∷ logs_in "t" (minimal jwt) ∷ []) tab
      (tt, (tt, ((jwt, refl, record { id = refl; address = refl; role = refl }), tt)))
      (nobody refl refl refl (inl refl))

unauthorized_ends_example :
    let (reply, t) = request expired "/did/create" held in
    let next = restore decode 5 (load t) in
    (reply ≡ undefined)
    × (t.leaving ≡ some "/connect")
    × (next.token ≡ none)
    × (next.user ≡ none)
    × (view next ≡ blank)
    × (redirect none next ≡ some "/connect")
unfolding after_prefix
unauthorized_ends_example =
    unauthorized_ends decode expired "/did/create" "Unauthorized" none 5 none held refl refl

abbrev visit : List Flow.Event
visit =
    Flow.answers "v1" (some "approved")
    ∷ Flow.answers "v1" none
    ∷ Flow.ticks 0
    ∷ Flow.ticks 0
    ∷ Flow.finishes "v1"
    ∷ Flow.created "v1"
    ∷ Flow.presses
    ∷ []

reached : (Flow.after visit initial).status ≡ VeriffStatus.approved
unfolding Flow.after handle clear_interval
reached = refl

after-Told_example : Told visit
after-Told_example = after-Told visit reached
