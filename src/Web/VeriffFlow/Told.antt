-- ===== src/Web/VeriffFlow/Told.antt =====
-- What VeriffFlow's "Identity Verified" rests on.
use stprivy.Common.{
  ℕ, ◌≡◌, refl, sym, ◌∙◌, String, true, Option, none, some, List, [], ◌∷◌, ◌==◌, arith, inl, inr,
  ◌⊎◌, eq_iff, subst,
}
use stprivy.Common.Lists.{All}
use stprivy.Common.Tests.{nat_eq, Option-cases, Bool-cases}
use stprivy.Web.VeriffFlow.{
  approved, declined, Flow, initial, Event, presses, retries, unmounts, created, fails, finishes,
  cancels, ticks, answers, clear_interval, session_of, is_asked, without_one, asks, stop_polling,
  is_declined, polled, handle, after,
}

-- The frame of a session has finished.
pub data Finished (id : String) : List Event → Type 0 where
  now : {es : List Event} → Finished id (finishes id ∷ es)
  before : {e : Event} {es : List Event} → Finished id es → Finished id (e ∷ es)

-- The server has answered that a session is approved, whose frame had finished before.
pub data Told : List Event → Type 0 where
  here : {id : String} {es : List Event} → Finished id es → Told (answers id (some "approved") ∷ es)
  earlier : {e : Event} {es : List Event} → Told es → Told (e ∷ es)

module _ (es : List Event) where
  TimersKnown : List (ℕ × String) → Type 0
  TimersKnown timers = All (λ (t : ℕ × String). Finished t.1 es) timers

  AskedKnown : List String → Type 0
  AskedKnown asked = All (λ (id : String). Finished id es) asked

  -- The timers and the calls ask for sessions whose frames have finished.
  Known : Flow → Type 0
  Known f = TimersKnown f.timers × AskedKnown f.asked

  clear_interval-Known :
      (n : ℕ) (timers : List (ℕ × String))
      → TimersKnown timers
      → TimersKnown (clear_interval n timers)
  unfolding TimersKnown clear_interval
  clear_interval-Known n [] h = tt
  clear_interval-Known n ((k, id) ∷ rest) (h, hs) = elim (Bool-cases (nat_eq n k)) [
    | inl e ↦ rw e (clear_interval-Known n rest hs)
    | inr e ↦ rw e (h, clear_interval-Known n rest hs)
  ]

  session_of-Finished :
      (n : ℕ) (timers : List (ℕ × String)) (id : String)
      → TimersKnown timers
      → session_of n timers ≡ some id
      → Finished id es
  unfolding TimersKnown
  session_of-Finished n [] id h found = absurd (ground (arith, found))
  session_of-Finished n ((k, x) ∷ rest) id (h, hs) found = elim (Bool-cases (nat_eq n k)) [
    | inl e ↦ let same : x ≡ id = ground (arith, e, found) in subst (λ y. Finished y es) same h
    | inr e ↦ session_of-Finished n rest id hs (ground (arith, e, found))
  ]

  is_asked-Finished :
      (id : String) (asked : List String)
      → AskedKnown asked
      → is_asked id asked ≡ true
      → Finished id es
  unfolding AskedKnown
  is_asked-Finished id [] h hit = absurd (ground (arith, hit))
  is_asked-Finished id (x ∷ xs) (h, hs) hit = elim (Bool-cases (x == id)) [
    | inl e ↦ subst (λ y. Finished y es) ((eq_iff x id).0 e) h
    | inr e ↦ is_asked-Finished id xs hs (ground (arith, e, hit))
  ]

  without_one-Known :
      (id : String) (asked : List String) → AskedKnown asked → AskedKnown (without_one id asked)
  unfolding AskedKnown
  without_one-Known id [] h = tt
  without_one-Known id (x ∷ xs) (h, hs) = elim (Bool-cases (x == id)) [
    | inl e ↦ rw e hs
    | inr e ↦ rw e (h, without_one-Known id xs hs)
  ]

  stop_polling-Known : (f : Flow) → Known f → Known (stop_polling f)
  unfolding Known
  stop_polling-Known f (timers, asked) = elim (Option-cases f.poll_ref) [
    | inl e ↦ rw e (timers, asked)
    | inr (n, e) ↦ rw e (clear_interval-Known n f.timers timers, asked)
  ]

  asks-Known : (n : ℕ) (f : Flow) → Known f → Known (asks (session_of n f.timers) f)
  unfolding Known AskedKnown
  asks-Known n f (timers, asked) = elim (Option-cases (session_of n f.timers)) [
    | inl e ↦ rw e (timers, asked)
    | inr (id, e) ↦ rw e (timers, (session_of-Finished n f.timers id timers e, asked))
  ]

  polled-Known : (status : Option String) (f : Flow) → Known f → Known (polled status f)
  unfolding Known
  polled-Known none f h = h
  polled-Known (some status) f h = elim (Bool-cases (status == "approved")) [
    | inl e ↦ rw e (stop_polling-Known f h)
    | inr e ↦ elim (Bool-cases (is_declined status)) [
      | inl d ↦ rw (e, d) (stop_polling-Known f h)
      | inr d ↦ rw (e, d) h
    ]
  ]

  answers-Known :
      (id : String) (status : Option String) (f : Flow)
      → Known f
      → Known (handle (answers id status) f)
  unfolding handle Known
  answers-Known id status f (timers, asked) = elim (Bool-cases (is_asked id f.asked)) [
    | inl e ↦ rw e (
        polled-Known status (record f { asked = without_one id f.asked })
          (timers, without_one-Known id f.asked asked))
    | inr e ↦ rw e (timers, asked)
  ]

module _ (e : Event) (es : List Event) where
  later-timers : (timers : List (ℕ × String)) → TimersKnown es timers → TimersKnown (e ∷ es) timers
  unfolding TimersKnown
  later-timers [] h = tt
  later-timers (t ∷ rest) (h, hs) = (before h, later-timers rest hs)

  later-asked : (asked : List String) → AskedKnown es asked → AskedKnown (e ∷ es) asked
  unfolding AskedKnown
  later-asked [] h = tt
  later-asked (id ∷ rest) (h, hs) = (before h, later-asked rest hs)

  later : (f : Flow) → Known es f → Known (e ∷ es) f
  unfolding Known
  later f (timers, asked) = (later-timers f.timers timers, later-asked f.asked asked)

handle-Known : (e : Event) (es : List Event) (f : Flow) → Known es f → Known (e ∷ es) (handle e f)
unfolding handle Known TimersKnown
handle-Known presses es f h = later presses es f h
handle-Known retries es f h = later retries es f h
handle-Known unmounts es f h = later unmounts es (stop_polling f) (stop_polling-Known es f h)
handle-Known (created id) es f h = later (created id) es f h
handle-Known (fails text) es f h = later (fails text) es f h
handle-Known (finishes id) es f h =
    let (timers, asked) = later (finishes id) es f h in ((now, timers), asked)
handle-Known cancels es f h = later cancels es f h
handle-Known (ticks n) es f h =
    later (ticks n) es (asks (session_of n f.timers) f) (asks-Known es n f h)
handle-Known (answers id status) es f h =
    later (answers id status) es (handle (answers id status) f) (answers-Known es id status f h)

after-Known : (es : List Event) → Known es (after es initial)
unfolding after Known TimersKnown AskedKnown
after-Known [] = (tt, tt)
after-Known (e ∷ es) = handle-Known e es (after es initial) (after-Known es)

stop_polling-status : (f : Flow) → (stop_polling f).status ≡ f.status
stop_polling-status f = elim (Option-cases f.poll_ref) [
  | inl e ↦ rw e refl
  | inr (n, e) ↦ rw e refl
]

asks-status : (asked : Option String) (f : Flow) → (asks asked f).status ≡ f.status
asks-status none f = refl
asks-status (some id) f = refl

polled-status :
    (status : String) (f : Flow)
    → (polled (some status) f).status ≡ approved
    → (f.status ≡ approved) ⊎ (status ≡ "approved")
polled-status status f h = elim (Bool-cases (status == "approved")) [
  | inl e ↦ inr ((eq_iff status "approved").0 e)
  | inr e ↦ elim (Bool-cases (is_declined status)) [
    | inl d ↦
        let same : (polled (some status) f).status ≡ declined = rw (e, d) refl in
        absurd (ground (arith, same, h))
    | inr d ↦
        let same : (polled (some status) f).status ≡ f.status = rw (e, d) refl in inl (sym same ∙ h)
  ]
]

answered :
    (id : String) (status : Option String) (es : List Event) (f : Flow)
    → Finished id es
    → (polled status f).status ≡ approved
    → (f.status ≡ approved) ⊎ Told (answers id status ∷ es)
answered id none es f finished h = inl h
answered id (some status) es f finished h = elim (polled-status status f h) [
  | inl was ↦ inl was
  | inr told ↦ inr (rw told (here finished))
]

answers-approved :
    (id : String) (status : Option String) (es : List Event) (f : Flow)
    → Known es f
    → (handle (answers id status) f).status ≡ approved
    → (f.status ≡ approved) ⊎ Told (answers id status ∷ es)
unfolding handle Known
answers-approved id status es f (timers, asked) h = elim (Bool-cases (is_asked id f.asked)) [
  | inl e ↦
      let f' : Flow = record f { asked = without_one id f.asked } in
      let same : (handle (answers id status) f).status ≡ (polled status f').status = rw e refl in
      answered id status es f' (is_asked-Finished es id f.asked asked e) (sym same ∙ h)
  | inr e ↦
      let same : (handle (answers id status) f).status ≡ f.status = rw e refl in inl (sym same ∙ h)
]

handle-approved :
    (e : Event) (es : List Event) (f : Flow)
    → Known es f
    → (handle e f).status ≡ approved
    → (f.status ≡ approved) ⊎ Told (e ∷ es)
unfolding handle
handle-approved presses es f k h = absurd (ground (arith, h))
handle-approved retries es f k h = absurd (ground (arith, h))
handle-approved unmounts es f k h = inl (sym (stop_polling-status f) ∙ h)
handle-approved (created id) es f k h = absurd (ground (arith, h))
handle-approved (fails text) es f k h = absurd (ground (arith, h))
handle-approved (finishes id) es f k h = absurd (ground (arith, h))
handle-approved cancels es f k h = absurd (ground (arith, h))
handle-approved (ticks n) es f k h = inl (sym (asks-status (session_of n f.timers) f) ∙ h)
handle-approved (answers id status) es f k h = answers-approved id status es f k h

-- After any events, in any order, the page says that the identity is verified only if the server
-- has answered that a session is approved whose frame had finished before.
pub after-Told : (es : List Event) → (after es initial).status ≡ approved → Told es
unfolding after
after-Told [] h = absurd (ground (arith, h))
after-Told (e ∷ es) h = elim (handle-approved e es (after es initial) (after-Known es) h) [
  | inl before_it ↦ earlier (after-Told es before_it)
  | inr told ↦ told
]
