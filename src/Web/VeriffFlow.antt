-- ===== src/Web/VeriffFlow.antt =====
-- `VeriffFlow` of apps/web/src/app/kyc/form/page.tsx: a user's way through an identity check, with
-- the timers that ask for the session's status. The frame of Veriff, the timers' ticks and the
-- server's answers are the events; an answer comes at any time after its tick, also when the timer
-- has been stopped.
pub mod Told
use stprivy.Common.{
  ℕ, suc, String, Bool, true, false, ◌||◌, Option, none, some, List, [], ◌∷◌, ◌==◌,
}
use stprivy.Common.Tests.{nat_eq, if◌then◌else◌}

-- `VeriffStatus`
pub data VeriffStatus : Type 0 where
  idle loading started submitted approved declined error : VeriffStatus

-- The component's state, the running timers, each with the session that it asks for, and the
-- sessions of the calls that have no answer yet.
pub record Flow : Type 0 where
  pub status : VeriffStatus
  pub message : Option String
  pub session_id : Option String
  pub timers : List (ℕ × String)
  pub poll_ref : Option ℕ
  pub next_timer : ℕ
  pub asked : List String

abbrev pub initial : Flow
initial = record {
  status = idle;
  message = none;
  session_id = none;
  timers = [];
  poll_ref = none;
  next_timer = 0;
  asked = [];
}

pub data Event : Type 0 where
  -- the buttons, the end of the component, after which its status is not shown, and the answer to
  -- the call for a new session
  presses retries unmounts : Event
  created : (session_id : String) → Event
  fails : (message : String) → Event
  -- the frame of a session
  finishes : (session_id : String) → Event
  cancels : Event
  -- a timer, which calls the server, and an answer about a session, with its status, or none where
  -- the call failed
  ticks : (timer : ℕ) → Event
  answers : (session_id : String) → (status : Option String) → Event

unfoldable pub clear_interval : ℕ → List (ℕ × String) → List (ℕ × String)
clear_interval n [] = []
clear_interval n ((k, id) ∷ rest) =
    let later = clear_interval n rest in if nat_eq n k then later else (k, id) ∷ later

-- the session that a running timer asks for
abbrev pub session_of : ℕ → List (ℕ × String) → Option String
session_of n [] = none
session_of n ((k, id) ∷ rest) = if nat_eq n k then some id else session_of n rest

-- whether a call has no answer yet, and the calls without it
abbrev pub is_asked : String → List String → Bool
is_asked id [] = false
is_asked id (x ∷ xs) = x == id || is_asked id xs

abbrev pub without_one : String → List String → List String
without_one id [] = []
without_one id (x ∷ xs) = if x == id then xs else x ∷ without_one id xs

-- the call of a timer, if it is running
abbrev pub asks : Option String → Flow → Flow
asks none f = f
asks (some id) f = record f { asked = id ∷ f.asked }

abbrev pub stop_polling : Flow → Flow
stop_polling f = elim f.poll_ref [
  | none ↦ f
  | some n ↦ record f { timers = clear_interval n f.timers; poll_ref = none }
]

abbrev pub start_polling : (session_id : String) → Flow → Flow
start_polling id f = record f {
  timers = (f.next_timer, id) ∷ f.timers;
  poll_ref = some f.next_timer;
  next_timer = suc f.next_timer;
}

abbrev pub is_declined : String → Bool
is_declined status =
    status == "declined"
    || status == "abandoned"
    || status == "expired"
    || status == "resubmission_requested"

abbrev pub polled : Option String → Flow → Flow
polled none f = f
polled (some status) f =
    if status == "approved"
    then record (stop_polling f) { status = approved }
    else if is_declined status
    then record (stop_polling f) { status = declined }
    else f

unfoldable pub handle : Event → Flow → Flow
handle presses f = record f { status = loading; message = none }
handle retries f = record f { status = idle }
handle unmounts f = stop_polling f
handle (created id) f = record f { session_id = some id; status = started }
handle (fails text) f = record f { status = error; message = some text }
handle (finishes id) f = start_polling id (record f { status = submitted })
handle cancels f = record f { status = idle }
handle (ticks n) f = asks (session_of n f.timers) f
handle (answers id status) f =
    if is_asked id f.asked then polled status (record f { asked = without_one id f.asked }) else f

-- the component after a history, the latest event first
unfoldable pub after : List Event → Flow → Flow
after [] f = f
after (e ∷ earlier) f = handle e (after earlier f)
