-- ===== src/Indexer/Ranges.antt =====
-- Which ledgers the indexer asks for, and where it resumes.
use stprivy.Common.{ℕ, ◌≤◌, ◌<◌, ◌≡◌, ◌⊎◌, refl, true, Option, some, List, [], ◌∷◌, arith, inl, inr}
use stprivy.Common.Lists.{All}
use stprivy.Indexer.{
  Event, Answer, failed, events, Indexer, Moment, to_ledger, poll, start_indexing, stop_indexing,
  schedule_polls,
}

-- A range of ledgers leaves a ledger out.
abbrev pub Misses : (ledger : ℕ) → ℕ × ℕ → Type 0
Misses ledger (from, to) = (ledger < from) ⊎ (to < ledger)

-- During this moment the server, if it answers, has a latest ledger that is not before `ledger`.
abbrev pub IsPast : (ledger : ℕ) → Moment → Type 0
IsPast ledger m =
    (from to : ℕ) (es : List Event) (latest : Option ℕ)
    → m.get_events from to ≡ events es latest
    → (last : ℕ) × (latest ≡ some last) × (ledger ≤ last)

Answer-cases :
    (a : Answer) → (a ≡ failed) ⊎ ((es : List Event) × (latest : Option ℕ) × (a ≡ events es latest))
Answer-cases failed = inl refl
Answer-cases (events es latest) = inr (es, latest, refl)

poll-after :
    (m : Moment) (from ledger : ℕ) (s : Indexer)
    → IsPast ledger m
    → ledger < from
    → ledger < (poll m from s).0
unfolding poll
poll-after m from ledger s past h = elim (Answer-cases (m.get_events from (to_ledger from))) [
  | inl e ↦ ground (arith, e)
  | inr (es, latest, e) ↦
      let (last, same, l) = past from (to_ledger from) es latest e in ground (arith, e, same, l)
]

schedule_polls-Misses :
    (ms : List Moment) (from ledger : ℕ) (s : Indexer)
    → All (IsPast ledger) ms
    → ledger < from
    → All (Misses ledger) (schedule_polls ms from s).0
unfolding schedule_polls
schedule_polls-Misses [] from ledger s past h = tt
schedule_polls-Misses (m ∷ ms) from ledger s (past, rest) h = (
  inl h,
  schedule_polls-Misses ms (poll m from s).0 ledger (poll m from s).1 rest
      (poll-after m from ledger s past h),
)

-- A ledger behind the first batch is never asked for, in whatever many polls, when the server's
-- latest ledger is not before it from the first poll on and the first checkpoint is stored.
pub batch_skips :
    (m : Moment) (ms : List Moment) (from ledger last : ℕ) (es : List Event) (s : Indexer)
    → m.get_events from (to_ledger from) ≡ events es (some last)
    → m.sets ≡ true
    → to_ledger from < ledger
    → ledger ≤ last
    → All (IsPast ledger) ms
    → All (Misses ledger) (schedule_polls (m ∷ ms) from s).0
unfolding schedule_polls
batch_skips m ms from ledger last es s answer sets behind reached past = (
  inr behind,
  schedule_polls-Misses ms (poll m from s).0 ledger (poll m from s).1 past
      (unfold poll in ground (arith, answer, sets, reached)),
)

-- An indexer that is stopped after a poll that stored its checkpoint resumes, whatever ledger it
-- is started with, from the ledger with which the polls would have gone on.
pub restart_resumes :
    (m : Moment) (from other : ℕ) (es : List Event) (latest : Option ℕ) (s : Indexer)
    → m.get_events from (to_ledger from) ≡ events es latest
    → m.sets ≡ true
    → (start_indexing other (stop_indexing (poll m from s).1)).0 ≡ some (poll m from s).0
unfolding poll start_indexing stop_indexing
restart_resumes m from other es latest s answer sets = ground (arith, answer, sets)
