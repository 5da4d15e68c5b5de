-- ===== src/Indexer.antt =====
-- apps/server/src/modules/soroban/soroban-event-indexer.service.ts: events of the chain are polled
-- in batches of ledgers and stored. The RPC server's answers, and whether a write succeeds, are
-- parameters. Redis keeps the checkpoint as a text of digits, here a number.
pub mod Ranges
use stprivy.Common.{ℕ, ◌+◌, ◌-◌, String, Bool, true, false, Option, none, some, List, [], ◌∷◌, ◌++◌}
use stprivy.Common.Tests.{if◌then◌else◌}

pub record Event : Type 0 where
  pub contract_address : String
  pub event_type : String
  pub value : String
  pub topic : List String
  pub ledger : ℕ
  pub tx_hash : String

-- `getEvents`: it throws, or gives the events and the latest ledger, if the answer has it.
pub data Answer : Type 0 where
  failed : Answer
  events : List Event → (latest : Option ℕ) → Answer

pub record Indexer : Type 0 where
  pub stored : List Event
  pub checkpoint : Option ℕ
  pub running : Bool

-- What the world does during one poll: the server's answer to a range of ledgers, whether the
-- database takes an event, and whether Redis takes the checkpoint.
pub record Moment : Type 0 where
  pub get_events : (start_ledger end_ledger : ℕ) → Answer
  pub creates : Event → Bool
  pub sets : Bool

-- `BATCH_SIZE`
abbrev pub batch_size : ℕ
batch_size = 200

-- `toLedger`
abbrev pub to_ledger : (from_ledger : ℕ) → ℕ
to_ledger from_ledger = (from_ledger + batch_size) - 1

-- `persistEvents`: an event that cannot be stored is logged and passed over
unfoldable pub persist_events : (Event → Bool) → List Event → List Event → List Event
persist_events creates [] rows = rows
persist_events creates (e ∷ rest) rows =
    persist_events creates rest (if creates e then rows ++ (e ∷ []) else rows)

abbrev pub last_ledger : Option ℕ → (to : ℕ) → ℕ
last_ledger none to = to
last_ledger (some latest) to = latest

-- the checkpoint and the next ledger, or the same ledger where Redis throws
abbrev pub save : (sets : Bool) → (from last : ℕ) → Indexer → ℕ × Indexer
save sets from last s = if sets then (last + 1, record s { checkpoint = some last }) else (from, s)

abbrev pub handle : Moment → (from : ℕ) → Answer → Indexer → ℕ × Indexer
handle m from failed s = (from, s)
handle m from (events es latest) s =
    save m.sets from (last_ledger latest (to_ledger from))
      (record s { stored = persist_events m.creates es s.stored })

-- `poll`: the next ledger to start from
unfoldable pub poll : Moment → (from_ledger : ℕ) → Indexer → ℕ × Indexer
poll m from s = handle m from (m.get_events from (to_ledger from)) s

-- `startIndexing`: the ledger that the first poll starts from, or nothing while the indexer runs
abbrev pub start_ledger : Option ℕ → (from_ledger : ℕ) → ℕ
start_ledger none from = from
start_ledger (some stored) from = stored + 1

unfoldable pub start_indexing : (from_ledger : ℕ) → Indexer → Option ℕ × Indexer
start_indexing from s =
    if s.running
    then (none, s)
    else (some (start_ledger s.checkpoint from), record s { running = true })

-- `stopIndexing`
unfoldable pub stop_indexing : Indexer → Indexer
stop_indexing s = record s { running = false }

-- The polls that `schedulePoll` makes one after the other, with the ranges that they ask for.
unfoldable pub schedule_polls : List Moment → (from : ℕ) → Indexer → List (ℕ × ℕ) × (ℕ × Indexer)
unfolding poll
schedule_polls [] from s = ([], (from, s))
schedule_polls (m ∷ rest) from s =
    let (next, s') = poll m from s in
    let (ranges, end) = schedule_polls rest next s' in ((from, to_ledger from) ∷ ranges, end)
