-- ===== src/Examples/Events.antt =====
-- An indexer that starts far behind a server whose latest ledger is 1000.
use stprivy.Common.{true, none, some, [], ◌∷◌, arith}
use stprivy.Indexer.{Event, events, Indexer, Moment}
use stprivy.Indexer.Ranges.{IsPast}

abbrev event : Event
event = record {
  contract_address = "CA";
  event_type = "contract";
  value = "";
  topic = [];
  ledger = 5;
  tx_hash = "t";
}

abbrev far : Moment
far = record {
  get_events = λ from to. events (event ∷ []) (some 1000);
  creates = λ e. true;
  sets = true;
}

abbrev idle : Indexer
idle = record { stored = []; checkpoint = none; running = true }

far-IsPast : IsPast 500 far
far-IsPast from to es latest e = (1000, ground (arith, e), omega arith)
