-- ===== src/Xrpl/Tests.antt =====
-- The ledger connection on concrete ledgers, answers and nodes.
use v2_xrpl_tools.Prelude.{
  ℕ, ◌==◌, length, ◌+◌, ◌≡◌, refl, true, false, some, [], ◌∷◌, String, arith, ltb, leb, ◌&&◌,
  if◌then◌else◌,
}
use v2_xrpl_tools.Prelude.Map
use v2_xrpl_tools.Prelude.Map.{Map}
use v2_xrpl_tools.Prelude.Outcome.{Outcome, done, raised}
use v2_xrpl_tools.Xrpl.Ledgers.{Ledgers, handle_ledgers, gapped, seen, handle_ledgers-accounted}
use v2_xrpl_tools.Xrpl.Retry.{RetryOptions, retry}
use v2_xrpl_tools.Xrpl.Nodes.{
  XrplNode, Manager, Limits, Network, open_healthy_node, get_healthy_connection,
}
use v2_xrpl_tools.Prelude.Json.{Json, text, array, object, end, element, closed, field}
use v2_xrpl_tools.Queue.Consumer.{returns}
use v2_xrpl_tools.Xrpl.Relay.{Relay}
use v2_xrpl_tools.Xrpl.Backfill.{BackfillRun, backfill_ledger_range}
use v2_xrpl_tools.Xrpl.Backfill.Recovery.{IsRecovered, backfill_ledger_range-IsRecovered}

abbrev at_ten : Ledgers
at_ten = record { last_seen_ledger = 10; ledger_gaps = []; published = 10 ∷ [] }

handle_ledgers-accounted_example :
    let r = handle_ledgers (11 ∷ 14 ∷ []) at_ten in
    gapped 12 r.ledger_gaps + seen 12 (11 ∷ 14 ∷ [])
    ≡ gapped 12 at_ten.ledger_gaps
      + (if ltb at_ten.last_seen_ledger 12 && leb 12 r.last_seen_ledger then 1 else 0)
handle_ledgers-accounted_example =
    handle_ledgers-accounted 12 (11 ∷ 14 ∷ []) at_ten (omega arith) (omega arith, (omega arith, tt))

abbrev options : RetryOptions
options = record { retries = 2; min_timeout = 1000; max_timeout = 1500; factor = 2 }

abbrev failing : ℕ → Outcome ℕ
failing n = raised "timeout"

failing_raised : (retry options failing).0 ≡ raised "timeout"
unfolding retry
failing_raised = refl

abbrev node : String → ℕ → XrplNode
node url priority = record {
  url = url;
  priority = priority;
  is_healthy = true;
  consecutive_failures = 0;
}

abbrev manager : Manager
manager = record {
  nodes = node "b" 2 ∷ node "a" 1 ∷ node "c" 0 ∷ [];
  connections = ("a", true) ∷ ("b", true) ∷ [];
  reconnects = [];
}

abbrev limits : Limits
limits = record { reconnect_interval = 5000; max_consecutive_failures = 3 }

abbrev silent : Network
silent = record { connects = λ url. false; pings = λ url. false }

best_open : open_healthy_node manager ≡ some (node "a" 1)
unfolding open_healthy_node Map.get
best_open = refl

abbrev two_missing : Ledgers
two_missing = record {
  last_seen_ledger = 13;
  ledger_gaps = record { start_ledger = 11; end_ledger = 12; size = 2 } ∷ [];
  published = 10 ∷ 13 ∷ [];
}

-- one transaction in each ledger; the node fails once on ledger 12
abbrev answers : String → ℕ → ℕ → Outcome Json
answers url i a =
    if i == 12 && a == 0
    then raised "timeout"
    else done (
        object (
          field "ledger"
            (object (
              field "transactions" (array (element (object (field "hash" (text "T") closed)) end))
                closed))
            closed))

abbrev idle : Relay
idle = record { subscribers = "ingestion" ∷ []; queued = []; told = [] }

abbrev backfilled : BackfillRun
backfilled = backfill_ledger_range silent (λ m. returns) answers 11 12 manager two_missing idle

gap_removed : backfilled.ledgers.ledger_gaps ≡ []
unfolding backfill_ledger_range Map.get
gap_removed = refl

both_told : length backfilled.relay.told ≡ 2
unfolding backfill_ledger_range Map.get
both_told = refl

backfill_ledger_range-IsRecovered_example :
    IsRecovered
      (λ m. returns)
      answers
      11
      12
      two_missing
      idle
      (get_healthy_connection silent manager).0
      backfilled
backfill_ledger_range-IsRecovered_example =
    backfill_ledger_range-IsRecovered (λ m. returns) answers 11 12 two_missing idle silent manager
