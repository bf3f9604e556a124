-- ===== src/Transaction/Ingestion.antt =====
-- src/features/transaction-processing/services/transaction-ingestion.service.ts. The service is a
-- state and a function that takes one event of the runtime at a time. A handler is cut at its
-- `await`s: what stands between two of them is one event, and other events may come in between.
-- `written` is the log of the transactions that the batch processor has committed to the database;
-- log lines and the debugging counter are left out.
pub mod Accounting
pub mod Conservation
pub mod Deliveries
pub mod Marks
mod Tests
use v2_xrpl_tools.Prelude.{
  ℕ, suc, ◌+◌, Bool, true, false, ◌||◌, Option, none, some, List, [], ◌∷◌, ◌++◌, ltb, leb, ◌==◌,
  if◌then◌else◌, length,
}
use v2_xrpl_tools.Transaction.Data.{NftTransactionData}
use v2_xrpl_tools.Transaction.Dedup.{
  DeduplicationKey, Deduplication, is_duplicate, mark_as_processed, new_deduplication,
}

-- MAX_BATCH_SIZE
abbrev pub max_batch_size : ℕ
max_batch_size = 100

-- The `processBatch` call at work: it waits for the batch processor, or, after the commit, for the
-- sync status. The flag tells that a transaction handler waits for the call, to count its transaction.
pub data Flight : Type 0 where
  idle : Flight
  writing saving : List NftTransactionData → Bool → Flight

pub record Ingestion : Type 0 where
  pub subscribed : Bool
  pub timer : Bool
  pub current_batch : List NftTransactionData
  pub is_processing : Bool
  pub processed_count : ℕ
  pub last_processed_ledger : ℕ
  pub deduplication : Deduplication
  pub waiting : List NftTransactionData
  pub flight : Flight
  pub written : List NftTransactionData
  pub sync_status : Option (ℕ × ℕ)

-- What the parser answers: no NFT transaction or `null`, an exception, or a transaction.
pub data Parsed : Type 0 where
  ignored raised : Parsed
  parsed : NftTransactionData → Parsed

pub data Event : Type 0 where
  deliver : ℕ → Parsed → Event
  resume tick fail finish stop : Event
  commit : ℕ → Event

abbrev pub key_of : NftTransactionData → DeduplicationKey
key_of t = record { transaction_hash = t.transaction_hash; ledger_index = t.ledger_index }

-- `if (ledger_index > this.lastProcessedLedger)`
unfoldable pub track_ledger : ℕ → Ingestion → Ingestion
track_ledger ledger s =
    if ltb s.last_processed_ledger ledger then record s { last_processed_ledger = ledger } else s

-- `handleTransaction` up to `await isDuplicate`, which looks into the cache at once.
unfoldable pub handle_transaction : ℕ → Parsed → Ingestion → Ingestion
unfolding track_ledger
handle_transaction ledger ignored s = track_ledger ledger s
handle_transaction ledger raised s = track_ledger ledger s
handle_transaction ledger (parsed t) s =
    let s' = track_ledger ledger s in
    if is_duplicate s'.deduplication (key_of t)
    then s'
    else record s' { waiting = s'.waiting ++ t ∷ [] }

abbrev pub is_empty : List NftTransactionData → Bool
is_empty [] = true
is_empty (t ∷ ts) = false

-- `processBatch` up to `await this.batchProcessor.processBatch(batch)`. A call that has nothing to
-- do, or finds another at work, returns at once, and a handler that made it counts its transaction.
unfoldable pub process_batch : Bool → Ingestion → Ingestion
process_batch counts s =
    if is_empty s.current_batch || s.is_processing
    then if counts then record s { processed_count = suc s.processed_count } else s
    else record s { is_processing = true; flight = writing s.current_batch counts }

-- A handler goes on after the duplicate check: it adds its transaction, and starts a full batch.
unfoldable pub add_to_batch : NftTransactionData → Ingestion → Ingestion
unfolding process_batch
add_to_batch t s =
    let s' = record s { current_batch = s.current_batch ++ t ∷ [] } in
    if leb max_batch_size (length s'.current_batch)
    then process_batch true s'
    else record s' { processed_count = suc s'.processed_count }

unfoldable pub resume_handler : List NftTransactionData → Ingestion → Ingestion
unfolding add_to_batch
resume_handler [] s = s
resume_handler (t ∷ ts) s = add_to_batch t (record s { waiting = ts })

unfoldable pub mark_all : ℕ → List NftTransactionData → Deduplication → Deduplication
mark_all now [] d = d
mark_all now (t ∷ ts) d = mark_all now ts (mark_as_processed now (key_of t) d)

-- The batch processor returns: the batch is in the database, and its keys are marked.
unfoldable pub commit_flight : ℕ → Flight → Ingestion → Ingestion
unfolding mark_all
commit_flight now idle s = s
commit_flight now (saving batch counts) s = s
commit_flight now (writing batch counts) s = record s {
  written = s.written ++ batch;
  deduplication = mark_all now batch s.deduplication;
  flight = saving batch counts;
  sync_status =
      if s.last_processed_ledger == 0
      then s.sync_status
      else some (s.last_processed_ledger, s.processed_count);
}

-- The batch processor throws: the batch is kept, and the exception ends in a log line.
unfoldable pub fail_flight : Flight → Ingestion → Ingestion
fail_flight idle s = s
fail_flight (saving batch counts) s = s
fail_flight (writing batch counts) s = record s { is_processing = false; flight = idle }

-- The sync status is saved, or its failure logged: the current batch is cleared.
unfoldable pub finish_flight : Flight → Ingestion → Ingestion
finish_flight idle s = s
finish_flight (writing batch counts) s = s
finish_flight (saving batch counts) s = record s {
  current_batch = [];
  is_processing = false;
  flight = idle;
  processed_count = if counts then suc s.processed_count else s.processed_count;
}

unfoldable pub stop_ingestion : Ingestion → Ingestion
unfolding process_batch
stop_ingestion s = process_batch false (record s { subscribed = false; timer = false })

unfoldable pub step : Event → Ingestion → Ingestion
unfolding handle_transaction resume_handler process_batch commit_flight fail_flight finish_flight
    stop_ingestion
step (deliver ledger p) s = handle_transaction ledger p s
step resume s = resume_handler s.waiting s
step tick s = process_batch false s
step (commit now) s = commit_flight now s.flight s
step fail s = fail_flight s.flight s
step finish s = finish_flight s.flight s
step stop s = stop_ingestion s

unfoldable pub run : List Event → Ingestion → Ingestion
run [] s = s
run (e ∷ es) s = run es (step e s)

-- the service after `onModuleInit`, with the ledger index that the database had
unfoldable pub start : Bool → ℕ → Ingestion
start use_queue_consumers ledger = record {
  subscribed = if use_queue_consumers then false else true;
  timer = true;
  current_batch = [];
  is_processing = false;
  processed_count = 0;
  last_processed_ledger = ledger;
  deduplication = new_deduplication;
  waiting = [];
  flight = idle;
  written = [];
  sync_status = none;
}

pub record IngestionStats : Type 0 where
  pub processed_count : ℕ
  pub current_batch_size : ℕ
  pub last_processed_ledger : ℕ
  pub is_processing : Bool

unfoldable pub get_ingestion_stats : Ingestion → IngestionStats
get_ingestion_stats s = record {
  processed_count = s.processed_count;
  current_batch_size = length s.current_batch;
  last_processed_ledger = s.last_processed_ledger;
  is_processing = s.is_processing;
}
