-- ===== src/Transaction/Ingestion/Tests.antt =====
-- The ingestion service on concrete sequences of events.
use v2_xrpl_tools.Prelude.{ℕ, ◌+◌, ◌≡◌, refl, true, false, some, none, List, [], ◌∷◌, ◌++◌, String}
use v2_xrpl_tools.Prelude.Map
use v2_xrpl_tools.Prelude.Decimal.{show}
use v2_xrpl_tools.Transaction.Data.{NftTransactionData, mint}
use v2_xrpl_tools.Transaction.Dedup.{is_duplicate, generate_cache_key, new_deduplication}
use v2_xrpl_tools.Transaction.Ingestion.{
  writing, Ingestion, Event, deliver, parsed, resume, tick, commit, fail, finish, step, run, start,
}
use v2_xrpl_tools.Transaction.Ingestion.Conservation.{
  tally, accepted, dropped, pending, run-conserved,
}

abbrev minted : String → ℕ → NftTransactionData
minted hash ledger = record {
  transaction_hash = hash;
  ledger_index = ledger;
  timestamp = 1000;
  activity_type = mint;
  nft_token_id = some "000B";
  from_address = some "rA";
  to_address = some "rA";
  price_drops = none;
  currency = none;
  issuer = none;
  metadata = none;
}

abbrev early : List Event
early = deliver 7 (parsed (minted "A" 7)) ∷ resume ∷ tick ∷ []

abbrev overlapping : List Event
overlapping = early ++ (deliver 8 (parsed (minted "B" 8)) ∷ resume ∷ commit 50 ∷ finish ∷ [])

abbrev quiet : List Event
quiet =
    early
    ++ (commit 50 ∷ finish ∷ deliver 8 (parsed (minted "B" 8)) ∷ resume ∷ tick ∷ fail ∷ tick ∷ [])

run-conserved_example :
    tally (λ t. true) (accepted overlapping (start false 3))
    ≡ tally (λ t. true) (run overlapping (start false 3)).written
      + tally (λ t. true) (pending (run overlapping (start false 3)))
      + tally (λ t. true) (dropped overlapping (start false 3))
run-conserved_example = run-conserved (λ t. true) false 3 overlapping

-- The second transaction came while the first was being written.
overlapping_drops : dropped overlapping (start false 3) ≡ minted "B" 8 ∷ []
unfolding start run step is_duplicate Map.get generate_cache_key show
overlapping_drops = refl

abbrev in_flight : Ingestion
in_flight = record {
  subscribed = true;
  timer = true;
  current_batch = minted "A" 7 ∷ [];
  is_processing = true;
  processed_count = 0;
  last_processed_ledger = 7;
  deduplication = new_deduplication;
  waiting = minted "B" 8 ∷ [];
  flight = writing (minted "A" 7 ∷ []) false;
  written = [];
  sync_status = none;
}
