-- ===== src/Transaction/Batch/Alerts.antt =====
-- The keys of the activities of a batch, and what the calls of `processAlertsAsync` find of them.
use v2_xrpl_tools.Prelude.{◌≡◌, Option, none, some, List, [], ◌++◌, map, All}
use v2_xrpl_tools.Prelude.Outcome.{done}
use v2_xrpl_tools.Transaction.Data.{NftTransactionData}
use v2_xrpl_tools.Transaction.Batch.{BatchRun, process_alerts_async}
use v2_xrpl_tools.Transaction.Batch.Chunks.{flat, written}
use v2_xrpl_tools.Transaction.Tables.{NftActivityEntity, Database}
use v2_xrpl_tools.Transaction.Batch.Lookup.{IsFrom, IsBelow}

-- every activity has a smaller key than the next one
abbrev pub IsFresh : Database → Type 0
IsFresh db = IsBelow db.next_id db.activities

abbrev IsFound : List NftActivityEntity → List (List NftActivityEntity) → Type 0
IsFound rows = All (λ call. process_alerts_async rows call ≡ call)

-- The calls of a run have new keys, and a run that succeeds leaves their rows.
abbrev IsSeen : Database → Option BatchRun → Type 0
IsSeen db none = Unit
IsSeen db (some r) =
    All (IsFrom db.next_id) r.alert_calls
    × ((db' : Database)
        → r.result ≡ done db'
        → (more : List NftActivityEntity) × ((db'.activities ≡ db.activities ++ more)
            × (IsFrom db.next_id more × (IsFound db'.activities r.alert_calls × IsFresh db'))))

-- What a run without failures leaves: the transactions are written after the older ones, the alerts
-- were called with their activities, and each call finds its rows after the commit and none before.
abbrev pub IsTold : List NftTransactionData → Database → Option BatchRun → Type 0
IsTold ts db none = ⊥
IsTold ts db (some r) =
    (db' : Database) × ((r.result ≡ done db')
      × ((written db' ≡ written db ++ ts)
          × ((map (λ a. a.transaction) (flat r.alert_calls) ≡ ts)
              × (All (λ call. process_alerts_async db'.activities call ≡ call) r.alert_calls
                  × (All (λ call. process_alerts_async db.activities call ≡ []) r.alert_calls
                      × IsFresh db')))))
