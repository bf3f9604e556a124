-- ===== src/Transaction/Ingestion/Deliveries.antt =====
-- Deliveries that meet a batch in flight, repeated deliveries, and batches that fail.
use v2_xrpl_tools.Prelude.{
  ℕ, suc, ◌≡◌, refl, ap, ◌∙◌, Bool, true, false, List, [], ◌∷◌, ◌++◌, arith, length, drop, leb, ltb,
  ◌||◌, if_induction,
}
use v2_xrpl_tools.Transaction.Data.{NftTransactionData}
use v2_xrpl_tools.Transaction.Dedup.{is_duplicate}
use v2_xrpl_tools.Transaction.Ingestion.{
  Flight, idle, writing, saving, Ingestion, Parsed, ignored, raised, parsed, Event, deliver, resume,
  tick, fail, finish, stop, commit, key_of, track_ledger, handle_transaction, process_batch,
  add_to_batch, resume_handler, commit_flight, fail_flight, finish_flight, step, run, start,
  max_batch_size, is_empty,
}
use v2_xrpl_tools.Transaction.Ingestion.Conservation.{dropped_at, dropped, cleared}

-- A transaction that is taken into the batch while another batch is being written is lost: when the
-- write succeeds, the batch in flight is in the database, the current batch is empty, and the
-- transaction is in neither and waits nowhere.
pub late_transaction_lost :
    (s : Ingestion) (t : NftTransactionData) (ts batch : List NftTransactionData) (c : Bool)
    (now : ℕ)
    → s.flight ≡ writing batch c
    → s.is_processing ≡ true
    → s.waiting ≡ t ∷ ts
    → let s' = run (resume ∷ commit now ∷ finish ∷ []) s in
      (s'.current_batch ≡ []) × (s'.written ≡ s.written ++ batch) × (s'.waiting ≡ ts)
unfolding run step resume_handler add_to_batch process_batch commit_flight finish_flight
late_transaction_lost s t ts batch c now f b w = ground arith

-- A failed write loses nothing: the current batch stays as it was, with what came meanwhile, and
-- the next tick submits all of it again.
pub failed_batch_retried :
    (s : Ingestion) (t : NftTransactionData) (batch rest : List NftTransactionData) (c : Bool)
    → s.flight ≡ writing batch c
    → s.current_batch ≡ t ∷ rest
    → let s' = run (fail ∷ tick ∷ []) s in
      (s'.flight ≡ writing (t ∷ rest) false)
      × (s'.current_batch ≡ t ∷ rest)
      × (s'.written ≡ s.written)
      × (s'.is_processing ≡ true)
unfolding run step fail_flight process_batch
failed_batch_retried s t batch rest c f e = ground arith

deliver_new :
    (s : Ingestion) (l : ℕ) (t : NftTransactionData)
    → is_duplicate s.deduplication (key_of t) ≡ false
    → ((handle_transaction l (parsed t) s).waiting ≡ s.waiting ++ t ∷ [])
      × ((handle_transaction l (parsed t) s).deduplication ≡ s.deduplication)
unfolding handle_transaction track_ledger
deliver_new s l t h = ground arith

-- The duplicate check sees only committed batches: a transaction whose key is not in the cache is
-- accepted at each delivery before its batch is committed.
pub repeated_delivery_accepted :
    (s : Ingestion) (l m : ℕ) (t : NftTransactionData)
    → is_duplicate s.deduplication (key_of t) ≡ false
    → (run (deliver l (parsed t) ∷ deliver m (parsed t) ∷ []) s).waiting
      ≡ (s.waiting ++ t ∷ []) ++ t ∷ []
unfolding run step
repeated_delivery_accepted s l m t h =
    let (waits, same) = deliver_new s l t h in
    let s' : Ingestion = handle_transaction l (parsed t) s in
    let (waits', _) = deliver_new s' m t (ap (λ d. is_duplicate d (key_of t)) same ∙ h) in
    waits' ∙ ap (λ x. x ++ t ∷ []) waits

-- No transaction is taken into the batch while another batch is in flight.
abbrev ResumedIdle : Event → Flight → Type 0
ResumedIdle resume (writing batch c) = ⊥
ResumedIdle resume (saving batch c) = ⊥
ResumedIdle _ f = Unit

abbrev pub IsQuiet : List Event → Ingestion → Type 0
IsQuiet [] s = Unit
IsQuiet (e ∷ es) s = ResumedIdle e s.flight × IsQuiet es (step e s)

-- The batch in flight is the whole current batch.
abbrev IsWhole : Flight → List NftTransactionData → Type 0
IsWhole idle current = Unit {0}
IsWhole (writing batch c) current = current ≡ batch
IsWhole (saving batch c) current = current ≡ batch

abbrev Whole : Ingestion → Type 0
Whole s = IsWhole s.flight s.current_batch

process_batch-Whole : (c : Bool) (s : Ingestion) → Whole s → Whole (process_batch c s)
unfolding process_batch
process_batch-Whole c s h =
    if_induction Whole (is_empty s.current_batch || s.is_processing)
      (λ _. if_induction Whole c (λ _. h) (λ _. h)) (λ _. refl)

track_ledger-Whole : (l : ℕ) (s : Ingestion) → Whole s → Whole (track_ledger l s)
unfolding track_ledger
track_ledger-Whole l s h = if_induction Whole (ltb s.last_processed_ledger l) (λ _. h) (λ _. h)

handle_transaction-Whole :
    (l : ℕ) (q : Parsed) (s : Ingestion) → Whole s → Whole (handle_transaction l q s)
unfolding handle_transaction
handle_transaction-Whole l ignored s h = track_ledger-Whole l s h
handle_transaction-Whole l raised s h = track_ledger-Whole l s h
handle_transaction-Whole l (parsed t) s h =
    if_induction Whole (is_duplicate (track_ledger l s).deduplication (key_of t))
      {x = track_ledger l s}
      {y = record (track_ledger l s) { waiting = (track_ledger l s).waiting ++ t ∷ [] }}
      (λ _. track_ledger-Whole l s h) (λ _. track_ledger-Whole l s h)

add_to_batch-Whole :
    (t : NftTransactionData) (s : Ingestion) → s.flight ≡ idle → Whole (add_to_batch t s)
unfolding add_to_batch
add_to_batch-Whole t s e =
    let s' : Ingestion = record s { current_batch = s.current_batch ++ t ∷ [] } in
    let h : Whole s' = rw e tt in
    if_induction Whole (leb max_batch_size (length s'.current_batch)) {x = process_batch true s'}
      {y = record s' { processed_count = suc s'.processed_count }}
      (λ _. process_batch-Whole true s' h) (λ _. h)

resume_handler-Whole :
    (w : List NftTransactionData) (s : Ingestion)
    → ResumedIdle resume s.flight
    → Whole s
    → Whole (resume_handler w s)
unfolding resume_handler
resume_handler-Whole [] s q h = h
resume_handler-Whole (t ∷ ts) s q h =
    add_to_batch-Whole t (record s { waiting = ts }) (is_idle s.flight q)
  where
    is_idle : (f : Flight) → ResumedIdle resume f → f ≡ idle
    is_idle idle q = refl
    is_idle (writing batch c) q = elim q [ ]
    is_idle (saving batch c) q = elim q [ ]

commit_flight-Whole :
    (now : ℕ) (f : Flight) (s : Ingestion)
    → Whole s
    → IsWhole f s.current_batch
    → Whole (commit_flight now f s)
unfolding commit_flight
commit_flight-Whole now idle s h k = h
commit_flight-Whole now (writing batch c) s h k = k
commit_flight-Whole now (saving batch c) s h k = h

fail_flight-Whole : (f : Flight) (s : Ingestion) → Whole s → Whole (fail_flight f s)
unfolding fail_flight
fail_flight-Whole idle s h = h
fail_flight-Whole (writing batch c) s h = tt
fail_flight-Whole (saving batch c) s h = h

finish_flight-Whole : (f : Flight) (s : Ingestion) → Whole s → Whole (finish_flight f s)
unfolding finish_flight
finish_flight-Whole idle s h = h
finish_flight-Whole (writing batch c) s h = h
finish_flight-Whole (saving batch c) s h = tt

step-Whole : (e : Event) (s : Ingestion) → ResumedIdle e s.flight → Whole s → Whole (step e s)
unfolding step
step-Whole (deliver l q) s _ h = handle_transaction-Whole l q s h
step-Whole resume s q h = resume_handler-Whole s.waiting s q h
step-Whole tick s _ h = process_batch-Whole false s h
step-Whole (commit now) s _ h = commit_flight-Whole now s.flight s h h
step-Whole fail s _ h = fail_flight-Whole s.flight s h
step-Whole finish s _ h = finish_flight-Whole s.flight s h
step-Whole stop s _ h = process_batch-Whole false (record s { subscribed = false; timer = false }) h

drop_all : (ts : List NftTransactionData) → drop (length ts) ts ≡ []
drop_all [] = refl
drop_all (t ∷ ts) = drop_all ts

cleared-Whole :
    (f : Flight) (current : List NftTransactionData) → IsWhole f current → cleared f current ≡ []
cleared-Whole idle current h = refl
cleared-Whole (writing batch c) current h = refl
cleared-Whole (saving batch c) current h = ap (drop (length batch)) h ∙ drop_all batch

dropped_at-Whole : (e : Event) (s : Ingestion) → Whole s → dropped_at e s ≡ []
dropped_at-Whole (deliver l q) s h = refl
dropped_at-Whole finish s h = cleared-Whole s.flight s.current_batch h
dropped_at-Whole _ s h = refl

dropped-Whole : (es : List Event) (s : Ingestion) → IsQuiet es s → Whole s → dropped es s ≡ []
dropped-Whole [] s q h = refl
dropped-Whole (e ∷ es) s (p, q) h =
    ap (λ x. x ++ dropped es (step e s)) (dropped_at-Whole e s h)
    ∙ dropped-Whole es (step e s) q (step-Whole e s p h)

-- In a run of the service in which no transaction is taken into the batch while another batch is in
-- flight, no transaction is dropped.
pub quiet-dropped :
    (queue : Bool) (l : ℕ) (es : List Event)
    → IsQuiet es (start queue l)
    → dropped es (start queue l) ≡ []
unfolding start
quiet-dropped queue l es q = dropped-Whole es (start queue l) q tt
