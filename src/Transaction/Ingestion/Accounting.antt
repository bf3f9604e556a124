-- ===== src/Transaction/Ingestion/Accounting.antt =====
-- Where each transaction goes that the ingestion service has accepted.
use mathlib.Core.List.{append_assoc, append-nil}
use v2_xrpl_tools.Prelude.{
  ℕ, suc, ◌≡◌, refl, sym, ap, ◌∙◌, Bool, true, false, List, [], ◌∷◌, ◌++◌, length, if_induction,
  ◌||◌, leb,
}
use v2_xrpl_tools.Transaction.Data.{NftTransactionData}
use v2_xrpl_tools.Transaction.Ingestion.{
  Flight, idle, writing, saving, Ingestion, Parsed, ignored, raised, parsed, Event, deliver, resume,
  tick, fail, finish, stop, commit, track_ledger, handle_transaction, process_batch, add_to_batch,
  resume_handler, commit_flight, fail_flight, finish_flight, step, run, start, max_batch_size,
  is_empty,
}

-- The current batch begins with the batch in flight.
abbrev pub Begins : List NftTransactionData → List NftTransactionData → Type 0
Begins batch current = (rest : List NftTransactionData) × (current ≡ batch ++ rest)

-- The batch in flight is the front of the current batch, and the flag tells that there is one.
abbrev pub IsFlight : Flight → Bool → List NftTransactionData → Type 0
IsFlight idle busy current = busy ≡ false
IsFlight (writing batch counts) busy current = (busy ≡ true) × Begins batch current
IsFlight (saving batch counts) busy current = (busy ≡ true) × Begins batch current

abbrev pub IsConsistent : Ingestion → Type 0
IsConsistent s = IsFlight s.flight s.is_processing s.current_batch

Begins-append :
    (batch current more : List NftTransactionData)
    → Begins batch current
    → Begins batch (current ++ more)
Begins-append batch current more (rest, e) =
    (rest ++ more, ap (λ x. x ++ more) e ∙ append_assoc batch rest more)

pub IsFlight-append :
    (f : Flight) (busy : Bool) (current more : List NftTransactionData)
    → IsFlight f busy current
    → IsFlight f busy (current ++ more)
IsFlight-append idle busy current more h = h
IsFlight-append (writing batch counts) busy current more (b, h) =
    (b, Begins-append batch current more h)
IsFlight-append (saving batch counts) busy current more (b, h) =
    (b, Begins-append batch current more h)

track_ledger-IsConsistent :
    (l : ℕ) (s : Ingestion) → IsConsistent s → IsConsistent (track_ledger l s)
unfolding track_ledger
track_ledger-IsConsistent l s h = if_induction IsConsistent _ (λ _. h) (λ _. h)

handle_transaction-IsConsistent :
    (l : ℕ) (p : Parsed) (s : Ingestion) → IsConsistent s → IsConsistent (handle_transaction l p s)
unfolding handle_transaction
handle_transaction-IsConsistent l ignored s h = track_ledger-IsConsistent l s h
handle_transaction-IsConsistent l raised s h = track_ledger-IsConsistent l s h
handle_transaction-IsConsistent l (parsed t) s h =
    if_induction IsConsistent _ (λ _. track_ledger-IsConsistent l s h)
      (λ _. track_ledger-IsConsistent l s h)

process_batch-IsConsistent :
    (c : Bool) (s : Ingestion) → IsConsistent s → IsConsistent (process_batch c s)
unfolding process_batch
process_batch-IsConsistent c s h =
    if_induction IsConsistent (is_empty s.current_batch || s.is_processing)
      (λ _. if_induction IsConsistent c (λ _. h) (λ _. h)) (λ _. (refl, ([], sym (append-nil _))))

add_to_batch-IsConsistent :
    (t : NftTransactionData) (s : Ingestion) → IsConsistent s → IsConsistent (add_to_batch t s)
unfolding add_to_batch
add_to_batch-IsConsistent t s h =
    let h' = IsFlight-append s.flight s.is_processing s.current_batch (t ∷ []) h in
    let s' : Ingestion = record s { current_batch = s.current_batch ++ t ∷ [] } in
    if_induction IsConsistent (leb max_batch_size (length s'.current_batch))
      {x = process_batch true s'} {y = record s' { processed_count = suc s'.processed_count }}
      (λ _. process_batch-IsConsistent true s' h') (λ _. h')

resume_handler-IsConsistent :
    (w : List NftTransactionData) (s : Ingestion)
    → IsConsistent s
    → IsConsistent (resume_handler w s)
unfolding resume_handler
resume_handler-IsConsistent [] s h = h
resume_handler-IsConsistent (t ∷ ts) s h = add_to_batch-IsConsistent t (record s { waiting = ts }) h

commit_flight-IsConsistent :
    (now : ℕ) (f : Flight) (s : Ingestion)
    → IsConsistent s
    → IsFlight f s.is_processing s.current_batch
    → IsConsistent (commit_flight now f s)
unfolding commit_flight
commit_flight-IsConsistent now idle s h k = h
commit_flight-IsConsistent now (writing batch counts) s h k = k
commit_flight-IsConsistent now (saving batch counts) s h k = h

fail_flight-IsConsistent :
    (f : Flight) (s : Ingestion) → IsConsistent s → IsConsistent (fail_flight f s)
unfolding fail_flight
fail_flight-IsConsistent idle s h = h
fail_flight-IsConsistent (writing batch counts) s h = refl
fail_flight-IsConsistent (saving batch counts) s h = h

finish_flight-IsConsistent :
    (f : Flight) (s : Ingestion) → IsConsistent s → IsConsistent (finish_flight f s)
unfolding finish_flight
finish_flight-IsConsistent idle s h = h
finish_flight-IsConsistent (writing batch counts) s h = h
finish_flight-IsConsistent (saving batch counts) s h = refl

pub step-IsConsistent : (e : Event) (s : Ingestion) → IsConsistent s → IsConsistent (step e s)
unfolding step
step-IsConsistent (deliver l p) s h = handle_transaction-IsConsistent l p s h
step-IsConsistent resume s h = resume_handler-IsConsistent s.waiting s h
step-IsConsistent tick s h = process_batch-IsConsistent false s h
step-IsConsistent (commit now) s h = commit_flight-IsConsistent now s.flight s h h
step-IsConsistent fail s h = fail_flight-IsConsistent s.flight s h
step-IsConsistent finish s h = finish_flight-IsConsistent s.flight s h
step-IsConsistent stop s h =
    process_batch-IsConsistent false (record s { subscribed = false; timer = false }) h

run-IsConsistent : (es : List Event) (s : Ingestion) → IsConsistent s → IsConsistent (run es s)
unfolding run
run-IsConsistent [] s h = h
run-IsConsistent (e ∷ es) s h = run-IsConsistent es (step e s) (step-IsConsistent e s h)

-- Through any sequence of events, the service is processing exactly while a batch is in flight, and
-- the batch in flight is the front of the current batch.
pub start-run-IsConsistent :
    (queue : Bool) (l : ℕ) (es : List Event) → IsConsistent (run es (start queue l))
unfolding start
start-run-IsConsistent queue l es = run-IsConsistent es _ refl
