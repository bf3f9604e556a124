-- ===== src/Transaction/Ingestion/Conservation.antt =====
-- Whether a transaction that was accepted is written, kept or dropped.
use mathlib.Core.List.{append_assoc}
use v2_xrpl_tools.Prelude.{
  ℕ, suc, ◌+◌, ◌≡◌, refl, sym, ap, ◌∙◌, Bool, true, false, List, [], ◌∷◌, ◌++◌, arith,
  if◌then◌else◌, length, drop, if_induction, ◌||◌, ltb, leb,
}
use v2_xrpl_tools.Transaction.Data.{NftTransactionData}
use v2_xrpl_tools.Transaction.Ingestion.{
  Flight, idle, writing, saving, Ingestion, Parsed, ignored, raised, parsed, Event, deliver, resume,
  tick, fail, finish, stop, commit, track_ledger, handle_transaction, process_batch, add_to_batch,
  resume_handler, commit_flight, fail_flight, finish_flight, stop_ingestion, step, run, start,
  max_batch_size, is_empty,
}
use v2_xrpl_tools.Transaction.Ingestion.Accounting.{
  IsFlight, IsFlight-append, IsConsistent, step-IsConsistent,
}

-- How many of the transactions have a property.
abbrev pub tally : (NftTransactionData → Bool) → List NftTransactionData → ℕ
tally p [] = 0
tally p (t ∷ ts) = if p t then suc (tally p ts) else tally p ts

tally-append :
    (p : NftTransactionData → Bool) (ts us : List NftTransactionData)
    → tally p (ts ++ us) ≡ tally p ts + tally p us
tally-append p [] us = omega arith
tally-append p (t ∷ ts) us = ground (arith, tally-append p ts us)

drop-append : (ts us : List NftTransactionData) → drop (length ts) (ts ++ us) ≡ us
drop-append [] us = refl
drop-append (t ∷ ts) us = drop-append ts us

-- What the current batch holds that is not in the database.
abbrev pub unwritten : Flight → List NftTransactionData → List NftTransactionData
unwritten idle current = current
unwritten (writing batch counts) current = current
unwritten (saving batch counts) current = drop (length batch) current

abbrev pub pending : Ingestion → List NftTransactionData
pending s = unwritten s.flight s.current_batch

abbrev first : List NftTransactionData → List NftTransactionData
first [] = []
first (t ∷ ts) = t ∷ []

-- What an event adds to the current batch.
abbrev pub accepted_at : Event → Ingestion → List NftTransactionData
accepted_at resume s = first s.waiting
accepted_at _ s = []

abbrev pub cleared : Flight → List NftTransactionData → List NftTransactionData
cleared (saving batch counts) current = drop (length batch) current
cleared _ current = []

-- What an event clears from the current batch that was not in the batch written.
abbrev pub dropped_at : Event → Ingestion → List NftTransactionData
dropped_at finish s = cleared s.flight s.current_batch
dropped_at _ s = []

abbrev pub accepted : List Event → Ingestion → List NftTransactionData
accepted [] s = []
accepted (e ∷ es) s = accepted_at e s ++ accepted es (step e s)

abbrev pub dropped : List Event → Ingestion → List NftTransactionData
dropped [] s = []
dropped (e ∷ es) s = dropped_at e s ++ dropped es (step e s)

module _ (p : NftTransactionData → Bool) where
  -- what is written or still to be written
  abbrev total : Ingestion → ℕ
  total s = tally p s.written + tally p (pending s)

  total-track_ledger : (l : ℕ) (s : Ingestion) → total (track_ledger l s) ≡ total s
  unfolding track_ledger
  total-track_ledger l s =
      if_induction (λ s'. total s' ≡ total s) (ltb s.last_processed_ledger l) (λ _. refl)
        (λ _. refl)

  total-handle_transaction :
      (l : ℕ) (q : Parsed) (s : Ingestion) → total (handle_transaction l q s) ≡ total s
  unfolding handle_transaction
  total-handle_transaction l ignored s = total-track_ledger l s
  total-handle_transaction l raised s = total-track_ledger l s
  total-handle_transaction l (parsed t) s =
      if_induction (λ s'. total s' ≡ total s) _ (λ _. total-track_ledger l s)
        (λ _. total-track_ledger l s)

  pending_begun :
      (s : Ingestion) → IsConsistent s → s.is_processing ≡ false → pending s ≡ s.current_batch
  pending_begun s h e = go s.flight h
    where
      go :
          (f : Flight)
          → IsFlight f s.is_processing s.current_batch
          → unwritten f s.current_batch ≡ s.current_batch
      go idle k = refl
      go (writing batch counts) k = refl
      go (saving batch counts) k = cc (k.0)

  total-process_batch :
      (c : Bool) (s : Ingestion) → IsConsistent s → total (process_batch c s) ≡ total s
  unfolding process_batch
  total-process_batch c s h =
      if_induction (λ s'. total s' ≡ total s) (is_empty s.current_batch || s.is_processing)
        (λ _. if_induction (λ s'. total s' ≡ total s) c (λ _. refl) (λ _. refl))
        (λ e. ap (λ x. tally p s.written + tally p x) (sym (pending_begun s h (ground arith))))

  unwritten-append :
      (f : Flight) (b : Bool) (current more : List NftTransactionData)
      → IsFlight f b current
      → tally p (unwritten f (current ++ more)) ≡ tally p (unwritten f current) + tally p more
  unwritten-append idle b current more h = tally-append p current more
  unwritten-append (writing batch counts) b current more h = tally-append p current more
  unwritten-append (saving batch counts) b current more (_, (rest, e)) = omega (
    arith,
    ap (λ x. tally p (drop (length batch) (x ++ more))) e,
    ap (λ x. tally p (drop (length batch) x)) e,
    ap (λ x. tally p (drop (length batch) x)) (append_assoc batch rest more),
    ap (tally p) (drop-append batch (rest ++ more)),
    ap (tally p) (drop-append batch rest),
    tally-append p rest more,
  )

  total-add_to_batch :
      (t : NftTransactionData) (s : Ingestion)
      → IsConsistent s
      → total (add_to_batch t s) ≡ total s + tally p (t ∷ [])
  unfolding add_to_batch
  total-add_to_batch t s h =
      let s' : Ingestion = record s { current_batch = s.current_batch ++ t ∷ [] } in
      let more : total s' ≡ total s + tally p (t ∷ []) =
        omega (arith, unwritten-append s.flight s.is_processing s.current_batch (t ∷ []) h) in
      if_induction (λ r. total r ≡ total s + tally p (t ∷ []))
        (leb max_batch_size (length s'.current_batch)) {x = process_batch true s'}
        {y = record s' { processed_count = suc s'.processed_count }}
        (λ _.
          total-process_batch true s'
            (IsFlight-append s.flight s.is_processing s.current_batch (t ∷ []) h)
          ∙ more)
        (λ _. more)

  total-resume_handler :
      (w : List NftTransactionData) (s : Ingestion)
      → IsConsistent s
      → total (resume_handler w s) ≡ total s + tally p (first w)
  unfolding resume_handler
  total-resume_handler [] s h = omega arith
  total-resume_handler (t ∷ ts) s h = total-add_to_batch t (record s { waiting = ts }) h

  held :
      (s : Ingestion) (f : Flight)
      → f ≡ s.flight
      → tally p s.written + tally p (unwritten f s.current_batch) ≡ total s
  held s f e = ap (λ g. tally p s.written + tally p (unwritten g s.current_batch)) e

  total-commit_flight :
      (now : ℕ) (f : Flight) (s : Ingestion)
      → f ≡ s.flight
      → IsFlight f s.is_processing s.current_batch
      → total (commit_flight now f s) ≡ total s
  unfolding commit_flight
  total-commit_flight now idle s e h = refl
  total-commit_flight now (saving batch counts) s e h = refl
  total-commit_flight now (writing batch counts) s e (_, (rest, c)) = omega (
    arith,
    tally-append p s.written batch,
    ap (λ x. tally p (drop (length batch) x)) c,
    ap (tally p) (drop-append batch rest),
    ap (tally p) c,
    tally-append p batch rest,
    held s (writing batch counts) e,
  )

  total-finish_flight :
      (f : Flight) (s : Ingestion)
      → f ≡ s.flight
      → IsFlight f s.is_processing s.current_batch
      → total (finish_flight f s) + tally p (cleared f s.current_batch) ≡ total s
  unfolding finish_flight
  total-finish_flight idle s e h = omega arith
  total-finish_flight (writing batch counts) s e h = omega arith
  total-finish_flight (saving batch counts) s e h = omega (arith, held s (saving batch counts) e)

  total-fail_flight :
      (f : Flight) (s : Ingestion) → f ≡ s.flight → total (fail_flight f s) ≡ total s
  unfolding fail_flight
  total-fail_flight idle s e = refl
  total-fail_flight (saving batch counts) s e = refl
  total-fail_flight (writing batch counts) s e = held s (writing batch counts) e

  total-step :
      (e : Event) (s : Ingestion)
      → IsConsistent s
      → total (step e s) + tally p (dropped_at e s) ≡ total s + tally p (accepted_at e s)
  unfolding step
  total-step (deliver l q) s h = omega (arith, total-handle_transaction l q s)
  total-step resume s h = omega (arith, total-resume_handler s.waiting s h)
  total-step tick s h = omega (arith, total-process_batch false s h)
  total-step (commit now) s h = omega (arith, total-commit_flight now s.flight s refl h)
  total-step fail s h = omega (arith, total-fail_flight s.flight s refl)
  total-step finish s h = omega (arith, total-finish_flight s.flight s refl h)
  total-step stop s h =
      unfold stop_ingestion in
      omega (arith, total-process_batch false (record s { subscribed = false; timer = false }) h)

  total-run :
      (es : List Event) (s : Ingestion)
      → IsConsistent s
      → total (run es s) + tally p (dropped es s) ≡ total s + tally p (accepted es s)
  unfolding run
  total-run [] s h = omega arith
  total-run (e ∷ es) s h = omega (
    arith,
    total-step e s h,
    total-run es (step e s) (step-IsConsistent e s h),
    tally-append p (dropped_at e s) (dropped es (step e s)),
    tally-append p (accepted_at e s) (accepted es (step e s)),
  )

  -- Every transaction that the service takes into its batch, counted by any test, is after any
  -- sequence of events either written to the database, or pending, or among the dropped ones: those
  -- that stood behind the written batch when a finished call cleared the current batch.
  pub run-conserved :
      (queue : Bool) (l : ℕ) (es : List Event)
      → tally p (accepted es (start queue l))
        ≡ tally p (run es (start queue l)).written
          + tally p (pending (run es (start queue l)))
          + tally p (dropped es (start queue l))
  unfolding start
  run-conserved queue l es = omega (arith, total-run es (start queue l) refl)
