-- ===== src/Xrpl/Backfill/Recovery.antt =====
-- What a backfill has passed on when it ends, and when a gap is removed.
use native.Mathlib.Nat.{eq-or-lt_of_le}
use v2_xrpl_tools.Prelude.{
  ℕ, zero, suc, ◌+◌, ◌-◌, ◌≤◌, ◌<◌, ◌≡◌, refl, sym, ap, ◌∙◌, subst, inl, inr, Bool, true, false,
  Option, none, some, ◌++◌, String, length, arith, if◌then◌else◌,
}
use v2_xrpl_tools.Prelude.Outcome.{Outcome, done, raised}
use v2_xrpl_tools.Prelude.Json.{Json}
use v2_xrpl_tools.Queue.Consumer.{Answer}
use v2_xrpl_tools.Xrpl.Retry.{retry, retry-IsFirst}
use v2_xrpl_tools.Xrpl.Nodes.{XrplNode, Manager, Network, get_healthy_connection}
use v2_xrpl_tools.Xrpl.Ledgers.{Ledgers, finish_backfill}
use v2_xrpl_tools.Xrpl.Relay.{Relay}
use v2_xrpl_tools.Xrpl.Backfill.{
  retry_options, fetched, relay_fetched, backfill_from, BackfillRun, backfill_ledger_range,
}
use v2_xrpl_tools.Xrpl.Backfill.Messages.{
  messages_of, messages_from, IsPassed, IsPassed-none, IsPassed-next, relay_fetched-IsPassed,
}

module _ (publisher : Json → Answer) (fetch : ℕ → ℕ → Outcome Json) where
  -- the loop behind the answer for its first ledger
  abbrev next : ℕ → ℕ → Relay → Outcome Json → Bool × Relay
  next n i s (raised e) = (false, s)
  next n i s (done result) =
      let r = relay_fetched publisher result s in
      let later = backfill_from publisher fetch n (suc i) r.1 in if r.0 then later else r

  backfill_from-next :
      (n i : ℕ) (s : Relay)
      → backfill_from publisher fetch (suc n) i s ≡ next n i s (fetched fetch i)
  unfolding backfill_from
  backfill_from-next n i s = by_answer (fetched fetch i)
    where
      by_answer :
          (x : Outcome Json)
          → (elim x as (λ y. Bool × Relay) [
            | raised e ↦ (false, s)
            | done result ↦
                let r = relay_fetched publisher result s in
                let later = backfill_from publisher fetch n (suc i) r.1 in if r.0 then later else r
          ])
            ≡ next n i s x
      by_answer (raised e) = refl
      by_answer (done result) = refl

  backfill_from-IsPassed :
      (n i : ℕ) (s : Relay)
      → IsPassed publisher (messages_from fetch n i) s (backfill_from publisher fetch n i s)
  backfill_from-IsPassed zero i s = unfold backfill_from in refl
  backfill_from-IsPassed (suc n) i s =
      subst (IsPassed publisher (messages_from fetch (suc n) i) s) (sym (backfill_from-next n i s))
        (by_answer (fetched fetch i) (backfill_from-IsPassed n (suc i)))
    where
      by_answer :
          (x : Outcome Json)
          → ((t : Relay)
              → IsPassed publisher
                  (messages_from fetch n (suc i))
                  t
                  (backfill_from publisher fetch n (suc i) t))
          → IsPassed publisher (messages_of x ++ messages_from fetch n (suc i)) s (next n i s x)
      by_answer (raised e) later = IsPassed-none publisher (messages_from fetch n (suc i)) s
      by_answer (done result) later =
          let r = relay_fetched publisher result s in
          IsPassed-next publisher (messages_of (done result)) (messages_from fetch n (suc i)) s r
            (backfill_from publisher fetch n (suc i) r.1)
            (relay_fetched-IsPassed publisher result s) (later r.1)

  -- The node answered for a ledger, at one of six attempts.
  abbrev pub IsAnswered : ℕ → Type 0
  IsAnswered i = (a : ℕ) × ((a ≤ 5) × ((result : Json) × (fetch i a ≡ done result)))

  fetched-IsAnswered : (i : ℕ) (result : Json) → fetched fetch i ≡ done result → IsAnswered i
  unfolding retry fetched
  fetched-IsAnswered i result h =
      let ((last, before), (bound, waits)) = retry-IsFirst retry_options (fetch i) in
      (
        length (retry retry_options (fetch i)).1,
        (bound, (result, ap (fetch i) (omega arith) ∙ last ∙ h)),
      )

  next-done :
      (n i : ℕ) (s : Relay) (x : Outcome Json)
      → (next n i s x).0 ≡ true
      → (result : Json) × ((x ≡ done result)
          × ((backfill_from publisher fetch n (suc i) (relay_fetched publisher result s).1).0
              ≡ true))
  next-done n i s (raised e) h = absurd (ground arith)
  next-done n i s (done result) h = (
    result,
    (
      refl,
      by_relay (relay_fetched publisher result s)
          (backfill_from publisher fetch n (suc i) (relay_fetched publisher result s).1) h,
    ),
  )
    where
      by_relay : (r later : Bool × Relay) → (if r.0 then later else r).0 ≡ true → later.0 ≡ true
      by_relay (true, t) later k = k
      by_relay (false, t) later k = absurd (ground arith)

  backfill_from-IsAnswered :
      (n i : ℕ) (s : Relay)
      → (backfill_from publisher fetch n i s).0 ≡ true
      → (j : ℕ) → i ≤ j
      → j < i + n
      → IsAnswered j
  backfill_from-IsAnswered zero i s h j k l = absurd (omega arith)
  backfill_from-IsAnswered (suc n) i s h j k l =
      let (result, (e, later)) =
        next-done n i s (fetched fetch i) (ap (λ r. r.0) (sym (backfill_from-next n i s)) ∙ h) in
      elim (eq-or-lt_of_le k) [
        | inl p ↦ subst IsAnswered p (fetched-IsAnswered i result e)
        | inr p ↦
            backfill_from-IsAnswered n (suc i) (relay_fetched publisher result s).1 later j
              (omega arith) (omega arith)
      ]

module _ (publisher : Json → Answer) (answers : String → ℕ → ℕ → Outcome Json) (start last : ℕ)
    (l : Ledgers) (r : Relay) where
  -- what becomes of the gaps: a range is forgotten only where each of its ledgers was answered
  abbrev pub HasGaps : XrplNode → Bool → Ledgers → Type 0
  HasGaps n true k =
      (k ≡ finish_backfill start last l)
      × ((j : ℕ) → start ≤ j → j ≤ last → IsAnswered publisher (answers n.url) j)
  HasGaps n false k = k ≡ l

  abbrev pub IsRecovered : Option XrplNode → BackfillRun → Type 0
  IsRecovered none run = (run.succeeded ≡ false) × ((run.ledgers ≡ l) × (run.relay ≡ r))
  IsRecovered (some n) run =
      HasGaps n run.succeeded run.ledgers
      × IsPassed publisher (messages_from (answers n.url) (suc last - start) start) r
          (run.succeeded, run.relay)

  -- A backfill that returns has had an answer for each ledger of its range, at one of six attempts
  -- each, has passed on all of their transactions in order, and removes just the gaps of its range.
  -- One that throws keeps all gaps, and has passed on a first part of these transactions; none,
  -- where no node is found.
  pub backfill_ledger_range-IsRecovered :
      (net : Network) (m : Manager)
      → IsRecovered
          (get_healthy_connection net m).0
          (backfill_ledger_range net publisher answers start last m l r)
  unfolding backfill_ledger_range
  backfill_ledger_range-IsRecovered net m = by_node (get_healthy_connection net m)
    where
      by_run :
          (n : XrplNode) (m' : Manager) (b : Bool × Relay)
          → (b.0 ≡ true → (j : ℕ) → start ≤ j → j ≤ last → IsAnswered publisher (answers n.url) j)
          → IsPassed publisher (messages_from (answers n.url) (suc last - start) start) r b
          → IsRecovered (some n) (record {
            succeeded = b.0;
            manager = m';
            ledgers = if b.0 then finish_backfill start last l else l;
            relay = b.1;
          })
      by_run n m' (true, t) h k = ((refl, h refl), k)
      by_run n m' (false, t) h k = (refl, k)

      by_node :
          (f : Option XrplNode × Manager)
          → IsRecovered f.0 (elim f.0 as (λ y. BackfillRun) [
            | none ↦ record { succeeded = false; manager = f.1; ledgers = l; relay = r }
            | some n ↦
                let b = backfill_from publisher (answers n.url) (suc last - start) start r in
                record {
                  succeeded = b.0;
                  manager = f.1;
                  ledgers = if b.0 then finish_backfill start last l else l;
                  relay = b.1;
                }
          ])
      by_node (none, m') = (refl, (refl, refl))
      by_node (some n, m') =
          by_run n m' (backfill_from publisher (answers n.url) (suc last - start) start r)
            (λ h j p q.
              backfill_from-IsAnswered publisher (answers n.url) (suc last - start) start r h j p
                (omega arith))
            (backfill_from-IsPassed publisher (answers n.url) (suc last - start) start r)
