-- ===== src/Notification/Processor/Rows.antt =====
-- The rows that an attempt leaves, and the attempts that a batch adds.
use v2_xrpl_tools.Prelude.{
  ℕ, suc, ◌≡◌, inl, inr, refl, ap, ◌∙◌, true, false, not, ◌&&◌, Option, none, some, List, [], ◌∷◌,
  String, str_eq, eq_iff, ltb, Bool-cases, Option-cases, if_induction, arith, subst,
}
use v2_xrpl_tools.Prelude.Map
use v2_xrpl_tools.Prelude.Map.{Map, get-set}
use v2_xrpl_tools.Prelude.Outcome.{Outcome, done, raised}
use v2_xrpl_tools.Notification.Data.{Notification, NotificationResult}
use v2_xrpl_tools.Notification.Payload.{max_retries}
use v2_xrpl_tools.Notification.Processor.{
  Services, Processor, update, apply_result, update_notification_status, retried, schedule_retry,
  attempt, failure, conclude, process_notification, save_all, process_all,
}
use v2_xrpl_tools.Notification.Processor.Tracking.{process_notification-Same}
use v2_xrpl_tools.Notification.Processor.Batches.{AreNew, among, not_among}
use v2_xrpl_tools.Notification.Processor.Liveness.{process_notification-attempts}

abbrev pub IsThere : String → Processor → Type 0
IsThere id s = (n : Notification) × (Map.get id s.notifications ≡ some n)

update-IsThere :
    (j id : String) (f : Notification → Notification) (s : Processor)
    → IsThere j s
    → IsThere j (update id f s)
unfolding update
update-IsThere j id f s h = elim (Option-cases (Map.get id s.notifications)) [
  | inl e ↦ rw (update, e) h
  | inr (n, e) ↦
      let r : Map.get j (update id f s).notifications
          ≡ Map.get j (Map.set id (f n) s.notifications) =
        rw (update, e) refl in
      elim (Bool-cases (str_eq id j)) [
        | inl q ↦ (f n, r ∙ ground (arith, get-set id j (f n) s.notifications))
        | inr q ↦ (h.0, r ∙ ground (arith, get-set id j (f n) s.notifications) ∙ h.1)
      ]
]

schedule_retry-IsThere :
    (now : ℕ) (j id : String) (after : Option ℕ) (s : Processor)
    → IsThere j s
    → IsThere j (schedule_retry now id after s)
unfolding schedule_retry
schedule_retry-IsThere now j id after s h = elim (Option-cases (Map.get id s.notifications)) [
  | inl e ↦ rw (schedule_retry, e) h
  | inr (n, e) ↦ rw (schedule_retry, e) (update-IsThere j id (retried now after) s h)
]

conclude-IsThere :
    (now : ℕ) (n : Notification) (o : Outcome NotificationResult) (s : Processor) (j : String)
    → IsThere j s
    → IsThere j (conclude now n o s)
unfolding conclude update_notification_status
conclude-IsThere now n (raised e) s j h =
    let s' = update_notification_status now n.id (failure e) s in
    let there : IsThere j s' = update-IsThere j n.id (apply_result now (failure e)) s h in
    if_induction (IsThere j) (ltb n.retry_count max_retries) {x = schedule_retry now n.id none s'}
      {y = s'} (λ _. schedule_retry-IsThere now j n.id none s' there) (λ _. there)
conclude-IsThere now n (done r) s j h =
    let s' = update_notification_status now n.id r s in
    let there : IsThere j s' = update-IsThere j n.id (apply_result now r) s h in
    if_induction (IsThere j) (not r.success && ltb n.retry_count max_retries)
      {x = schedule_retry now n.id r.retry_after s'} {y = s'}
      (λ _. schedule_retry-IsThere now j n.id r.retry_after s' there) (λ _. there)

-- An attempt removes no row.
pub process_notification-IsThere :
    (services : Services) (now : ℕ) (n : Notification) (s : Processor) (j : String)
    → IsThere j s
    → IsThere j (process_notification services now n s)
unfolding process_notification
process_notification-IsThere services now n s j h =
    conclude-IsThere now n (attempt services n s) s j h

process_all-IsThere :
    (services : Services) (now : ℕ) (ns : List Notification) (s : Processor) (j : String)
    → IsThere j s
    → IsThere j (process_all services now ns s)
unfolding process_all
process_all-IsThere services now [] s j h = h
process_all-IsThere services now (n ∷ ns) s j h =
    process_all-IsThere services now ns (process_notification services now n s) j
      (process_notification-IsThere services now n s j h)

save_all-kept :
    (ns : List Notification) (s : Processor) (j : String) → IsThere j s → IsThere j (save_all ns s)
unfolding save_all
save_all-kept [] s j h = h
save_all-kept (n ∷ ns) s j h =
    save_all-kept ns (record s { notifications = Map.set n.id n s.notifications }) j
      (elim (Bool-cases (str_eq n.id j)) [
        | inl q ↦ (n, ground (arith, get-set n.id j n s.notifications))
        | inr q ↦ (h.0, ground (arith, get-set n.id j n s.notifications) ∙ h.1)
      ])

save_all-IsThere :
    (ns : List Notification) (s : Processor) (j : String)
    → among j ns ≡ true
    → IsThere j (save_all ns s)
unfolding save_all
save_all-IsThere [] s j h = absurd (grind arith)
save_all-IsThere (n ∷ ns) s j h =
    let s' : Processor = record s { notifications = Map.set n.id n s.notifications } in
    elim (Bool-cases (str_eq n.id j)) [
      | inl q ↦ save_all-kept ns s' j (n, ground (arith, get-set n.id j n s.notifications))
      | inr q ↦ save_all-IsThere ns s' j (ground arith)
    ]

-- the rows of a new activity, when they were attempted
pub process_saved-IsThere :
    (services : Services) (now : ℕ) (ns : List Notification) (s : Processor) (j : String)
    → among j ns ≡ true
    → IsThere j (process_all services now ns (save_all ns s))
process_saved-IsThere services now ns s j h =
    process_all-IsThere services now ns (save_all ns s) j (save_all-IsThere ns s j h)

untouched :
    (services : Services) (now : ℕ) (ns : List Notification) (s : Processor) (j : String)
    → among j ns ≡ false
    → Map.occurs j (process_all services now ns s).attempts ≡ Map.occurs j s.attempts
unfolding process_all
untouched services now [] s j h = refl
untouched services now (n ∷ ns) s j h =
    let (d, k) = not_among n ns j h in
    untouched services now ns (process_notification services now n s) j k
    ∙ (process_notification-Same services now n s j d).1.1

-- Each of the new rows is attempted once.
pub process_all-attempts :
    (services : Services) (now : ℕ) (ns : List Notification) (s r : Processor) (j : String)
    → AreNew ns r
    → among j ns ≡ true
    → Map.occurs j (process_all services now ns s).attempts ≡ suc (Map.occurs j s.attempts)
unfolding process_all Map.occurs
process_all-attempts services now [] s r j new h = absurd (grind arith)
process_all-attempts services now (n ∷ ns) s r j (_, (new, d)) h =
    let s' = process_notification services now n s in
    let made : Map.occurs j s'.attempts ≡ Map.occurs j ((n.id, now) ∷ s.attempts) =
      ap (Map.occurs j) (process_notification-attempts services now n s) in
    elim (Bool-cases (str_eq n.id j)) [
      | inl q ↦
          let alone : among j ns ≡ false =
            subst (λ i. among i ns ≡ false) ((eq_iff n.id j).0 q) d in
          untouched services now ns s' j alone ∙ made ∙ ground arith
      | inr q ↦
          let before : Map.occurs j s'.attempts ≡ Map.occurs j s.attempts = made ∙ ground arith in
          process_all-attempts services now ns s' r j new (ground arith) ∙ ap suc before
    ]
