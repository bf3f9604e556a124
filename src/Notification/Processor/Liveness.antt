-- ===== src/Notification/Processor/Liveness.antt =====
-- What the timers bring about: every notification is settled in the end.
use v2_xrpl_tools.Prelude.{
  ℕ, zero, suc, ◌+◌, ◌≤◌, ◌≡◌, ◌⊎◌, inl, inr, refl, ap, ◌∙◌, Bool, true, false, not, Option, none,
  some, [], ◌∷◌, ◌++◌, String, str_eq, eq_iff, Bool-cases, Option-cases, arith,
}
use v2_xrpl_tools.Prelude.Map
use v2_xrpl_tools.Prelude.Map.{Map}
use v2_xrpl_tools.Prelude.Outcome.{Outcome, done, raised}
use v2_xrpl_tools.Notification.Data.{pending, Notification, NotificationResult}
use v2_xrpl_tools.Notification.Processor.{
  Services, Processor, is_pending, process_retry_notification, process_notification, conclude,
  schedule_retry, update_notification_status, attempt, failure, apply_result, retried,
}
use v2_xrpl_tools.Notification.Processor.Tracking.{update-timers}
use v2_xrpl_tools.Notification.Processor.Attempts.{
  Reach, fire, next, attempts-bounded, pending-IsScheduled, row-id,
}

-- whether a row, if it is there, is no longer pending
unfoldable pub is_settled : Option Notification → Bool
is_settled none = true
is_settled (some n) = not (is_pending n.status)

-- At most `k` firings of the timer of `id` settle it; the i-th from the end meets the services `answers i`
-- at the time `clock i`.
abbrev pub Settles : (ℕ → Services) → (ℕ → ℕ) → String → ℕ → Processor → Type 0
Settles answers clock id zero s = is_settled (Map.get id s.notifications) ≡ true
Settles answers clock id (suc k) s =
    (is_settled (Map.get id s.notifications) ≡ true)
    ⊎ ((due : ℕ) × (before : Map ℕ) × (after : Map ℕ) × ((s.timers ≡ before ++ (id, due) ∷ after)
          × Settles answers clock id k (
              process_retry_notification (answers k) (clock k) id
                (record s { timers = before ++ after }))))

split_timer :
    (id : String) (m : Map ℕ)
    → Map.occurs id m ≡ 1
    → (due : ℕ) × (before : Map ℕ) × (after : Map ℕ) × (m ≡ before ++ (id, due) ∷ after)
unfolding Map.occurs
split_timer id [] h = absurd (omega arith)
split_timer id ((j, due) ∷ m) h = elim (Bool-cases (str_eq j id)) [
  | inl e ↦ (due, [], m, ap (λ k. (k, due) ∷ m) ((eq_iff j id).0 e))
  | inr e ↦
      let (d, before, after, q) = split_timer id m (grind arith) in
      (d, (j, due) ∷ before, after, ap (λ (l : Map ℕ). (j, due) ∷ l) q)
]

schedule_retry-attempts :
    (now : ℕ) (id : String) (after : Option ℕ) (s : Processor)
    → (schedule_retry now id after s).attempts ≡ s.attempts
unfolding schedule_retry
schedule_retry-attempts now id after s = elim (Option-cases (Map.get id s.notifications)) [
  | inl e ↦ rw (schedule_retry, e) refl
  | inr (n, e) ↦ rw (schedule_retry, e) (update-timers id (retried now after) s).1
]

conclude-attempts :
    (now : ℕ) (n : Notification) (o : Outcome NotificationResult) (s : Processor)
    → (conclude now n o s).attempts ≡ s.attempts
unfolding conclude update_notification_status
conclude-attempts now n (done r) s =
    grind (arith, schedule_retry-attempts, update-timers n.id (apply_result now r) s)
conclude-attempts now n (raised e) s =
    grind (arith, schedule_retry-attempts, update-timers n.id (apply_result now (failure e)) s)

pub fire-found :
    (services : Services) (now : ℕ) (id : String) (n : Notification) (s : Processor)
    → Map.get id s.notifications ≡ some n
    → n.status ≡ pending
    → process_retry_notification services now id s ≡ process_notification services now n s
unfolding process_retry_notification
fire-found services now id n s g p = grind arith

pub process_notification-attempts :
    (services : Services) (now : ℕ) (n : Notification) (s : Processor)
    → (process_notification services now n s).attempts ≡ (n.id, now) ∷ s.attempts
unfolding process_notification
process_notification-attempts services now n s =
    ap (λ (l : Map ℕ). (n.id, now) ∷ l) (conclude-attempts now n (attempt services n s) s)

-- a timer that finds its row pending makes one attempt
pub fire-attempts :
    (services : Services) (now : ℕ) (id : String) (n : Notification) (s : Processor)
    → Map.get id s.notifications ≡ some n
    → n.id ≡ id
    → n.status ≡ pending
    → Map.occurs id (process_retry_notification services now id s).attempts
      ≡ suc (Map.occurs id s.attempts)
unfolding Map.occurs
fire-attempts services now id n s g i p =
    ap (λ (q : Processor). Map.occurs id q.attempts) (fire-found services now id n s g p)
    ∙ ap (Map.occurs id) (process_notification-attempts services now n s)
    ∙ grind (arith, eq_iff n.id id)

unsettled_row :
    (o : Option Notification)
    → is_settled o ≡ false
    → (n : Notification) × ((o ≡ some n) × (n.status ≡ pending))
unfolding is_settled
unsettled_row none h = grind arith
unsettled_row (some n) h = (n, (refl, grind arith))

settles :
    (answers : ℕ → Services) (clock : ℕ → ℕ) (id : String) (k : ℕ) (s : Processor)
    → Reach s
    → 4 ≤ k + Map.occurs id s.attempts
    → Settles answers clock id k s
settles answers clock id zero s r h = elim (Bool-cases (is_settled (Map.get id s.notifications))) [
  | inl e ↦ e
  | inr e ↦
      let (n, (g, p)) = unsettled_row (Map.get id s.notifications) e in
      let (due, before, after, q) = split_timer id s.timers (pending-IsScheduled s id n r g p).0 in
      let s' : Processor = record s { timers = before ++ after } in
      let fired = next s _ r (fire (answers 0) (clock 0) id due before after s q) in
      let more = fire-attempts (answers 0) (clock 0) id n s' g (row-id s id n r g) p in
      absurd (omega (arith, h, more, attempts-bounded _ fired id))
]
settles answers clock id (suc k) s r h =
    elim (Bool-cases (is_settled (Map.get id s.notifications))) [
      | inl e ↦ inl e
      | inr e ↦
          let (n, (g, p)) = unsettled_row (Map.get id s.notifications) e in
          let (one, _) = pending-IsScheduled s id n r g p in
          let (due, before, after, q) = split_timer id s.timers one in
          let s' : Processor = record s { timers = before ++ after } in
          inr (
            due,
            before,
            after,
            (
              q,
              settles answers clock id k (process_retry_notification (answers k) (clock k) id s')
                  (next s _ r (fire (answers k) (clock k) id due before after s q))
                  (omega (
                    arith,
                    h,
                    fire-attempts (answers k) (clock k) id n s' g (row-id s id n r g) p,
                  )),
            ),
          )
    ]

-- Whatever the services answer and whenever the timers fire, from every reachable state at most four
-- firings of the timer of a notification settle it, so that it is sent or failed if its row is there; and
-- as long as it is pending, such a timer is set.
pub reach-Settles :
    (answers : ℕ → Services) (clock : ℕ → ℕ) (id : String) (s : Processor)
    → Reach s
    → Settles answers clock id 4 s
reach-Settles answers clock id s r = settles answers clock id 4 s r (omega arith)
