-- ===== src/Notification/Processor/Attempts.antt =====
-- The life of the notifications: every sequence of activities, timers and cleanups.
use v2_xrpl_tools.Prelude.{
  ℕ, suc, ◌≤◌, ◌≡◌, inl, inr, refl, Option, some, List, [], ◌∷◌, ◌++◌, String, str_eq, eq_iff,
  Bool-cases, arith, subst, filter,
}
use v2_xrpl_tools.Prelude.Map
use v2_xrpl_tools.Prelude.Map.{Map, get-set, get-delete, occurs-append}
use v2_xrpl_tools.Notification.Data.{pending, failed, Notification, NotificationChannel}
use v2_xrpl_tools.Notification.Processor.{
  Services, Processor, process_retry_notification, create_notification_records, save_all,
  process_activity_notifications, cleanup_old_notifications,
}
use v2_xrpl_tools.Notification.Processor.Tracking.{IsPhase, IsTracked, Tracked, Tracked-Same}
use v2_xrpl_tools.Notification.Processor.Timers.{
  timers_at, fire_row, fire_other, gone, cleanup-Tracked,
}
use v2_xrpl_tools.Notification.Processor.Batches.{
  AreNew, process_all-Tracked, save_all-Same, create-AreUntried, save_all-AllReady,
}

pub data Step : Processor → Processor → Type 0 where
  notify :
      (services : Services) (new_id : ℕ → String) (now : ℕ) (user alert activity : String)
      (channels : List NotificationChannel) (s : Processor)
      → AreNew
          (create_notification_records new_id 0 user alert activity now
            (filter (λ c. c.enabled) channels))
          s
      → Step s (process_activity_notifications services new_id now user alert activity channels s)
  fire :
      (services : Services) (now : ℕ) (id : String) (due : ℕ) (before after : Map ℕ) (s : Processor)
      → s.timers ≡ before ++ (id, due) ∷ after
      → Step s (process_retry_notification services now id (record s { timers = before ++ after }))
  cleanup : (now days : ℕ) (s : Processor) → Step s (cleanup_old_notifications now days s).1

abbrev pub empty : Processor
empty = record { notifications = []; timers = []; attempts = [] }

pub data Reach : Processor → Type 0 where
  start : Reach empty
  next : (s r : Processor) → Reach s → Step s r → Reach r

Step-Tracked :
    (s r : Processor) → Step s r → ((j : String) → Tracked j s) → (j : String) → Tracked j r
unfolding process_activity_notifications
Step-Tracked _ _ (notify services new_id now user alert activity channels s new) h j =
    let ns =
      create_notification_records new_id 0 user alert activity now
        (filter (λ c. c.enabled) channels) in
    process_all-Tracked services now ns (save_all ns s) j
      (save_all-AllReady ns s
        (create-AreUntried new_id 0 user alert activity now (filter (λ c. c.enabled) channels)) new)
      (λ a. Tracked-Same j (save_all ns s) s (save_all-Same ns s j a) (h j))
Step-Tracked _ _ (cleanup now days s) h j = cleanup-Tracked now days s j (h j)
Step-Tracked _ _ (fire services now id due before after s e) h j =
    let s' : Processor = record s { timers = before ++ after } in
    let held : IsTracked id (Map.get id s.notifications) (suc (Map.occurs id s'.timers))
        (Map.occurs id s.attempts) =
      subst (λ t. IsTracked id (Map.get id s.notifications) t (Map.occurs id s.attempts))
        (ground (arith, timers_at id due before after s id e, eq_iff id id)) (h id) in
    elim (Bool-cases (str_eq id j)) [
      | inl q ↦
          subst (λ i. Tracked i (process_retry_notification services now id s')) ((eq_iff id j).0 q)
            (fire_row services now id s' (Map.get id s.notifications) refl held)
      | inr q ↦
          Tracked-Same j (process_retry_notification services now id s') s'
            (fire_other services now id s' (Map.get id s.notifications) j refl held
              (λ p. ground (arith, eq_iff id j)))
            (subst (λ t. IsTracked j (Map.get j s.notifications) t (Map.occurs j s.attempts))
              (ground (arith, timers_at id due before after s j e)) (h j))
    ]

pub Reach-Tracked : (s : Processor) → Reach s → (j : String) → Tracked j s
unfolding Map.get Map.occurs
Reach-Tracked _ start j = (omega arith, omega arith)
Reach-Tracked _ (next q r h e) j = Step-Tracked q r e (Reach-Tracked q h) j

-- In every reachable state each notification was attempted at most four times: once, and three
-- retries, whatever the channels answer, and also after its row was cleaned up.
pub attempts-bounded : (s : Processor) → Reach s → (id : String) → Map.occurs id s.attempts ≤ 4
attempts-bounded s h id = bound (Map.get id s.notifications) (Reach-Tracked s h id)
  where
    bound :
        (row : Option Notification)
        → IsTracked id row (Map.occurs id s.timers) (Map.occurs id s.attempts)
        → Map.occurs id s.attempts ≤ 4
    bound row k = ground (arith, gone id row (Map.occurs id s.timers) (Map.occurs id s.attempts) k)

-- a row stands under its own key
pub row-id :
    (s : Processor) (id : String) (n : Notification)
    → Reach s
    → Map.get id s.notifications ≡ some n
    → n.id ≡ id
row-id s id n h g =
    (subst (λ o. IsTracked id o (Map.occurs id s.timers) (Map.occurs id s.attempts)) g
      (Reach-Tracked s h id)).0

-- In every reachable state a notification that is pending has exactly one timer set, and was
-- attempted as often as its retry count says: it is neither forgotten nor tried twice at a time.
pub pending-IsScheduled :
    (s : Processor) (id : String) (n : Notification)
    → Reach s
    → Map.get id s.notifications ≡ some n
    → n.status ≡ pending
    → (Map.occurs id s.timers ≡ 1) × (Map.occurs id s.attempts ≡ n.retry_count)
pending-IsScheduled s id n h g e =
    let (_, (_, p)) =
      subst (λ o. IsTracked id o (Map.occurs id s.timers) (Map.occurs id s.attempts)) g
        (Reach-Tracked s h id) in
    subst (λ st. IsPhase st n.retry_count (Map.occurs id s.timers) (Map.occurs id s.attempts)) e p

-- In every reachable state a notification that is marked as failed was attempted four times, and no
-- timer is set for it: a notification is given up only after three retries.
pub failed-IsFinal :
    (s : Processor) (id : String) (n : Notification)
    → Reach s
    → Map.get id s.notifications ≡ some n
    → n.status ≡ failed
    → (Map.occurs id s.timers ≡ 0) × (Map.occurs id s.attempts ≡ 4)
failed-IsFinal s id n h g e =
    let (_, (_, p)) =
      subst (λ o. IsTracked id o (Map.occurs id s.timers) (Map.occurs id s.attempts)) g
        (Reach-Tracked s h id) in
    let (t, (_, a)) =
      subst (λ st. IsPhase st n.retry_count (Map.occurs id s.timers) (Map.occurs id s.attempts)) e
        p in
    (t, a)
