-- ===== src/Notification/Processor/Lifecycle.antt =====
-- The life of one notification as its user sees it, without timers, times and channels: a small state
-- machine that the processor refines.
use v2_xrpl_tools.Prelude.{
  ℕ, suc, ◌-◌, ◌*◌, ◌≤◌, ◌<◌, ◌≡◌, inl, inr, refl, sym, ap, ◌∙◌, true, false, Option, none, some,
  List, [], ◌∷◌, ◌++◌, String, str_eq, eq_iff, Bool-cases, arith, subst, filter,
}
use v2_xrpl_tools.Prelude.Map
use v2_xrpl_tools.Prelude.Map.{Map}
use v2_xrpl_tools.Notification.Data.{Status, pending, sent, failed, Notification}
use v2_xrpl_tools.Notification.Processor.{
  Services, Processor, process_retry_notification, process_notification,
  create_notification_records, save_all, process_all, process_activity_notifications,
  cleanup_old_notifications,
}
use v2_xrpl_tools.Notification.Processor.Tracking.{
  IsPhase, IsTracked, Tracked, process_notification-Same,
}
use v2_xrpl_tools.Notification.Processor.Timers.{get-delete_older, fire_other, timers_at}
use v2_xrpl_tools.Notification.Processor.Batches.{AreNew, among, not_among, save_all-Same}
use v2_xrpl_tools.Notification.Processor.Attempts.{
  Step, Reach, notify, fire, cleanup, next, Reach-Tracked,
}
use v2_xrpl_tools.Notification.Processor.Liveness.{fire-attempts, fire-found}
use v2_xrpl_tools.Notification.Processor.Rows.{
  IsThere, process_notification-IsThere, process_saved-IsThere, process_all-attempts,
}

-- A notification is not there, or waits for an attempt after some retries, or was sent after some, or
-- was given up.
pub data Life : Type 0 where
  absent : Life
  waiting : ℕ → Life
  delivered : ℕ → Life
  given_up : Life

-- what brings a change about: a new activity, a timer, or a cleanup
pub data Cause : Type 0 where
  notified fired cleaned : Cause

-- The one change that a cause can make to a notification, if it makes any. A new notification is attempted at
-- once, so it is sent then, or waits for its first retry.
pub data Change : Cause → Life → Life → Type 0 where
  unchanged : (c : Cause) (l : Life) → Change c l l
  deliver_new : Change notified absent (delivered 0)
  postpone_new : Change notified absent (waiting 1)
  try_again : (k : ℕ) → k < 3 → Change fired (waiting k) (waiting (suc k))
  deliver : (k : ℕ) → k ≤ 3 → Change fired (waiting k) (delivered k)
  give_up : Change fired (waiting 3) given_up
  remove : (l : Life) → Change cleaned l absent

abbrev phase : Status → ℕ → Life
phase pending k = waiting k
phase sent k = delivered k
phase failed k = given_up

abbrev life_of : Option Notification → Life
life_of none = absent
life_of (some n) = phase n.status n.retry_count

-- what the abstract machine sees of a state
abbrev pub life : String → Processor → Life
life id s = life_of (Map.get id s.notifications)

-- one attempt at a notification that is new
first_attempt :
    (id : String) (n : Notification) (t : ℕ)
    → IsTracked id (some n) t 1
    → Change notified absent (life_of (some n))
first_attempt id n t (_, (b, p)) = by_status n.status n.retry_count p
  where
    by_status : (st : Status) (m : ℕ) → IsPhase st m t 1 → Change notified absent (phase st m)
    by_status pending m (_, e) = subst (λ i. Change notified absent (waiting i)) e postpone_new
    by_status sent m (_, e) =
        subst (λ i. Change notified absent (delivered i)) (omega arith) deliver_new
    by_status failed m (_, (_, e)) = absurd (omega arith)

-- one attempt at a notification that waits
attempted :
    (id : String) (k : ℕ) (n : Notification) (t : ℕ)
    → IsTracked id (some n) t (suc k)
    → Change fired (waiting k) (life_of (some n))
attempted id k n t (_, (b, p)) = by_status n.status n.retry_count b p
  where
    by_status :
        (st : Status) (m : ℕ)
        → m ≤ 3
        → IsPhase st m t (suc k)
        → Change fired (waiting k) (phase st m)
    by_status pending m b (_, e) =
        subst (λ i. Change fired (waiting k) (waiting i)) e (try_again k (omega arith))
    by_status sent m b (_, e) =
        subst (λ i. Change fired (waiting k) (delivered i)) (omega arith) (deliver k (omega arith))
    by_status failed m b (_, (_, e)) =
        subst (λ i. Change fired (waiting i) given_up) (omega arith) give_up

process_all-row :
    (services : Services) (now : ℕ) (ns : List Notification) (s : Processor) (j : String)
    → among j ns ≡ false
    → Map.get j (process_all services now ns s).notifications ≡ Map.get j s.notifications
unfolding process_all
process_all-row services now [] s j h = refl
process_all-row services now (n ∷ ns) s j h =
    let (d, k) = not_among n ns j h in
    process_all-row services now ns (process_notification services now n s) j k
    ∙ (process_notification-Same services now n s j d).0

AreNew-row :
    (ns : List Notification) (s : Processor) (j : String)
    → AreNew ns s
    → among j ns ≡ true
    → Map.get j s.notifications ≡ none
AreNew-row [] s j h a = grind arith
AreNew-row (n ∷ ns) s j ((g, _), (h, _)) a = grind (arith, AreNew-row ns s j h, eq_iff n.id j)

life-eq :
    (c : Cause) (j : String) (s r : Processor)
    → Map.get j r.notifications ≡ Map.get j s.notifications
    → Change c (life j s) (life j r)
life-eq c j s r e = subst (λ o. Change c (life j s) (life_of o)) (sym e) (unchanged c (life j s))

AreNew-attempts :
    (ns : List Notification) (s : Processor) (j : String)
    → AreNew ns s
    → among j ns ≡ true
    → Map.occurs j s.attempts ≡ 0
AreNew-attempts [] s j h a = grind arith
AreNew-attempts (n ∷ ns) s j ((_, (_, z)), (h, _)) a = elim (Bool-cases (str_eq n.id j)) [
  | inl e ↦ subst (λ i. Map.occurs i s.attempts ≡ 0) ((eq_iff n.id j).0 e) z
  | inr e ↦ AreNew-attempts ns s j h (ground arith)
]

save_all-attempts : (ns : List Notification) (s : Processor) → (save_all ns s).attempts ≡ s.attempts
unfolding save_all
save_all-attempts [] s = refl
save_all-attempts (n ∷ ns) s = save_all-attempts ns _

notify-Change :
    (services : Services) (now : ℕ) (ns : List Notification) (s : Processor) (j : String)
    → AreNew ns s
    → Tracked j (process_all services now ns (save_all ns s))
    → Change notified (life j s) (life j (process_all services now ns (save_all ns s)))
notify-Change services now ns s j new h = elim (Bool-cases (among j ns)) [
  | inl e ↦
      let r = process_all services now ns (save_all ns s) in
      let (n, there) = process_saved-IsThere services now ns s j e in
      let once : Map.occurs j r.attempts ≡ 1 =
        process_all-attempts services now ns (save_all ns s) s j new e
        ∙ ap suc (ap (Map.occurs j) (save_all-attempts ns s) ∙ AreNew-attempts ns s j new e) in
      let tracked : IsTracked j (some n) (Map.occurs j r.timers) 1 =
        subst (λ k. IsTracked j (some n) (Map.occurs j r.timers) k) once
          (subst (λ o. IsTracked j o (Map.occurs j r.timers) (Map.occurs j r.attempts)) there h) in
      subst (λ o. Change notified (life_of o) (life j r)) (sym (AreNew-row ns s j new e))
        (subst (λ o. Change notified absent (life_of o)) (sym there)
          (first_attempt j n (Map.occurs j r.timers) tracked))
  | inr e ↦
      life-eq notified j s (process_all services now ns (save_all ns s))
        (process_all-row services now ns (save_all ns s) j e ∙ (save_all-Same ns s j e).0)
]

missing_row :
    (services : Services) (now : ℕ) (id : String) (s : Processor)
    → Map.get id s.notifications ≡ none
    → process_retry_notification services now id s ≡ s
unfolding process_retry_notification
missing_row services now id s e = rw (process_retry_notification, e) refl

fire-IsThere :
    (services : Services) (now : ℕ) (id : String) (n : Notification) (s : Processor)
    → Map.get id s.notifications ≡ some n
    → n.status ≡ pending
    → IsThere id (process_retry_notification services now id s)
fire-IsThere services now id n s g p =
    subst (IsThere id) (sym (fire-found services now id n s g p))
      (process_notification-IsThere services now n s id (n, g))

-- a row with a timer is pending
timed_pending : (st : Status) (k t a : ℕ) → IsPhase st k (suc t) a → (st ≡ pending) × (a ≡ k)
timed_pending pending k t a (_, e) = (refl, e)
timed_pending sent k t a (e, _) = absurd (omega arith)
timed_pending failed k t a (e, _) = absurd (omega arith)

fire-Change :
    (services : Services) (now : ℕ) (id : String) (s' : Processor) (row : Option Notification)
    → Map.get id s'.notifications ≡ row
    → IsTracked id row (suc (Map.occurs id s'.timers)) (Map.occurs id s'.attempts)
    → Tracked id (process_retry_notification services now id s')
    → Change fired (life_of row) (life id (process_retry_notification services now id s'))
fire-Change services now id s' none g h r =
    rw (missing_row services now id s' g, g) (unchanged fired absent)
fire-Change services now id s' (some n) g (i, (b, p)) r =
    let (st, a) = timed_pending n.status n.retry_count _ _ p in
    let made = fire-attempts services now id n s' g i st in
    let (m, there) = fire-IsThere services now id n s' g st in
    let q = process_retry_notification services now id s' in
    let tracked : IsTracked id (some m) (Map.occurs id q.timers) (suc n.retry_count) =
      subst (λ k. IsTracked id (some m) (Map.occurs id q.timers) k) (made ∙ ap suc a)
        (subst (λ o. IsTracked id o (Map.occurs id q.timers) (Map.occurs id q.attempts)) there r) in
    subst (λ st'. Change fired (phase st' n.retry_count) (life id q)) (sym st)
      (subst (λ o. Change fired (waiting n.retry_count) (life_of o)) (sym there)
        (attempted id n.retry_count m (Map.occurs id q.timers) tracked))

abbrev pub cause_of : (s r : Processor) → Step s r → Cause
cause_of _ _ (notify services new_id now user alert activity channels s new) = notified
cause_of _ _ (fire services now id due before after s e) = fired
cause_of _ _ (cleanup now days s) = cleaned

Step-life :
    (s r : Processor) (e : Step s r)
    → ((j : String) → Tracked j s)
    → ((j : String) → Tracked j r)
    → (j : String) → Change (cause_of s r e) (life j s) (life j r)
unfolding process_activity_notifications cleanup_old_notifications
Step-life _ _ (notify services new_id now user alert activity channels s new) h k j =
    notify-Change services now
      (create_notification_records new_id 0 user alert activity now
        (filter (λ c. c.enabled) channels))
      s j new (k j)
Step-life _ _ (cleanup now days s) h k j =
    elim (get-delete_older (now - days * 86400000) s.notifications j) [
      | inl e ↦ subst (λ o. Change cleaned (life j s) (life_of o)) (sym e) (remove (life j s))
      | inr e ↦
          subst (λ o. Change cleaned (life j s) (life_of o)) (sym e) (unchanged cleaned (life j s))
    ]
Step-life _ _ (fire services now id due before after s e) h k j =
    let s' : Processor = record s { timers = before ++ after } in
    let held : IsTracked id (Map.get id s.notifications) (suc (Map.occurs id s'.timers))
        (Map.occurs id s.attempts) =
      subst (λ t. IsTracked id (Map.get id s.notifications) t (Map.occurs id s.attempts))
        (ground (arith, timers_at id due before after s id e, eq_iff id id)) (h id) in
    elim (Bool-cases (str_eq id j)) [
      | inl q ↦
          subst
            (λ i. Change fired (life i s) (life i (process_retry_notification services now id s')))
            ((eq_iff id j).0 q)
            (fire-Change services now id s' (Map.get id s.notifications) refl held (k id))
      | inr q ↦
          life-eq fired j s (process_retry_notification services now id s')
            (fire_other services now id s' (Map.get id s.notifications) j refl held
              (λ p. ground (arith, eq_iff id j))).0
    ]

-- The processor refines the life of a notification: from every reachable state each step of the
-- processor makes at most one change to each notification. A new activity brings a new one to being sent,
-- or to waiting for its first retry. A timer brings one that waits to being sent, or to one retry more where
-- fewer than three were made, or to being given up where three were made. A cleanup can only remove it. So
-- one that was sent or given up can only be removed, and only by a cleanup.
pub Step-Change :
    (s r : Processor) (id : String)
    → Reach s
    → (e : Step s r) → Change (cause_of s r e) (life id s) (life id r)
Step-Change s r id h e = Step-life s r e (Reach-Tracked s h) (Reach-Tracked r (next s r h e)) id
