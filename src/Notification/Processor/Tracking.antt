-- ===== src/Notification/Processor/Tracking.antt =====
-- What an attempt does to the notification that it is about, and to the others.
use v2_xrpl_tools.Prelude.{
  ℕ, suc, ◌+◌, ◌≤◌, ◌<◌, ◌≡◌, ◌≢◌, inl, inr, refl, sym, ap, ◌∙◌, Bool, false, not, ◌&&◌, Option,
  none, some, ◌∷◌, String, eq_iff, ltb, if◌then◌else◌, if_induction, Option-cases, arith, subst,
}
use v2_xrpl_tools.Prelude.Map
use v2_xrpl_tools.Prelude.Map.{Map, get-set}
use v2_xrpl_tools.Notification.Data.{
  Status, pending, sent, failed, Notification, NotificationResult,
}
use v2_xrpl_tools.Notification.Payload.{max_retries}
use v2_xrpl_tools.Prelude.Outcome.{Outcome, done, raised}
use v2_xrpl_tools.Notification.Processor.{
  Services, Processor, update, apply_result, update_notification_status, retried, retry_delay,
  schedule_retry, attempt, failure, conclude, process_notification,
}

-- how the retry count, the timers that are set and the attempts made go with a status
abbrev pub IsPhase : Status → ℕ → ℕ → ℕ → Type 0
IsPhase pending retries timers attempts = (timers ≡ 1) × (attempts ≡ retries)
IsPhase sent retries timers attempts = (timers ≡ 0) × (attempts ≡ suc retries)
IsPhase failed retries timers attempts = (timers ≡ 0) × ((retries ≡ 3) × (attempts ≡ 4))

abbrev pub IsTracked : String → Option Notification → ℕ → ℕ → Type 0
IsTracked id none timers attempts = (timers ≤ 1) × (attempts + timers ≤ 4)
IsTracked id (some n) timers attempts =
    (n.id ≡ id) × ((n.retry_count ≤ 3) × IsPhase n.status n.retry_count timers attempts)

abbrev pub Tracked : String → Processor → Type 0
Tracked id s =
    IsTracked id (Map.get id s.notifications) (Map.occurs id s.timers) (Map.occurs id s.attempts)

-- a notification whose attempt is next
abbrev pub IsReady : Notification → Processor → Type 0
IsReady n s =
    (Map.get n.id s.notifications ≡ some n)
    × ((n.retry_count ≤ 3)
        × ((Map.occurs n.id s.timers ≡ 0) × (Map.occurs n.id s.attempts ≡ n.retry_count)))

-- Two states say the same of a notification.
abbrev pub Same : String → Processor → Processor → Type 0
Same id s r =
    (Map.get id s.notifications ≡ Map.get id r.notifications)
    × ((Map.occurs id s.timers ≡ Map.occurs id r.timers)
        × (Map.occurs id s.attempts ≡ Map.occurs id r.attempts))

pub Tracked-Same : (id : String) (s r : Processor) → Same id s r → Tracked id r → Tracked id s
Tracked-Same id s r (a, (b, c)) h = rw (a, b, c) h

pub IsReady-Same : (n : Notification) (s r : Processor) → Same n.id s r → IsReady n r → IsReady n s
IsReady-Same n s r (a, (b, c)) (h, (i, (k, l))) = (a ∙ h, (i, (b ∙ k, c ∙ l)))

update-Same :
    (id : String) (f : Notification → Notification) (s : Processor) (j : String)
    → id ≢ j
    → Same j (update id f s) s
unfolding update
update-Same id f s j h = elim (Option-cases (Map.get id s.notifications)) [
  | inl e ↦ rw (update, e) (refl, (refl, refl))
  | inr (n, e) ↦
      rw (update, e) (ground (arith, get-set id j (f n) s.notifications, eq_iff id j), (refl, refl))
]

schedule_retry-Same :
    (now : ℕ) (id : String) (after : Option ℕ) (s : Processor) (j : String)
    → id ≢ j
    → Same j (schedule_retry now id after s) s
unfolding schedule_retry Map.occurs
schedule_retry-Same now id after s j h = elim (Option-cases (Map.get id s.notifications)) [
  | inl e ↦ rw (schedule_retry, e) (refl, (refl, refl))
  | inr (n, e) ↦
      let (a, (b, c)) = update-Same id (retried now after) s j h in
      rw (schedule_retry, e) (a, (ground (arith, eq_iff id j), c))
]

Same-trans : (j : String) (s r q : Processor) → Same j s r → Same j r q → Same j s q
Same-trans j s r q (a, (b, c)) (d, (e, f)) = (a ∙ d, (b ∙ e, c ∙ f))

-- The code after a failed send is that after a send that threw, with the message as its result.
conclude_raised :
    (now : ℕ) (n : Notification) (e : String) (s : Processor)
    → conclude now n (raised e) s ≡ conclude now n (done (failure e)) s
unfolding conclude
conclude_raised now n e s = refl

conclude_done-Same :
    (now : ℕ) (n : Notification) (r : NotificationResult) (s : Processor) (j : String)
    → n.id ≢ j
    → Same j (conclude now n (done r) s) s
unfolding conclude update_notification_status
conclude_done-Same now n r s j h =
    let s' = update_notification_status now n.id r s in
    let updated : Same j s' s = update-Same n.id (apply_result now r) s j h in
    if_induction (λ q. Same j q s) (not r.success && ltb n.retry_count max_retries)
      {x = schedule_retry now n.id r.retry_after s'} {y = s'}
      (λ _.
        Same-trans j (schedule_retry now n.id r.retry_after s') s' s
          (schedule_retry-Same now n.id r.retry_after s' j h) updated)
      (λ _. updated)

conclude-Same :
    (now : ℕ) (n : Notification) (o : Outcome NotificationResult) (s : Processor) (j : String)
    → n.id ≢ j
    → Same j (conclude now n o s) s
conclude-Same now n (raised e) s j h =
    subst (λ q. Same j q s) (sym (conclude_raised now n e s))
      (conclude_done-Same now n (failure e) s j h)
conclude-Same now n (done r) s j h = conclude_done-Same now n r s j h

pub process_notification-Same :
    (services : Services) (now : ℕ) (n : Notification) (s : Processor) (j : String)
    → n.id ≢ j
    → Same j (process_notification services now n s) s
unfolding process_notification Map.occurs
process_notification-Same services now n s j h =
    let (a, (b, c)) = conclude-Same now n (attempt services n s) s j h in
    (a, (b, ground (arith, eq_iff n.id j)))

update-found :
    (id : String) (f : Notification → Notification) (s : Processor) (n : Notification)
    → Map.get id s.notifications ≡ some n
    → update id f s ≡ record s { notifications = Map.set id (f n) s.notifications }
unfolding update
update-found id f s n h = rw (update, h) refl

get-update :
    (id : String) (f : Notification → Notification) (s : Processor) (n : Notification)
    → Map.get id s.notifications ≡ some n
    → Map.get id (update id f s).notifications ≡ some (f n)
get-update id f s n h =
    ap (λ q. Map.get id q.notifications) (update-found id f s n h)
    ∙ ground (arith, get-set id id (f n) s.notifications, eq_iff id id)

schedule_retry-found :
    (now : ℕ) (id : String) (after : Option ℕ) (s : Processor) (n : Notification)
    → Map.get id s.notifications ≡ some n
    → schedule_retry now id after s ≡ (
        let s' = update id (retried now after) s in
        record s' { timers = (id, now + retry_delay after (suc n.retry_count)) ∷ s'.timers })
unfolding schedule_retry update retry_delay
schedule_retry-found now id after s n h = rw (schedule_retry, h) refl

pub update-timers :
    (id : String) (f : Notification → Notification) (s : Processor)
    → ((update id f s).timers ≡ s.timers) × ((update id f s).attempts ≡ s.attempts)
unfolding update
update-timers id f s = elim (Option-cases (Map.get id s.notifications)) [
  | inl e ↦ rw (update, e) (refl, refl)
  | inr (n, e) ↦ rw (update, e) (refl, refl)
]

-- what the table, the timers and the attempts are after a send, at the notification itself
abbrev Concluded : Notification → Processor → Type 0
Concluded n s =
    IsTracked n.id (Map.get n.id s.notifications) (Map.occurs n.id s.timers)
      (suc (Map.occurs n.id s.attempts))

Concluded-of :
    (n m : Notification) (s : Processor)
    → Map.get n.id s.notifications ≡ some m
    → m.id ≡ n.id
    → m.retry_count ≤ 3
    → IsPhase m.status m.retry_count (Map.occurs n.id s.timers) (suc (Map.occurs n.id s.attempts))
    → Concluded n s
Concluded-of n m s h i b p =
    subst (λ o. IsTracked n.id o (Map.occurs n.id s.timers) (suc (Map.occurs n.id s.attempts)))
      (sym h) (i, (b, p))

schedule_retry-Concluded :
    (now : ℕ) (after : Option ℕ) (n m : Notification) (s : Processor)
    → Map.get n.id s.notifications ≡ some m
    → m.id ≡ n.id
    → m.retry_count < 3
    → Map.occurs n.id s.timers ≡ 0
    → Map.occurs n.id s.attempts ≡ m.retry_count
    → Concluded n (schedule_retry now n.id after s)
unfolding retried Map.occurs
schedule_retry-Concluded now after n m s h i b t a =
    let u = update n.id (retried now after) s in
    let s' : Processor = record u {
      timers = (n.id, now + retry_delay after (suc m.retry_count)) ∷ u.timers;
    } in
    subst (Concluded n) (sym (schedule_retry-found now n.id after s m h)) (
      Concluded-of n (retried now after m) s' (get-update n.id (retried now after) s m h) i b (
        ground (
          arith,
          ap (Map.occurs n.id) (update-timers n.id (retried now after) s).0,
          eq_iff n.id n.id,
        ),
        omega (arith, ap (Map.occurs n.id) (update-timers n.id (retried now after) s).1),
      ))

apply_result_fields :
    (now : ℕ) (r : NotificationResult) (n : Notification)
    → ((apply_result now r n).id ≡ n.id)
      × (((apply_result now r n).retry_count ≡ n.retry_count)
          × ((apply_result now r n).status ≡ (if r.success then sent else failed)))
unfolding apply_result
apply_result_fields now r n = ground arith

IsPhase-final :
    (st : Status) (b : Bool) (m t a : ℕ)
    → st ≡ (if b then sent else failed)
    → (not b && ltb m max_retries) ≡ false
    → m ≤ 3
    → t ≡ 0
    → a ≡ m
    → IsPhase st m t (suc a)
IsPhase-final st b m t a e f h k l = ground arith

conclude_done-Concluded :
    (now : ℕ) (n : Notification) (r : NotificationResult) (s : Processor)
    → IsReady n s
    → Concluded n (conclude now n (done r) s)
unfolding conclude update_notification_status
conclude_done-Concluded now n r s (h, (b, (t, a))) =
    let s' = update_notification_status now n.id r s in
    let found = get-update n.id (apply_result now r) s n h in
    let (st, sa) = update-timers n.id (apply_result now r) s in
    let (i, (c, k)) = apply_result_fields now r n in
    let timers : Map.occurs n.id s'.timers ≡ 0 = ap (Map.occurs n.id) st ∙ t in
    let attempts : Map.occurs n.id s'.attempts ≡ n.retry_count = ap (Map.occurs n.id) sa ∙ a in
    if_induction (Concluded n) (not r.success && ltb n.retry_count max_retries)
      {x = schedule_retry now n.id r.retry_after s'} {y = s'}
      (λ e.
        schedule_retry-Concluded now r.retry_after n _ s' found i (ground arith) timers
          (attempts ∙ sym c))
      (λ e.
        Concluded-of n (apply_result now r n) s' found i (omega arith)
          (IsPhase-final _ r.success _ _ _ k (rw c e) (omega arith) timers (attempts ∙ sym c)))

conclude-Concluded :
    (now : ℕ) (n : Notification) (o : Outcome NotificationResult) (s : Processor)
    → IsReady n s
    → Concluded n (conclude now n o s)
conclude-Concluded now n (raised e) s h =
    subst (Concluded n) (sym (conclude_raised now n e s))
      (conclude_done-Concluded now n (failure e) s h)
conclude-Concluded now n (done r) s h = conclude_done-Concluded now n r s h

-- However an attempt ends, it leaves its notification sent, waiting for one timer, or given up.
pub process_notification-Tracked :
    (services : Services) (now : ℕ) (n : Notification) (s : Processor)
    → IsReady n s
    → Tracked n.id (process_notification services now n s)
unfolding process_notification Map.occurs
process_notification-Tracked services now n s h =
    let c = conclude now n (attempt services n s) s in
    subst (IsTracked n.id (Map.get n.id c.notifications) (Map.occurs n.id c.timers))
      (ground (arith, eq_iff n.id n.id)) (conclude-Concluded now n (attempt services n s) s h)
