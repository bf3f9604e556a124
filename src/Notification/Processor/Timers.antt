-- ===== src/Notification/Processor/Timers.antt =====
-- A timer that fires, and a cleanup.
use v2_xrpl_tools.Prelude.{
  ℕ, suc, ◌-◌, ◌*◌, ◌≤◌, ◌≡◌, ◌≢◌, ◌⊎◌, inl, inr, refl, sym, ap, ◌∙◌, true, Option, none, some, [],
  ◌∷◌, ◌++◌, String, str_eq, eq_iff, if◌then◌else◌, arith, subst,
}
use v2_xrpl_tools.Prelude.Map
use v2_xrpl_tools.Prelude.Map.{Map, get-set, get-delete, occurs-append}
use v2_xrpl_tools.Notification.Data.{Status, pending, sent, failed, Notification}
use v2_xrpl_tools.Notification.Processor.{
  Services, Processor, process_notification, is_pending, process_retry_notification, delete_older,
  cleanup_old_notifications,
}
use v2_xrpl_tools.Notification.Processor.Tracking.{
  IsPhase, IsTracked, Tracked, Same, process_notification-Same, process_notification-Tracked,
}

pub timers_at :
    (id : String) (due : ℕ) (before after : Map ℕ) (s : Processor) (j : String)
    → s.timers ≡ before ++ (id, due) ∷ after
    → Map.occurs j s.timers ≡ (
        if str_eq id j
        then suc (Map.occurs j (before ++ after))
        else Map.occurs j (before ++ after))
unfolding Map.occurs
timers_at id due before after s j e = ground (
  arith,
  ap (Map.occurs j) e,
  occurs-append j before ((id, due) ∷ after),
  occurs-append j before after,
)

pub gone :
    (id : String) (row : Option Notification) (t a : ℕ)
    → IsTracked id row t a
    → IsTracked id none t a
gone id none t a h = h
gone id (some n) t a (_, (b, p)) = at n.status p
  where
    at : (st : Status) → IsPhase st n.retry_count t a → IsTracked id none t a
    at pending q = (omega arith, omega arith)
    at sent q = (omega arith, omega arith)
    at failed q = (omega arith, omega arith)

pending_now :
    (st : Status) (c t a : ℕ)
    → IsPhase st c (suc t) a
    → (is_pending st ≡ true) × ((t ≡ 0) × (a ≡ c))
pending_now pending c t a h = (refl, (omega arith, omega arith))
pending_now sent c t a h = absurd (omega arith)
pending_now failed c t a h = absurd (omega arith)

pub fire_row :
    (services : Services) (now : ℕ) (id : String) (s : Processor) (row : Option Notification)
    → Map.get id s.notifications ≡ row
    → IsTracked id row (suc (Map.occurs id s.timers)) (Map.occurs id s.attempts)
    → Tracked id (process_retry_notification services now id s)
unfolding process_retry_notification
fire_row services now id s none e h =
    rw (process_retry_notification, e)
      (subst (λ o. IsTracked id o (Map.occurs id s.timers) (Map.occurs id s.attempts)) (sym e)
        (gone id none (Map.occurs id s.timers) (Map.occurs id s.attempts)
          (omega arith, omega arith)))
fire_row services now id s (some n) e (i, (b, p)) =
    let (st, (t, a)) =
      pending_now n.status n.retry_count (Map.occurs id s.timers) (Map.occurs id s.attempts) p in
    rw (process_retry_notification, e, st)
      (subst (λ k. Tracked k (process_notification services now n s)) i
        (process_notification-Tracked services now n s (
          subst
            (λ k.
              (Map.get k s.notifications ≡ some n)
              × ((n.retry_count ≤ 3)
                  × ((Map.occurs k s.timers ≡ 0) × (Map.occurs k s.attempts ≡ n.retry_count))))
            (sym i) (e, (b, (t, a))))))

pub fire_other :
    (services : Services) (now : ℕ) (id : String) (s : Processor) (row : Option Notification)
    (j : String)
    → Map.get id s.notifications ≡ row
    → IsTracked id row (suc (Map.occurs id s.timers)) (Map.occurs id s.attempts)
    → id ≢ j
    → Same j (process_retry_notification services now id s) s
unfolding process_retry_notification
fire_other services now id s none j e h d = rw (process_retry_notification, e) (refl, (refl, refl))
fire_other services now id s (some n) j e (i, (b, p)) d =
    let (st, (t, a)) =
      pending_now n.status n.retry_count (Map.occurs id s.timers) (Map.occurs id s.attempts) p in
    rw (process_retry_notification, e, st)
      (process_notification-Same services now n s j (λ q. d (sym i ∙ q)))

pub get-delete_older :
    (cutoff : ℕ) (m : Map Notification) (j : String)
    → (Map.get j (delete_older cutoff m) ≡ none) ⊎ (Map.get j (delete_older cutoff m) ≡ Map.get j m)
unfolding delete_older Map.get
get-delete_older cutoff [] j = inl refl
get-delete_older cutoff ((k, n) ∷ m) j =
    ground (arith, get-delete_older cutoff m j, get-delete k j (delete_older cutoff m), eq_iff k j)

pub cleanup-Tracked :
    (now days : ℕ) (s : Processor) (j : String)
    → Tracked j s
    → Tracked j (cleanup_old_notifications now days s).1
unfolding cleanup_old_notifications
cleanup-Tracked now days s j h = elim (get-delete_older (now - days * 86400000) s.notifications j) [
  | inl e ↦
      subst (λ o. IsTracked j o (Map.occurs j s.timers) (Map.occurs j s.attempts)) (sym e)
        (gone j (Map.get j s.notifications) (Map.occurs j s.timers) (Map.occurs j s.attempts) h)
  | inr e ↦ subst (λ o. IsTracked j o (Map.occurs j s.timers) (Map.occurs j s.attempts)) (sym e) h
]
