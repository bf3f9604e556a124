-- ===== src/Notification/Processor/Batches.antt =====
-- The notifications of one activity: their rows are saved together and then attempted.
use v2_xrpl_tools.Prelude.{
  ℕ, suc, ◌≡◌, ◌≢◌, inl, inr, refl, sym, ◌∙◌, Bool, false, ◌||◌, none, List, [], ◌∷◌, String,
  str_eq, eq_iff, Bool-cases, arith, subst,
}
use v2_xrpl_tools.Prelude.Map
use v2_xrpl_tools.Prelude.Map.{Map, get-set, get-delete, occurs-append}
use v2_xrpl_tools.Notification.Data.{Notification, NotificationChannel}
use v2_xrpl_tools.Notification.Processor.{
  Services, Processor, process_notification, create_notification_records, save_all, process_all,
}
use v2_xrpl_tools.Notification.Processor.Tracking.{
  Tracked, IsReady, Same, Tracked-Same, IsReady-Same, process_notification-Same,
  process_notification-Tracked,
}

-- whether a notification is in the list
abbrev pub among : String → List Notification → Bool
among j [] = false
among j (n ∷ ns) = str_eq n.id j || among j ns

-- The keys that the database makes are new, and different from each other.
abbrev pub AreNew : List Notification → Processor → Type 0
AreNew [] s = Unit
AreNew (n ∷ ns) s =
    ((Map.get n.id s.notifications ≡ none)
      × ((Map.occurs n.id s.timers ≡ 0) × (Map.occurs n.id s.attempts ≡ 0)))
    × (AreNew ns s × (among n.id ns ≡ false))

abbrev AllReady : List Notification → Processor → Type 0
AllReady [] s = Unit
AllReady (n ∷ ns) s = IsReady n s × (AllReady ns s × (among n.id ns ≡ false))

pub not_among :
    (n : Notification) (ns : List Notification) (id : String)
    → among id (n ∷ ns) ≡ false
    → (n.id ≢ id) × (among id ns ≡ false)
not_among n ns id h = (λ e. ground (arith, eq_iff n.id id), ground arith)

AllReady-process_notification :
    (services : Services) (now : ℕ) (n : Notification) (s : Processor) (ns : List Notification)
    → among n.id ns ≡ false
    → AllReady ns s
    → AllReady ns (process_notification services now n s)
AllReady-process_notification services now n s [] a h = tt
AllReady-process_notification services now n s (m ∷ ns) a (r, (h, d)) =
    let (q, b) = not_among m ns n.id a in
    (
      IsReady-Same m (process_notification services now n s) s
          (process_notification-Same services now n s m.id (λ e. q (sym e))) r,
      (AllReady-process_notification services now n s ns b h, d),
    )

pub process_all-Tracked :
    (services : Services) (now : ℕ) (ns : List Notification) (s : Processor) (j : String)
    → AllReady ns s
    → (among j ns ≡ false → Tracked j s)
    → Tracked j (process_all services now ns s)
unfolding process_all
process_all-Tracked services now [] s j h k = k refl
process_all-Tracked services now (n ∷ ns) s j (r, (h, d)) k =
    process_all-Tracked services now ns (process_notification services now n s) j
      (AllReady-process_notification services now n s ns d h)
      (λ a. elim (Bool-cases (str_eq n.id j)) [
        | inl e ↦
            subst (λ i. Tracked i (process_notification services now n s)) ((eq_iff n.id j).0 e)
              (process_notification-Tracked services now n s r)
        | inr e ↦
            Tracked-Same j (process_notification services now n s) s
              (process_notification-Same services now n s j (λ q. ground (arith, eq_iff n.id j)))
              (k (ground arith))
      ])

save_one-Same :
    (n : Notification) (s : Processor) (j : String)
    → n.id ≢ j
    → Same j (record s { notifications = Map.set n.id n s.notifications }) s
save_one-Same n s j d =
    (ground (arith, get-set n.id j n s.notifications, eq_iff n.id j), (refl, refl))

pub save_all-Same :
    (ns : List Notification) (s : Processor) (j : String)
    → among j ns ≡ false
    → Same j (save_all ns s) s
unfolding save_all
save_all-Same [] s j h = (refl, (refl, refl))
save_all-Same (n ∷ ns) s j h =
    let (d, k) = not_among n ns j h in
    let (a, (b, c)) =
      save_all-Same ns (record s { notifications = Map.set n.id n s.notifications }) j k in
    (a ∙ (save_one-Same n s j d).0, (b, c))

abbrev AreUntried : List Notification → Type 0
AreUntried [] = Unit
AreUntried (n ∷ ns) = (n.retry_count ≡ 0) × AreUntried ns

pub create-AreUntried :
    (new_id : ℕ → String) (i : ℕ) (user alert activity : String) (now : ℕ)
    (cs : List NotificationChannel)
    → AreUntried (create_notification_records new_id i user alert activity now cs)
unfolding create_notification_records
create-AreUntried new_id i user alert activity now [] = tt
create-AreUntried new_id i user alert activity now (c ∷ cs) =
    (refl, create-AreUntried new_id (suc i) user alert activity now cs)

AreNew-save_one :
    (n : Notification) (s : Processor) (ns : List Notification)
    → among n.id ns ≡ false
    → AreNew ns s
    → AreNew ns (record s { notifications = Map.set n.id n s.notifications })
AreNew-save_one n s [] a h = tt
AreNew-save_one n s (m ∷ ns) a ((g, u), (h, d)) =
    let (q, b) = not_among m ns n.id a in
    (((save_one-Same n s m.id (λ e. q (sym e))).0 ∙ g, u), (AreNew-save_one n s ns b h, d))

pub save_all-AllReady :
    (ns : List Notification) (s : Processor)
    → AreUntried ns
    → AreNew ns s
    → AllReady ns (save_all ns s)
unfolding save_all
save_all-AllReady [] s u h = tt
save_all-AllReady (n ∷ ns) s (z, u) ((g, (t, a)), (h, d)) =
    let s' : Processor = record s { notifications = Map.set n.id n s.notifications } in
    (
      IsReady-Same n (save_all ns s') s' (save_all-Same ns s' n.id d) (
        ground (arith, get-set n.id n.id n s.notifications, eq_iff n.id n.id),
        (omega arith, (t, a ∙ sym z)),
      ),
      (save_all-AllReady ns s' u (AreNew-save_one n s ns d h), d),
    )
