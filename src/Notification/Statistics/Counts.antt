-- ===== src/Notification/Statistics/Counts.antt =====
-- What the statistics of the notifications say.
use v2_xrpl_tools.Prelude.{
  ℕ, ◌+◌, ◌≡◌, refl, ◌∙◌, Bool, true, false, ◌&&◌, Option, List, [], ◌∷◌, String, str_eq, eq_iff,
  if◌then◌else◌, arith, filter, length, Bool-cases, inl, inr,
}
use v2_xrpl_tools.Prelude.Map
use v2_xrpl_tools.Prelude.Map.{Map, get-set}
use v2_xrpl_tools.Notification.Data.{Status, pending, sent, failed, Notification}
use v2_xrpl_tools.Notification.Processor.{Processor}
use v2_xrpl_tools.Notification.Statistics.{
  ChannelStats, NotificationStats, count_channel, count_status, channel_stats, count_notification,
  count_all, of_user, rows, get_notification_stats,
}

abbrev pub same_status : Status → Status → Bool
same_status pending pending = true
same_status sent sent = true
same_status failed failed = true
same_status _ _ = false

-- how many of the notifications pass a test
abbrev pub tally : (Notification → Bool) → List Notification → ℕ
tally p ns = length (filter p ns)

abbrev pub has_status : Status → Notification → Bool
has_status st n = same_status n.status st

abbrev pub has_both : String → Status → Notification → Bool
has_both c st n = str_eq n.channel c && has_status st n

count_one :
    (n : Notification) (s : NotificationStats)
    → let r = count_notification n s in
      (r.sent ≡ s.sent + tally (has_status sent) (n ∷ []))
      × ((r.failed ≡ s.failed + tally (has_status failed) (n ∷ []))
          × ((r.pending ≡ s.pending + tally (has_status pending) (n ∷ [])) × (r.total ≡ s.total)))
unfolding count_notification count_status
count_one n s = go n.status refl
  where
    go :
        (st : Status)
        → n.status ≡ st
        → let r = count_status n.status s in
          (r.sent ≡ s.sent + tally (has_status sent) (n ∷ []))
          × ((r.failed ≡ s.failed + tally (has_status failed) (n ∷ []))
              × ((r.pending ≡ s.pending + tally (has_status pending) (n ∷ []))
                  × (r.total ≡ s.total)))
    go pending e = rw e (omega arith, (omega arith, (omega arith, refl)))
    go sent e = rw e (omega arith, (omega arith, (omega arith, refl)))
    go failed e = rw e (omega arith, (omega arith, (omega arith, refl)))

tally-cons :
    (p : Notification → Bool) (n : Notification) (ns : List Notification)
    → tally p (n ∷ ns) ≡ tally p (n ∷ []) + tally p ns
tally-cons p n ns = ground arith

count_all-totals :
    (ns : List Notification) (s : NotificationStats)
    → let r = count_all ns s in
      (r.sent ≡ s.sent + tally (has_status sent) ns)
      × ((r.failed ≡ s.failed + tally (has_status failed) ns)
          × ((r.pending ≡ s.pending + tally (has_status pending) ns) × (r.total ≡ s.total)))
unfolding count_all
count_all-totals [] s = (omega arith, (omega arith, (omega arith, refl)))
count_all-totals (n ∷ ns) s =
    let (a, (b, (c, d))) = count_all-totals ns (count_notification n s) in
    let (e, (f, (g, h))) = count_one n s in
    (
      omega (arith, tally-cons (has_status sent) n ns),
      (
        omega (arith, tally-cons (has_status failed) n ns),
        (omega (arith, tally-cons (has_status pending) n ns), d ∙ h),
      ),
    )

split_by_status :
    (ns : List Notification)
    → length ns
      ≡ tally (has_status sent) ns + tally (has_status failed) ns + tally (has_status pending) ns
split_by_status [] = omega arith
split_by_status (n ∷ ns) = go n.status refl (split_by_status ns)
  where
    go :
        (st : Status)
        → n.status ≡ st
        → length ns
          ≡ tally (has_status sent) ns
            + tally (has_status failed) ns
            + tally (has_status pending) ns
        → length (n ∷ ns)
          ≡ tally (has_status sent) (n ∷ ns)
            + tally (has_status failed) (n ∷ ns)
            + tally (has_status pending) (n ∷ ns)
    go pending e h = rw e (omega arith)
    go sent e h = rw e (omega arith)
    go failed e h = rw e (omega arith)

count_one-channel :
    (c : String) (n : Notification) (s : NotificationStats)
    → channel_stats c (count_notification n s).by_channel ≡ (
        if str_eq n.channel c
        then count_channel n.status (channel_stats c s.by_channel)
        else channel_stats c s.by_channel)
unfolding count_notification count_status channel_stats
count_one-channel c n s = ground (
  arith,
  kept n.status,
  eq_iff n.channel c,
  get-set n.channel c
      (count_channel n.status (channel_stats n.channel (count_status n.status s).by_channel))
      (count_status n.status s).by_channel,
)
  where
    kept : (st : Status) → (count_status st s).by_channel ≡ s.by_channel
    kept pending = refl
    kept sent = refl
    kept failed = refl

count_channel_lem :
    (c : String) (n : Notification) (x : ChannelStats)
    → str_eq n.channel c ≡ true
    → let r = count_channel n.status x in
      (r.sent ≡ x.sent + tally (has_both c sent) (n ∷ []))
      × ((r.failed ≡ x.failed + tally (has_both c failed) (n ∷ []))
          × (r.pending ≡ x.pending + tally (has_both c pending) (n ∷ [])))
unfolding count_channel
count_channel_lem c n x h = go n.status refl
  where
    go :
        (st : Status)
        → n.status ≡ st
        → let r = count_channel n.status x in
          (r.sent ≡ x.sent + tally (has_both c sent) (n ∷ []))
          × ((r.failed ≡ x.failed + tally (has_both c failed) (n ∷ []))
              × (r.pending ≡ x.pending + tally (has_both c pending) (n ∷ [])))
    go pending e = rw (h, e) (omega arith, (omega arith, omega arith))
    go sent e = rw (h, e) (omega arith, (omega arith, omega arith))
    go failed e = rw (h, e) (omega arith, (omega arith, omega arith))

count_one-channel_lem :
    (c : String) (n : Notification) (s : NotificationStats)
    → let r = channel_stats c (count_notification n s).by_channel in
      let x = channel_stats c s.by_channel in
      (r.sent ≡ x.sent + tally (has_both c sent) (n ∷ []))
      × ((r.failed ≡ x.failed + tally (has_both c failed) (n ∷ []))
          × (r.pending ≡ x.pending + tally (has_both c pending) (n ∷ [])))
count_one-channel_lem c n s = elim (Bool-cases (str_eq n.channel c)) [
  | inl e ↦
      let counted : channel_stats c (count_notification n s).by_channel
          ≡ count_channel n.status (channel_stats c s.by_channel) =
        ground (arith, count_one-channel c n s) in
      rw counted (count_channel_lem c n (channel_stats c s.by_channel) e)
  | inr e ↦ rw (count_one-channel c n s, e) (omega arith, (omega arith, omega arith))
]

count_all-channels :
    (c : String) (ns : List Notification) (s : NotificationStats)
    → let r = channel_stats c (count_all ns s).by_channel in
      let x = channel_stats c s.by_channel in
      (r.sent ≡ x.sent + tally (has_both c sent) ns)
      × ((r.failed ≡ x.failed + tally (has_both c failed) ns)
          × (r.pending ≡ x.pending + tally (has_both c pending) ns))
unfolding count_all
count_all-channels c [] s = (omega arith, (omega arith, omega arith))
count_all-channels c (n ∷ ns) s =
    let (a, (b, d)) = count_all-channels c ns (count_notification n s) in
    let (e, (f, g)) = count_one-channel_lem c n s in
    (
      omega (arith, tally-cons (has_both c sent) n ns),
      (
        omega (arith, tally-cons (has_both c failed) n ns),
        omega (arith, tally-cons (has_both c pending) n ns),
      ),
    )

-- The statistics count every notification of the user, or of all users, once: the totals are the
-- numbers of those with each status, and they add up to the number of notifications.
pub get_notification_stats-totals :
    (user : Option String) (s : Processor)
    → let ns = filter (of_user user) (rows s.notifications) in
      let r = get_notification_stats user s in
      (r.sent ≡ tally (has_status sent) ns)
      × ((r.failed ≡ tally (has_status failed) ns)
          × ((r.pending ≡ tally (has_status pending) ns)
              × (r.total ≡ r.sent + r.failed + r.pending)))
unfolding get_notification_stats
get_notification_stats-totals user s =
    let ns = filter (of_user user) (rows s.notifications) in
    let (a, (b, (c, d))) =
      count_all-totals ns
        (record { total = length ns; sent = 0; failed = 0; pending = 0; by_channel = [] }) in
    (omega arith, (omega arith, (omega arith, omega (arith, split_by_status ns))))

-- The statistics of a channel count the notifications of that channel with each status, and a
-- channel without notifications has none.
pub get_notification_stats-channels :
    (user : Option String) (s : Processor) (c : String)
    → let ns = filter (of_user user) (rows s.notifications) in
      let r = channel_stats c (get_notification_stats user s).by_channel in
      (r.sent ≡ tally (has_both c sent) ns)
      × ((r.failed ≡ tally (has_both c failed) ns) × (r.pending ≡ tally (has_both c pending) ns))
unfolding get_notification_stats channel_stats Map.get
get_notification_stats-channels user s c =
    let ns = filter (of_user user) (rows s.notifications) in
    let (a, (b, d)) =
      count_all-channels c ns
        (record { total = length ns; sent = 0; failed = 0; pending = 0; by_channel = [] }) in
    (omega arith, (omega arith, omega arith))
