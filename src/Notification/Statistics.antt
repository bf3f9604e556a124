-- ===== src/Notification/Statistics.antt =====
-- `getNotificationStats` of src/features/notifications/services/notification-processor.service.ts.
pub mod Counts
use Prim.Native.String.{◌++◌ as str_append}
use v2_xrpl_tools.Prelude.{
  ℕ, suc, ◌+◌, ◌-◌, ◌*◌, Bool, true, false, not, ◌&&◌, Option, none, some, List, [], ◌∷◌, ◌++◌,
  String, str_eq, ltb, leb, if◌then◌else◌, filter, get_elem?, length,
}
use v2_xrpl_tools.Prelude.Map
use v2_xrpl_tools.Prelude.Map.{Map}
use v2_xrpl_tools.Notification.Data.{
  Status, pending, sent, failed, Notification, NotificationChannel, NotificationResult, Activity,
  AlertConfig, NotificationPayload, truthy,
}
use v2_xrpl_tools.Notification.Payload.{build_notification_payload, max_retries}
use v2_xrpl_tools.Prelude.Outcome.{Outcome, done, raised}
use v2_xrpl_tools.Notification.Processor.{Processor}

pub record ChannelStats : Type 0 where
  pub sent : ℕ
  pub failed : ℕ
  pub pending : ℕ

pub record NotificationStats : Type 0 where
  pub total : ℕ
  pub sent : ℕ
  pub failed : ℕ
  pub pending : ℕ
  pub by_channel : Map ChannelStats

unfoldable pub count_channel : Status → ChannelStats → ChannelStats
count_channel pending c = record c { pending = suc c.pending }
count_channel sent c = record c { sent = suc c.sent }
count_channel failed c = record c { failed = suc c.failed }

unfoldable pub count_status : Status → NotificationStats → NotificationStats
count_status pending c = record c { pending = suc c.pending }
count_status sent c = record c { sent = suc c.sent }
count_status failed c = record c { failed = suc c.failed }

abbrev pub no_stats : ChannelStats
no_stats = record { sent = 0; failed = 0; pending = 0 }

unfoldable pub channel_stats : String → Map ChannelStats → ChannelStats
channel_stats c m = elim (Map.get c m) [ none ↦ no_stats | some x ↦ x ]

unfoldable pub count_notification : Notification → NotificationStats → NotificationStats
unfolding count_channel count_status channel_stats
count_notification n s =
    let s' = count_status n.status s in
    record s' {
      by_channel =
          Map.set n.channel (count_channel n.status (channel_stats n.channel s'.by_channel))
            s'.by_channel;
    }

unfoldable pub count_all : List Notification → NotificationStats → NotificationStats
unfolding count_notification
count_all [] s = s
count_all (n ∷ ns) s = count_all ns (count_notification n s)

unfoldable pub of_user : Option String → Notification → Bool
unfolding truthy
of_user user n = elim (truthy user) [ none ↦ true | some u ↦ str_eq n.user_id u ]

abbrev pub rows : Map Notification → List Notification
rows [] = []
rows ((k, n) ∷ m) = n ∷ rows m

unfoldable pub get_notification_stats : Option String → Processor → NotificationStats
unfolding count_all of_user
get_notification_stats user s =
    let ns = filter (of_user user) (rows s.notifications) in
    count_all ns (record { total = length ns; sent = 0; failed = 0; pending = 0; by_channel = [] })
