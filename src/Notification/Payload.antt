-- ===== src/Notification/Payload.antt =====
-- `buildNotificationPayload` of notification-processor.service.ts: what is sent for a notification.
use Prim.Native.String.{◌++◌}
use v2_xrpl_tools.Prelude.{
  ℕ, Bool, true, Option, none, some, List, ◌∷◌, str_eq, find?, ◌≡◌, arith, eq_iff,
}
use v2_xrpl_tools.Prelude.Outcome.{Outcome, done, raised}
use v2_xrpl_tools.Prelude.Decimal.{parse_int}
use v2_xrpl_tools.Notification.Data.{
  Notification, NotificationChannel, Nft, Collection, Activity, ActivityData, AlertConfig,
  NotificationPayload, truthy,
}

unfoldable pub collection_data : Collection → Collection
collection_data c = record {
  id = c.id;
  issuer_address = c.issuer_address;
  taxon = c.taxon;
  name = truthy c.name;
}

unfoldable pub nft_data : Nft → Nft
unfolding collection_data
nft_data n = record {
  id = n.id;
  nft_id = n.nft_id;
  owner_address = n.owner_address;
  metadata = truthy n.metadata;
  image_url = truthy n.image_url;
  image_s3_url = truthy n.image_s3_url;
  collection = elim n.collection [ none ↦ none | some c ↦ some (collection_data c) ];
}

unfoldable pub activity_data : Activity → ActivityData
unfolding nft_data
activity_data a = record {
  activity_type = a.activity_type;
  transaction_hash = a.transaction_hash;
  ledger_index = parse_int a.ledger_index;
  timestamp = a.timestamp;
  from_address = truthy a.from_address;
  to_address = truthy a.to_address;
  price_drops = truthy a.price_drops;
  currency = truthy a.currency;
  issuer = truthy a.issuer;
  nft = elim a.nft [ none ↦ none | some n ↦ some (nft_data n) ];
}

-- `notificationChannels.find((ch) => ch.type === notification.channel)`
unfoldable pub find_channel : Notification → AlertConfig → Option NotificationChannel
find_channel n alert = find? (λ ch. str_eq ch.type n.channel) alert.notification_channels

abbrev pub max_retries : ℕ
max_retries = 3

unfoldable pub build_notification_payload :
    Notification → Activity → AlertConfig → Outcome NotificationPayload
unfolding find_channel activity_data
build_notification_payload n activity alert = elim (find_channel n alert) [
  | none ↦ raised ("Channel configuration not found for " ++ n.channel)
  | some channel ↦ done (record {
    id = n.id;
    user_id = n.user_id;
    alert_config_id = n.alert_config_id;
    activity_id = n.activity_id;
    channel = channel;
    activity = activity_data activity;
    scheduled_at = n.scheduled_at;
    retry_count = n.retry_count;
    max_retries = max_retries;
  })
]

find?-first {ℓ} :
    {A : Type ℓ} (p : A → Bool) (x : A) (xs : List A) → p x ≡ true → find? p (x ∷ xs) ≡ some x
find?-first p x xs h = ground arith

-- A notification is sent with the settings of the first channel of its type, enabled or not: the
-- settings of a second channel of that type are never used.
pub find_channel-first :
    (n : Notification) (alert : AlertConfig) (first : NotificationChannel)
    (others : List NotificationChannel)
    → alert.notification_channels ≡ first ∷ others
    → first.type ≡ n.channel
    → find_channel n alert ≡ some first
unfolding find_channel
find_channel-first n alert first others h e = rw (
  h,
  find?-first (λ ch. str_eq ch.type n.channel) first others
      (ground (arith, eq_iff first.type n.channel)),
)
