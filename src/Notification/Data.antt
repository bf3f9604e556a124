-- ===== src/Notification/Data.antt =====
-- What the notification services exchange: src/features/notifications/interfaces/
-- notification.interface.ts, with the database entities that they read. A nullable column and an
-- optional field are `Option`; the free-form metadata of an NFT is the text of its JSON.
use v2_xrpl_tools.Prelude.{ℕ, Bool, Option, none, some, List, String, str_eq, if◌then◌else◌}

pub data Status : Type 0 where
  pending sent failed : Status

-- NotificationEntity
pub record Notification : Type 0 where
  pub id : String
  pub user_id : String
  pub alert_config_id : String
  pub activity_id : String
  pub channel : String
  pub status : Status
  pub retry_count : ℕ
  pub scheduled_at : ℕ
  pub sent_at : Option ℕ
  pub created_at : ℕ
  pub error_message : Option String

-- The channel's settings are read by the channel's service.
pub record NotificationChannel : Type 0 where
  pub type : String
  pub enabled : Bool
  pub config : List (String × String)

pub record NotificationResult : Type 0 where
  pub success : Bool
  pub message_id : Option String
  pub error : Option String
  pub retry_after : Option ℕ

pub record Collection : Type 0 where
  pub id : String
  pub issuer_address : String
  pub taxon : ℕ
  pub name : Option String

pub record Nft : Type 0 where
  pub id : String
  pub nft_id : String
  pub owner_address : String
  pub metadata : Option String
  pub image_url : Option String
  pub image_s3_url : Option String
  pub collection : Option Collection

-- NftActivityEntity; `ledger_index` is a bigint column, read as text
pub record Activity : Type 0 where
  pub activity_type : String
  pub transaction_hash : String
  pub ledger_index : String
  pub timestamp : ℕ
  pub from_address : Option String
  pub to_address : Option String
  pub price_drops : Option String
  pub currency : Option String
  pub issuer : Option String
  pub nft : Option Nft

-- NFTActivityNotificationData; `ledger_index` is none for NaN
pub record ActivityData : Type 0 where
  pub activity_type : String
  pub transaction_hash : String
  pub ledger_index : Option ℕ
  pub timestamp : ℕ
  pub from_address : Option String
  pub to_address : Option String
  pub price_drops : Option String
  pub currency : Option String
  pub issuer : Option String
  pub nft : Option Nft

pub record AlertConfig : Type 0 where
  pub id : String
  pub user_id : String
  pub notification_channels : List NotificationChannel

pub record NotificationPayload : Type 0 where
  pub id : String
  pub user_id : String
  pub alert_config_id : String
  pub activity_id : String
  pub channel : NotificationChannel
  pub activity : ActivityData
  pub scheduled_at : ℕ
  pub retry_count : ℕ
  pub max_retries : ℕ

-- A text that is absent or empty counts as false, and is not copied.
unfoldable pub truthy : Option String → Option String
truthy none = none
truthy (some s) = if str_eq s "" then none else some s
