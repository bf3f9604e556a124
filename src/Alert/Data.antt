-- ===== src/Alert/Data.antt =====
-- The entities and interfaces of the alerts: src/features/alerts/interfaces/alert.interface.ts and
-- src/database/entities/alert-config.entity.ts.
use v2_xrpl_tools.Prelude.{ℕ, Bool, Option, List, String}
use v2_xrpl_tools.Prelude.Json.{Json}
use v2_xrpl_tools.Notification.Data.{NotificationChannel}

pub record TraitFilter : Type 0 where
  pub trait_type : String
  pub value : Json
  pub operator : String

pub record AlertConfigEntity : Type 0 where
  pub id : String
  pub user_id : String
  pub name : String
  pub collection_id : Option String
  pub activity_types : List String
  pub min_price_drops : Option String
  pub max_price_drops : Option String
  pub trait_filters : Option (List TraitFilter)
  pub notification_channels : List NotificationChannel
  pub is_active : Bool
  pub created_at : ℕ
  pub updated_at : ℕ

pub record AlertMatchResult : Type 0 where
  pub alert_config_id : String
  pub matched : Bool
  pub reasons : List String

pub record ActivityNft : Type 0 where
  pub collection_id : Option String
  pub traits : Option Json

-- NFTActivity, the fields that the matching reads
pub record NftActivity : Type 0 where
  pub id : String
  pub activity_type : String
  pub price_drops : Option String
  pub nft : Option ActivityNft
