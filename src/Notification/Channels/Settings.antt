-- ===== src/Notification/Channels/Settings.antt =====
-- The settings that alerts are checked for, and those that the channels read.
use v2_xrpl_tools.Prelude.{
  ◌≡◌, ap, refl, true, false, Option, none, some, inl, inr, Option-cases, String,
}
use v2_xrpl_tools.Prelude.Map.{get}
use v2_xrpl_tools.Prelude.Outcome.{done}
use v2_xrpl_tools.Notification.Data.{NotificationChannel, NotificationResult, truthy}
use v2_xrpl_tools.Notification.Webhook.{WebhookAnswer, send_webhook, failed_result, is_unset}
use v2_xrpl_tools.Notification.Webhook.Answers.{send-empty}
use v2_xrpl_tools.Notification.Channels.{
  ChannelNetwork, EmailRequest, no_recipients, send_channel, send_discord, send_email,
  recipients_of, webhook_config_of,
}
use v2_xrpl_tools.Alert.Config.{channel_error}

pub data ChannelKind : Type 0 where
  discord_kind email_kind webhook_kind : ChannelKind

abbrev pub type_of : ChannelKind → String
type_of discord_kind = "discord"
type_of email_kind = "email"
type_of webhook_kind = "webhook"

-- the setting that the check of alerts asks for, and the one that the channel's service reads
abbrev pub asked_for : ChannelKind → String
asked_for discord_kind = "discordWebhookUrl"
asked_for email_kind = "email"
asked_for webhook_kind = "webhookUrl"

abbrev pub read_by : ChannelKind → String
read_by discord_kind = "webhookUrl"
read_by email_kind = "recipients"
read_by webhook_kind = "url"

send_email-unsent :
    (http : EmailRequest → WebhookAnswer) (key : Option String)
    → (send_email http key no_recipients).success ≡ false
unfolding send_email
send_email-unsent http key = elim (Option-cases (truthy key)) [
  | inl e ↦ rw (send_email, e) refl
  | inr (k, e) ↦ rw (send_email, e) refl
]

-- A channel that has the setting that the check of alerts asks for, not empty, and has not the other
-- setting that the channel's service reads passes the check; and nothing is ever sent over it, whatever the
-- network answers and whatever else is set.
pub channel_error-send_channel :
    (net : ChannelNetwork) (k : ChannelKind) (c : NotificationChannel) (v : String)
    → c.type ≡ type_of k
    → truthy (get (asked_for k) c.config) ≡ some v
    → get (read_by k) c.config ≡ none
    → (channel_error c ≡ none)
      × ((r : NotificationResult) × ((send_channel net c ≡ done r) × (r.success ≡ false)))
unfolding channel_error send_channel send_discord send_email send_webhook recipients_of truthy
channel_error-send_channel net discord_kind c v t a r = (
  rw (channel_error, t, a) refl,
  (
    failed_result "Discord webhook URL is not configured",
    (rw (send_channel, t, send_discord, r) refl, refl),
  ),
)
channel_error-send_channel net email_kind c v t a r =
    let none_read : recipients_of c.config ≡ no_recipients = rw (recipients_of, r) refl in
    (
      rw (channel_error, t, a) refl,
      (
        send_email net.email net.api_key no_recipients,
        (rw (send_channel, t, none_read) refl, send_email-unsent net.email net.api_key),
      ),
    )
channel_error-send_channel net webhook_kind c v t a r =
    let unset : is_unset (webhook_config_of c.config).url ≡ true = rw (webhook_config_of, r) refl in
    (
      rw (channel_error, t, a) refl,
      (
        failed_result "Webhook URL is not configured",
        (
          rw (send_channel, t)
              (ap done (send-empty net.runtime net.webhook (webhook_config_of c.config) unset)),
          refl,
        ),
      ),
    )
