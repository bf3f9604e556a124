-- ===== src/Notification/Channels/Tests.antt =====
-- A network that accepts everything.
use v2_xrpl_tools.Prelude.{◌≡◌, refl, true, false, some, none, [], ◌∷◌}
use v2_xrpl_tools.Prelude.Map
use v2_xrpl_tools.Prelude.Outcome.{done}
use v2_xrpl_tools.Notification.Data.{NotificationChannel, NotificationResult, truthy}
use v2_xrpl_tools.Notification.Webhook.{response}
use v2_xrpl_tools.Notification.Channels.{ChannelNetwork, send_channel, send_email, recipients}
use v2_xrpl_tools.Notification.Channels.Settings.{discord_kind, channel_error-send_channel}
use v2_xrpl_tools.Alert.Config.{channel_error}

abbrev accepting : ChannelNetwork
accepting = record {
  runtime = record { to_upper_case = λ s. s; base64 = λ s. s; protocol = λ s. some "https:" };
  api_key = some "key";
  discord = λ url. response 204 "" [];
  email = λ r. response 202 "" [];
  webhook = λ r. response 200 "" [];
}

-- a channel for Discord with the address under the name that the check knows, and a color
abbrev checked_channel : NotificationChannel
checked_channel = record {
  type = "discord";
  enabled = true;
  config = ("color", "red") ∷ ("discordWebhookUrl", "https://d") ∷ [];
}

channel_error-send_channel_example :
    (channel_error checked_channel ≡ none)
    × ((r : NotificationResult) × ((send_channel accepting checked_channel ≡ done r)
          × (r.success ≡ false)))
channel_error-send_channel_example =
    channel_error-send_channel accepting discord_kind checked_channel "https://d" refl
      (unfold truthy Map.get in refl) (unfold Map.get in refl)

-- With the setting that the channel reads, the message is sent.
sent_with_webhook_url :
    send_channel accepting
      (record { type = "discord"; enabled = true; config = ("webhookUrl", "https://d") ∷ [] })
    ≡ done
        (record { success = true; message_id = some "unknown"; error = none; retry_after = none })
unfolding send_channel Map.get
sent_with_webhook_url = refl

sent_by_email : (send_email accepting.email (some "key") (recipients ("a@x" ∷ []))).success ≡ true
unfolding send_email
sent_by_email = refl
