-- ===== src/Notification/Channels.antt =====
-- Sending over the channels of src/features/notifications/services: discord-webhook.service.ts and
-- email-notification.service.ts beside the webhooks, and the choice of notification-processor.service.ts
-- between them. The settings of a channel are texts, the bodies of the requests are left out, and the
-- answer to a request is an argument.
pub mod Settings
mod Tests
use v2_xrpl_tools.Prelude.{
  ℕ, Bool, true, false, Option, none, some, List, [], ◌∷◌, String, str_eq, ◌==◌, filter, not,
  if◌then◌else◌,
}
use v2_xrpl_tools.Prelude.Map
use v2_xrpl_tools.Prelude.Map.{Map}
use v2_xrpl_tools.Prelude.Decimal.{show}
use v2_xrpl_tools.Prelude.Outcome.{Outcome, done, raised}
use v2_xrpl_tools.Prelude.Words.{words}
use v2_xrpl_tools.Notification.Data.{NotificationChannel, NotificationResult, truthy}
use v2_xrpl_tools.Notification.Webhook.{
  WebhookRuntime, WebhookConfig, WebhookRequest, WebhookAnswer, response, failed_request,
  is_success, header, retry_after_of, failed_result, send_webhook, is_unset,
}

-- the answer to a request, where `accepted` tells the statuses that count as sent
unfoldable pub read_channel_answer : (ℕ → Bool) → WebhookAnswer → NotificationResult
unfolding retry_after_of show
read_channel_answer accepted (response status status_text h) =
    if accepted status
    then record {
      success = true;
      message_id = some (elim (header "x-message-id" h) [ none ↦ "unknown" | some v ↦ v ]);
      error = none;
      retry_after = none;
    }
    else failed_result (words ("HTTP " ∷ show status ∷ ": " ∷ status_text ∷ []))
read_channel_answer accepted (failed_request e none) = failed_result e
read_channel_answer accepted (failed_request e (some (status, h))) =
    if status == 429
    then record {
      success = false;
      message_id = none;
      error = some "Rate limited";
      retry_after = retry_after_of h;
    }
    else failed_result e

-- `http url` is the answer to the request to an address.
unfoldable pub send_discord : (String → WebhookAnswer) → Option String → NotificationResult
unfolding read_channel_answer is_success truthy
send_discord http webhook_url = elim (truthy webhook_url) [
  | none ↦ failed_result "Discord webhook URL is not configured"
  | some url ↦ read_channel_answer is_success (http url)
]

-- `config.recipients`, which can be missing, or no list
pub data Recipients : Type 0 where
  no_recipients : Recipients
  recipients : List String → Recipients
  not_a_list : Recipients

pub record EmailRequest : Type 0 where
  pub authorization : String
  pub to : List String

unfoldable pub send_email :
    (EmailRequest → WebhookAnswer) → Option String → Recipients → NotificationResult
unfolding read_channel_answer truthy
send_email http api_key r = elim (truthy api_key) [
  | none ↦ failed_result "SendGrid API key is not configured"
  | some key ↦ elim r [
    | no_recipients ↦ failed_result "No email recipients configured"
    | recipients [] ↦ failed_result "No email recipients configured"
    | not_a_list ↦ failed_result "config.recipients.map is not a function"
    | recipients (a ∷ more) ↦
        read_channel_answer (λ status. status == 202)
          (http (record { authorization = words ("Bearer " ∷ key ∷ []); to = a ∷ more }))
  ]
]

-- the recipients among settings that are texts
unfoldable pub recipients_of : Map String → Recipients
unfolding truthy
recipients_of m = elim (truthy (Map.get "recipients" m)) [
  | none ↦ no_recipients
  | some t ↦ not_a_list
]

abbrev pub webhook_config_of : Map String → WebhookConfig
webhook_config_of m = record {
  url = elim (Map.get "url" m) [ none ↦ "" | some u ↦ u ];
  method = Map.get "method" m;
  headers = [];
  auth = none;
}

-- What the channels answer to requests.
pub record ChannelNetwork : Type 0 where
  pub runtime : WebhookRuntime
  pub api_key : Option String
  pub discord : String → WebhookAnswer
  pub email : EmailRequest → WebhookAnswer
  pub webhook : WebhookRequest → WebhookAnswer

unfoldable pub send_channel : ChannelNetwork → NotificationChannel → Outcome NotificationResult
unfolding send_discord send_email send_webhook recipients_of
send_channel net c =
    if str_eq c.type "discord"
    then done (send_discord net.discord (Map.get "webhookUrl" c.config))
    else if str_eq c.type "email"
    then done (send_email net.email net.api_key (recipients_of c.config))
    else if str_eq c.type "webhook"
    then done (send_webhook net.runtime net.webhook (webhook_config_of c.config))
    else raised (words ("Unsupported notification channel: " ∷ c.type ∷ []))

-- `validateEmailAddresses`, for the test of one address: the valid ones, and the others
unfoldable pub validate_email_addresses : (String → Bool) → List String → List String × List String
validate_email_addresses is_valid emails =
    (filter is_valid emails, filter (λ e. not (is_valid e)) emails)
