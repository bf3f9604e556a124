-- ===== src/Notification/Webhook/Tests.antt =====
-- Webhooks at concrete inputs.
use v2_xrpl_tools.Prelude.{ℕ, ◌≤◌, ◌<◌, ◌≡◌, refl, none, some, [], ◌∷◌, String}
use v2_xrpl_tools.Prelude.Outcome.{done}
use v2_xrpl_tools.Prelude.Map
use v2_xrpl_tools.Prelude.Map.{Map}
use v2_xrpl_tools.Notification.Webhook.{
  WebhookRuntime, WebhookAuth, WebhookConfig, WebhookRequest, WebhookAnswer, response,
  failed_request, send_webhook, read_answer, webhook_request,
}
use v2_xrpl_tools.Notification.Webhook.Answers.{send_webhook-success}

abbrev plain : WebhookRuntime
plain = record { to_upper_case = λ s. s; base64 = λ s. s; protocol = λ s. some "https:" }

abbrev api_key : WebhookAuth
api_key = record {
  kind = "api-key";
  token = "t";
  username = "";
  password = "";
  header_name = "X-Key";
}

abbrev config : WebhookConfig
config = record { url = "https://x"; method = none; headers = []; auth = some api_key }

-- the other side answers to those who have the key
abbrev guarded : WebhookRequest → WebhookAnswer
guarded r = elim (Map.get "X-Key" r.headers) [
  | some k ↦ response 204 "No Content" []
  | none ↦ failed_request "Request failed with status code 401" (some (401, []))
]

rate_limited :
    (read_answer (failed_request "429" (some (429, ("retry-after", "7") ∷ [])))).retry_after
    ≡ some 7000
unfolding read_answer Map.get
rate_limited = refl

send_webhook-success_example :
    (r : WebhookRequest) × ((webhook_request plain config ≡ done r)
      × ((r.url ≡ "https://x")
          × ((status : ℕ) × (text : String) × (h : Map String) × ((guarded r
                  ≡ response status text h)
                × ((200 ≤ status) × (status < 300))))))
unfolding send_webhook Map.get
send_webhook-success_example = send_webhook-success plain guarded config refl
