-- ===== src/Notification/Webhook/Answers.antt =====
-- When a webhook counts as sent.
use v2_xrpl_tools.Prelude.{
  ℕ, ◌≤◌, ◌<◌, ◌≡◌, ◌⊎◌, inl, inr, refl, sym, ap, ◌∙◌, true, false, ◌||◌, none, some, [], ◌∷◌,
  String, str_eq, Bool-cases, arith,
}
use v2_xrpl_tools.Prelude.Map
use v2_xrpl_tools.Prelude.Map.{Map, get-set-same}
use v2_xrpl_tools.Prelude.Outcome.{done, raised, outcome_cases}
use v2_xrpl_tools.Prelude.Words.{words}
use v2_xrpl_tools.Notification.Data.{NotificationResult}
use v2_xrpl_tools.Notification.Webhook.{
  WebhookRuntime, WebhookAuth, WebhookConfig, WebhookRequest, WebhookAnswer, response,
  failed_request, is_unset, webhook_request, read_answer, is_success, send_webhook, auth_errors,
  failed_result, with_auth,
}

read_answer-success :
    (a : WebhookAnswer)
    → (read_answer a).success ≡ true
    → (status : ℕ) × (text : String) × (h : Map String) × ((a ≡ response status text h)
        × ((200 ≤ status) × (status < 300)))
unfolding read_answer is_success
read_answer-success (response status text h) e =
    (status, text, h, (refl, (ground arith, ground arith)))
read_answer-success (failed_request m none) e = grind arith
read_answer-success (failed_request m (some (status, h))) e = grind arith

pub send-empty :
    (rt : WebhookRuntime) (http : WebhookRequest → WebhookAnswer) (c : WebhookConfig)
    → is_unset c.url ≡ true
    → send_webhook rt http c ≡ failed_result "Webhook URL is not configured"
unfolding send_webhook
send-empty rt http c k = rw (send_webhook, k) refl

send-refused :
    (rt : WebhookRuntime) (http : WebhookRequest → WebhookAnswer) (c : WebhookConfig) (m : String)
    → is_unset c.url ≡ false
    → webhook_request rt c ≡ raised m
    → send_webhook rt http c ≡ failed_result m
unfolding send_webhook
send-refused rt http c m k e = rw (send_webhook, k, e) refl

send-made :
    (rt : WebhookRuntime) (http : WebhookRequest → WebhookAnswer) (c : WebhookConfig)
    (r : WebhookRequest)
    → is_unset c.url ≡ false
    → webhook_request rt c ≡ done r
    → send_webhook rt http c ≡ read_answer (http r)
unfolding send_webhook
send-made rt http c r k e = rw (send_webhook, k, e) refl

webhook_request-url :
    (rt : WebhookRuntime) (c : WebhookConfig) (r : WebhookRequest)
    → webhook_request rt c ≡ done r
    → r.url ≡ c.url
unfolding webhook_request
webhook_request-url rt c r h = grind arith

failed-not_success :
    (o : NotificationResult) (m : String) → o ≡ failed_result m → o.success ≡ true → false ≡ true
failed-not_success o m e h = sym (ap (λ (r : NotificationResult). r.success) e) ∙ h

-- A webhook is reported as sent only where the settings give a request, with their address, and the answer
-- to that request was a response with a status from 200 to 299.
pub send_webhook-success :
    (rt : WebhookRuntime) (http : WebhookRequest → WebhookAnswer) (c : WebhookConfig)
    → (send_webhook rt http c).success ≡ true
    → (r : WebhookRequest) × ((webhook_request rt c ≡ done r)
        × ((r.url ≡ c.url)
            × ((status : ℕ) × (text : String) × (h : Map String) × ((http r
                    ≡ response status text h)
                  × ((200 ≤ status) × (status < 300))))))
send_webhook-success rt http c e = elim (Bool-cases (is_unset c.url)) [
  | inl k ↦
      let no = failed-not_success (send_webhook rt http c) _ (send-empty rt http c k) e in
      absurd (grind (arith, no))
  | inr k ↦ elim (outcome_cases (webhook_request rt c)) [
    | inl (m, f) ↦
        let no = failed-not_success (send_webhook rt http c) m (send-refused rt http c m k f) e in
        absurd (grind (arith, no))
    | inr (r, f) ↦
        let sent =
          sym (ap (λ (q : NotificationResult). q.success) (send-made rt http c r k f)) ∙ e in
        let (status, text, h, (a, b)) = read_answer-success (http r) sent in
        (r, (f, (webhook_request-url rt c r f, (status, text, h, (a, b)))))
  ]
]

-- Settings of an authentication without errors put it into the request: there is a header for it, which is
-- the one named Authorization, or for a key of an API the one that the settings name, with the key itself.
pub with_auth-set :
    (rt : WebhookRuntime) (a : WebhookAuth) (h : Map String)
    → auth_errors a ≡ []
    → (k : String) × (v : String) × ((Map.get k (with_auth rt a h) ≡ some v)
        × ((k ≡ "Authorization") ⊎ ((k ≡ a.header_name) × (v ≡ a.token))))
unfolding auth_errors with_auth
with_auth-set rt a h e = elim (Bool-cases (str_eq a.kind "bearer")) [
  | inl k ↦ elim (Bool-cases (is_unset a.token)) [
    | inl m ↦ grind arith
    | inr m ↦ (
      "Authorization",
      words ("Bearer " ∷ a.token ∷ []),
      (rw (k, m) (get-set-same "Authorization" _ h), inl refl),
    )
  ]
  | inr k ↦ elim (Bool-cases (str_eq a.kind "basic")) [
    | inl l ↦ elim (Bool-cases (is_unset a.username || is_unset a.password)) [
      | inl m ↦ grind arith
      | inr m ↦ (
        "Authorization",
        words ("Basic " ∷ rt.base64 (words (a.username ∷ ":" ∷ a.password ∷ [])) ∷ []),
        (rw (k, l, m) (get-set-same "Authorization" _ h), inl refl),
      )
    ]
    | inr l ↦ elim (Bool-cases (str_eq a.kind "api-key")) [
      | inr n ↦ grind arith
      | inl n ↦ elim (Bool-cases (is_unset a.token || is_unset a.header_name)) [
        | inl m ↦ grind arith
        | inr m ↦ (
          a.header_name,
          a.token,
          (rw (k, l, n, m) (get-set-same a.header_name a.token h), inr (refl, refl)),
        )
      ]
    ]
  ]
]
