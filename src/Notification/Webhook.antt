-- ===== src/Notification/Webhook.antt =====
-- src/features/notifications/services/webhook-notification.service.ts: sending over a webhook, and the
-- check of its settings. The body of the request is in Webhook/Body; upper case, base64 and the parsing of
-- a URL are the runtime's, and the answer to the request is an argument.
pub mod Answers
pub mod Body
mod Tests
use v2_xrpl_tools.Prelude.{
  ℕ, ◌*◌, Bool, true, false, not, ◌&&◌, ◌||◌, Option, none, some, List, [], ◌∷◌, ◌++◌, String,
  str_eq, ltb, leb, ◌==◌, any, if◌then◌else◌, is_some,
}
use v2_xrpl_tools.Prelude.Map
use v2_xrpl_tools.Prelude.Map.{Map}
use v2_xrpl_tools.Prelude.Decimal.{show, parse_int}
use v2_xrpl_tools.Prelude.Outcome.{Outcome, done, raised}
use v2_xrpl_tools.Prelude.Words.{words}
use v2_xrpl_tools.Notification.Data.{NotificationResult}

pub record WebhookRuntime : Type 0 where
  pub to_upper_case : String → String
  pub base64 : String → String
  pub protocol : String → Option String

pub record WebhookAuth : Type 0 where
  pub kind : String
  pub token : String
  pub username : String
  pub password : String
  pub header_name : String

-- A URL and the parts of the authentication that are not set are empty.
pub record WebhookConfig : Type 0 where
  pub url : String
  pub method : Option String
  pub headers : Map String
  pub auth : Option WebhookAuth

pub record WebhookRequest : Type 0 where
  pub url : String
  pub method : String
  pub headers : Map String

-- a response, or an error with the response that it is about
pub data WebhookAnswer : Type 0 where
  response : ℕ → String → Map String → WebhookAnswer
  failed_request : String → Option (ℕ × Map String) → WebhookAnswer

abbrev pub is_unset : String → Bool
is_unset s = str_eq s ""

unfoldable pub with_auth : WebhookRuntime → WebhookAuth → Map String → Map String
unfolding Map.set
with_auth rt a h =
    if str_eq a.kind "bearer"
    then (if is_unset a.token
        then h
        else Map.set "Authorization" (words ("Bearer " ∷ a.token ∷ [])) h)
    else if str_eq a.kind "basic"
    then (if is_unset a.username || is_unset a.password
        then h
        else Map.set "Authorization"
            (words ("Basic " ∷ rt.base64 (words (a.username ∷ ":" ∷ a.password ∷ [])) ∷ [])) h)
    else if str_eq a.kind "api-key"
    then (if is_unset a.token || is_unset a.header_name then h else Map.set a.header_name a.token h)
    else h

unfoldable pub spread_headers : Map String → Map String → Map String
unfolding Map.set
spread_headers [] h = h
spread_headers ((k, v) ∷ m) h = spread_headers m (Map.set k v h)

unfoldable pub build_request_headers : WebhookRuntime → WebhookConfig → Map String
unfolding with_auth spread_headers
build_request_headers rt c =
    let h = spread_headers c.headers (
      ("Content-Type", "application/json") ∷ ("User-Agent", "XRPL-NFT-Monitor-Webhook/1.0") ∷ []) in
    elim c.auth [ none ↦ h | some a ↦ with_auth rt a h ]

abbrev pub valid_methods : List String
valid_methods = "POST" ∷ "PUT" ∷ "PATCH" ∷ []

abbrev pub is_method : String → Bool
is_method m = any (λ k. str_eq k m) valid_methods

-- The request of `sendWebhookRequest`; an unknown method throws.
unfoldable pub webhook_request : WebhookRuntime → WebhookConfig → Outcome WebhookRequest
unfolding build_request_headers
webhook_request rt c =
    let method : String = elim c.method [ none ↦ "POST" | some m ↦ m ] in
    if is_method (rt.to_upper_case method)
    then done (record {
      url = c.url;
      method = rt.to_upper_case method;
      headers = build_request_headers rt c;
    })
    else raised (words ("Unsupported HTTP method: " ∷ method ∷ []))

-- a header that is set and not empty
abbrev pub header : String → Map String → Option String
header k h = elim (Map.get k h) [ none ↦ none | some v ↦ if is_unset v then none else some v ]

abbrev pub either_header : Option String → Option String → Option String
either_header none b = b
either_header (some a) b = some a

-- NaN, which the processor takes as absent, is none.
unfoldable pub retry_after_of : Map String → Option ℕ
unfolding parse_int
retry_after_of h = elim (header "retry-after" h) [
  | none ↦ some 60000
  | some v ↦ elim (parse_int v) [ none ↦ none | some n ↦ some (n * 1000) ]
]

abbrev pub failed_result : String → NotificationResult
failed_result e = record { success = false; message_id = none; error = some e; retry_after = none }

unfoldable pub is_success : ℕ → Bool
is_success status = leb 200 status && ltb status 300

unfoldable pub read_answer : WebhookAnswer → NotificationResult
unfolding is_success retry_after_of show
read_answer (response status status_text h) =
    if is_success status
    then record {
      success = true;
      message_id = some (elim (either_header (header "x-message-id" h) (header "x-request-id" h)) [
        | none ↦ "unknown"
        | some v ↦ v
      ]);
      error = none;
      retry_after = none;
    }
    else failed_result (words ("HTTP " ∷ show status ∷ ": " ∷ status_text ∷ []))
read_answer (failed_request e none) = failed_result e
read_answer (failed_request e (some (status, h))) =
    if status == 429
    then record {
      success = false;
      message_id = none;
      error = some "Rate limited";
      retry_after = retry_after_of h;
    }
    else failed_result e

unfoldable pub send_webhook :
    WebhookRuntime → (WebhookRequest → WebhookAnswer) → WebhookConfig → NotificationResult
unfolding webhook_request read_answer
send_webhook rt http c =
    if is_unset c.url
    then failed_result "Webhook URL is not configured"
    else elim (webhook_request rt c) [ raised e ↦ failed_result e | done r ↦ read_answer (http r) ]

unfoldable pub read_test_answer : WebhookAnswer → NotificationResult
unfolding is_success show
read_test_answer (response status status_text h) =
    if is_success status
    then record {
      success = true;
      message_id = some "test-webhook";
      error = none;
      retry_after = none;
    }
    else failed_result (words ("HTTP " ∷ show status ∷ ": " ∷ status_text ∷ []))
read_test_answer (failed_request e r) = failed_result e

unfoldable pub test_webhook :
    WebhookRuntime → (WebhookRequest → WebhookAnswer) → WebhookConfig → NotificationResult
unfolding webhook_request read_test_answer
test_webhook rt http c = elim (webhook_request rt c) [
  | raised e ↦ failed_result e
  | done r ↦ read_test_answer (http r)
]

unfoldable pub validate_webhook_url : WebhookRuntime → String → Bool
validate_webhook_url rt url = elim (rt.protocol url) [
  | none ↦ false
  | some p ↦ str_eq p "http:" || str_eq p "https:"
]

unfoldable pub auth_errors : WebhookAuth → List String
auth_errors a =
    if str_eq a.kind "bearer"
    then (if is_unset a.token
        then "Bearer token is required for bearer authentication" ∷ []
        else [])
    else if str_eq a.kind "basic"
    then (if is_unset a.username || is_unset a.password
        then "Username and password are required for basic authentication" ∷ []
        else [])
    else if str_eq a.kind "api-key"
    then (if is_unset a.token || is_unset a.header_name
        then "Token and header name are required for API key authentication" ∷ []
        else [])
    else "Invalid authentication type. Must be: bearer, basic, or api-key" ∷ []

-- A method that is not set throws here.
unfoldable pub validate_webhook_config : WebhookRuntime → WebhookConfig → Outcome (List String)
unfolding validate_webhook_url auth_errors
validate_webhook_config rt c = elim c.method [
  | none ↦ raised "TypeError"
  | some m ↦ done (
      (if is_unset c.url
        then "Webhook URL is required" ∷ []
        else if validate_webhook_url rt c.url
        then []
        else "Invalid webhook URL format" ∷ [])
      ++ (if is_method (rt.to_upper_case m)
          then []
          else "Invalid HTTP method. Must be one of: POST, PUT, PATCH" ∷ [])
      ++ elim c.auth [ none ↦ [] | some a ↦ auth_errors a ])
]
