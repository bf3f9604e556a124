-- ===== src/Notification/Webhook/Body.antt =====
-- The body that a webhook gets: `buildWebhookPayload` and `formatActivityData`, and the fixed body of
-- `testWebhook`. Times as texts, the price in XRP, which the code reckons in floating point, and the
-- reading of the metadata's text are the runtime's.
use v2_xrpl_tools.Prelude.{ℕ, Option, none, some, String, true}
use v2_xrpl_tools.Prelude.Decimal.{show}
use v2_xrpl_tools.Prelude.Json.{
  Json, null, boolean, number, text, object, Fields, closed, field, with_field,
}
use v2_xrpl_tools.Notification.Data.{
  Collection, Nft, ActivityData, NotificationPayload, truthy, NotificationResult,
}
use v2_xrpl_tools.Notification.Webhook.{
  WebhookRuntime, WebhookRequest, WebhookAnswer, WebhookConfig, send_webhook,
}

pub record BodyRuntime : Type 0 where
  pub iso : ℕ → String
  pub price_xrp : String → String
  pub parsed : String → Json

-- a text that `...(value && { name: value })` copies
abbrev pub text_of : Option String → Option Json
text_of s = elim (truthy s) [ none ↦ none | some t ↦ some (text t) ]

unfoldable pub collection_body : Collection → Json
unfolding truthy
collection_body c = object (
    field "id" (text c.id) (
      field "issuerAddress" (text c.issuer_address)
        (field "taxon" (number (show c.taxon)) (with_field "name" (text_of c.name) closed))))

module _ (rt : BodyRuntime) where
  abbrev pub metadata_body : Option String → Option Json
  metadata_body m = elim m [ none ↦ none | some t ↦ some (rt.parsed t) ]

  unfoldable pub nft_body : Nft → Json
  unfolding truthy collection_body
  nft_body n = object (
      field "id" (text n.id) (
        field "nftId" (text n.nft_id) (
          field "ownerAddress" (text n.owner_address) (
            with_field "imageUrl" (text_of n.image_url) (
              with_field "metadata" (metadata_body n.metadata) (
                with_field "collection"
                  (elim n.collection [ none ↦ none | some c ↦ some (collection_body c) ])
                  closed))))))

  -- the price in drops, and with it the price in XRP
  abbrev pub price_body : Option String → Fields → Fields
  price_body price f = elim (truthy price) [
    | none ↦ f
    | some p ↦ field "priceDrops" (text p) (field "priceXRP" (text (rt.price_xrp p)) f)
  ]

  unfoldable pub format_activity_data : ActivityData → Json
  unfolding truthy nft_body
  format_activity_data d = object (
      field "id" (text d.activity_type) (
        field "type" (text d.activity_type) (
          field "transactionHash" (text d.transaction_hash) (
            field "ledgerIndex" (elim d.ledger_index [ none ↦ null | some n ↦ number (show n) ])
              (field "timestamp" (text (rt.iso d.timestamp)) (
                with_field "fromAddress" (text_of d.from_address) (
                  with_field "toAddress" (text_of d.to_address) (
                    price_body d.price_drops (
                      with_field "currency" (text_of d.currency) (
                        with_field "issuer" (text_of d.issuer) (
                          with_field "nft" (elim d.nft [ none ↦ none | some n ↦ some (nft_body n) ])
                            closed)))))))))))

  abbrev pub webhook_head : String → String → ℕ → Json
  webhook_head id kind now = object (
      field "id" (text id) (
        field "timestamp" (text (rt.iso now))
          (field "type" (text kind) (field "version" (text "1.0") closed))))

  unfoldable pub build_webhook_payload : ℕ → NotificationPayload → Json
  unfolding format_activity_data
  build_webhook_payload now p = object (
      field "webhook" (webhook_head p.id "nft_activity_alert" now) (
        field "alert"
          (object (
            field "id" (text p.alert_config_id) (
              field "userId" (text p.user_id)
                (field "triggeredAt" (text (rt.iso p.scheduled_at)) closed))))
          (field "activity" (format_activity_data p.activity) closed)))

  unfoldable pub test_payload : ℕ → Json
  test_payload now = object (
      field "webhook" (webhook_head "test-webhook" "test" now) (
        field "message" (text "This is a test webhook from XRPL NFT Monitor")
          (field "test" (boolean true) closed)))

  -- `sendNotification`: the answer hangs on the body and the request.
  unfoldable pub send_notification :
      WebhookRuntime
      → (Json → WebhookRequest → WebhookAnswer)
      → ℕ
      → WebhookConfig
      → NotificationPayload
      → NotificationResult
  unfolding build_webhook_payload send_webhook
  send_notification runtime http now c p =
      send_webhook runtime (http (build_webhook_payload now p)) c
