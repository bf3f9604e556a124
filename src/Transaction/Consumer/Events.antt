-- ===== src/Transaction/Consumer/Events.antt =====
-- What comes out of the queue, compared with what the stream put in.
use v2_xrpl_tools.Prelude.{
  ℕ, ◌≡◌, refl, sym, ap, ◌∙◌, true, false, Option, none, some, [], ◌∷◌, Bool-cases, inl, inr, arith,
}
use v2_xrpl_tools.Prelude.Outcome.{Outcome, done, raised}
use v2_xrpl_tools.Prelude.Json.{
  Json, null, boolean, number, text, array, object, field_of, lookup, or_else, is_truthy,
}
use v2_xrpl_tools.Queue.Consumer.{Answer, ack, handle_message}
use v2_xrpl_tools.Transaction.Messages.{unwrap}
use v2_xrpl_tools.Xrpl.Relay.{
  TransactionStreamMessage, transaction_message, transaction_event_data, value_or, is_object,
}
use v2_xrpl_tools.Transaction.Consumer.{
  raw_message, process_raw_transaction, caught_pipeline, ConsumedEvent, handle_transaction_event,
  handle_nft_event, handle_ledger_event, Subscription, transactions, nfts, ledgers, handler_of,
  consume_event, answer_of,
}

caught_pipeline-done : (o : Outcome (Unit {0})) → caught_pipeline o ≡ done tt
caught_pipeline-done (done x) = refl
caught_pipeline-done (raised e) = refl

handler_of-done :
    (k : Subscription) (pipeline : Json → Outcome (Unit {0})) (e : ConsumedEvent)
    → handler_of k pipeline e ≡ done tt
unfolding handler_of handle_transaction_event process_raw_transaction handle_nft_event
    handle_ledger_event
handler_of-done transactions pipeline e =
    grind (arith, caught_pipeline-done (pipeline (raw_message e.event_data)))
handler_of-done nfts pipeline e = grind arith
handler_of-done ledgers pipeline e = grind arith

-- Every event that reaches a consumer of the service is acknowledged, whatever its type and whatever becomes
-- of it: also one that the pipeline throws on, so that the queue's retries are never used.
pub consume_event-acknowledged :
    (k : Subscription) (pipeline : Json → Outcome (Unit {0})) (broker : Answer) (retries : Option ℕ)
    (e : ConsumedEvent)
    → consume_event k pipeline broker retries e ≡ ack ∷ []
unfolding consume_event handle_message
consume_event-acknowledged k pipeline broker retries e =
    ap (λ o. handle_message false (answer_of o) broker retries) (handler_of-done k pipeline e)

or_else-value_or : (o : Option Json) (d : Json) → or_else o (some d) ≡ some (value_or o d)
unfolding or_else
or_else-value_or none d = refl
or_else-value_or (some v) d = elim (Bool-cases (is_truthy v)) [
  | inl e ↦ rw (e) refl
  | inr e ↦ rw (e) refl
]

object_truthy : (v : Json) → is_object v ≡ true → is_truthy v ≡ true
object_truthy null h = h
object_truthy (boolean b) h = absurd (grind arith)
object_truthy (number n) h = absurd (grind arith)
object_truthy (text s) h = absurd (grind arith)
object_truthy (array e) h = refl
object_truthy (object f) h = refl

transaction_message-inv :
    (m : Json) (s : TransactionStreamMessage)
    → transaction_message m ≡ some s
    → (s.transaction ≡ value_or (field_of "transaction" (some m)) m)
      × ((is_object s.transaction ≡ true)
          × (s.ledger_index ≡ value_or (field_of "ledger_index" (some m)) (number "0")))
unfolding transaction_message
transaction_message-inv m s h = elim (Bool-cases (is_object m)) [
  | inr e ↦ absurd (grind arith)
  | inl e ↦ elim (Bool-cases (is_object (value_or (field_of "transaction" (some m)) m))) [
    | inr f ↦ absurd (grind arith)
    | inl f ↦ (grind arith, (grind arith, grind arith))
  ]
]

-- A transaction that the relay takes from the stream comes through the queue into the pipeline as it was: the
-- pipeline finds the same transaction in the message as in the one of the stream, and its ledger index, or 0.
-- But it is always marked as validated, also where the stream says that it is not.
pub raw_message-relayed :
    (m : Json) (s : TransactionStreamMessage)
    → transaction_message m ≡ some s
    → let raw = some (raw_message (transaction_event_data s)) in
      (unwrap "transaction" raw ≡ unwrap "transaction" (some m))
      × ((field_of "ledger_index" raw
            ≡ some (value_or (field_of "ledger_index" (some m)) (number "0")))
          × (field_of "validated" raw ≡ some (boolean true)))
unfolding raw_message transaction_event_data unwrap field_of lookup or_else
raw_message-relayed m s h =
    let (same, (taken, index)) = transaction_message-inv m s h in
    let truthy = object_truthy s.transaction taken in
    (
      rw (truthy) (ap some same ∙ sym (or_else-value_or (field_of "transaction" (some m)) m)),
      (ap some index, refl),
    )
