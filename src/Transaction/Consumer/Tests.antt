-- ===== src/Transaction/Consumer/Tests.antt =====
-- A transaction of the stream on its way through the queue.
use v2_xrpl_tools.Prelude.{◌≡◌, refl, true, false, some, [], ◌∷◌}
use v2_xrpl_tools.Prelude.Outcome.{done}
use v2_xrpl_tools.Prelude.Json.{Json, boolean, number, text, object, closed, field, field_of}
use v2_xrpl_tools.Queue.Consumer.{throws}
use v2_xrpl_tools.Transaction.Messages.{unwrap}
use v2_xrpl_tools.Xrpl.Relay.{
  TransactionStreamMessage, transaction_message, transaction_event_data, ledger_message,
  relay_transaction,
}
use v2_xrpl_tools.Transaction.Consumer.{raw_message}
use v2_xrpl_tools.Transaction.Consumer.Events.{raw_message-relayed}

abbrev minted : Json
minted = object (field "TransactionType" (text "NFTokenMint") closed)

abbrev streamed : Json
streamed = object (
    field "transaction" minted
      (field "ledger_index" (number "7") (field "validated" (boolean false) closed)))

abbrev message : TransactionStreamMessage
message = record {
  transaction = minted;
  meta = object closed;
  engine_result = text "tesSUCCESS";
  engine_result_code = number "0";
  engine_result_message = text "";
  ledger_hash = text "";
  ledger_index = number "7";
  validated = false;
}

raw_message-relayed_example :
    let raw = some (raw_message (transaction_event_data message)) in
    (unwrap "transaction" raw ≡ unwrap "transaction" (some streamed))
    × ((field_of "ledger_index" raw ≡ some (number "7"))
        × (field_of "validated" raw ≡ some (boolean true)))
unfolding transaction_message
raw_message-relayed_example = raw_message-relayed streamed message refl

-- A publisher that throws loses the transaction for the queue; the subscribers are told.
lost_for_queue :
    relay_transaction throws streamed (record { subscribers = "a" ∷ []; queued = []; told = [] })
    ≡ record { subscribers = "a" ∷ []; queued = []; told = ("a", message) ∷ [] }
unfolding relay_transaction
lost_for_queue = refl

validated_range :
    ledger_message "0" (
      object (
        field "ledger_index"
          (number "7")
          (field "ledger_hash" (text "H") (field "validated_ledgers" (text "3-9") closed))))
    ≡ done (
        some (record {
          ledger_hash = "H";
          ledger_index = "7";
          ledger_time = number "0";
          txn_count = number "0";
          validated_ledger_index = text "9";
        }))
unfolding ledger_message
validated_range = refl
