-- ===== src/Xrpl/Backfill.antt =====
-- `backfillLedgerRange` of src/modules/xrpl-connection/services/xrpl-connection-manager.service.ts:
-- the ledgers of a gap are asked for again, and their transactions passed on. The node's answers to
-- the attempts for a ledger are a parameter, and so is the publisher's answer to a message.
pub mod Messages
pub mod Recovery
use v2_xrpl_tools.Prelude.{
  ℕ, zero, suc, ◌+◌, ◌-◌, ◌≤◌, ◌<◌, ◌≡◌, refl, sym, ap, ◌∙◌, subst, inl, inr, Bool, true, false,
  Option, none, some, List, [], ◌∷◌, ◌++◌, String, map, length, take, take-all, take-append, arith,
  if◌then◌else◌, Bool-cases,
}
use v2_xrpl_tools.Prelude.Outcome.{Outcome, done, raised, outcome_cases}
use v2_xrpl_tools.Prelude.Json.{
  Json, null, boolean, number, text, array, object, Elements, end, element, closed, field, field_of,
  with_field, when_truthy,
}
use v2_xrpl_tools.Queue.Consumer.{Answer}
use v2_xrpl_tools.Xrpl.Retry.{RetryOptions, retry}
use v2_xrpl_tools.Xrpl.Nodes.{XrplNode, Manager, Network, get_healthy_connection}
use v2_xrpl_tools.Xrpl.Ledgers.{Ledgers, finish_backfill}
use v2_xrpl_tools.Xrpl.Relay.{Relay, value_or, relay_transaction}

-- the options of the retries
abbrev pub retry_options : RetryOptions
retry_options = record { retries = 5; min_timeout = 1000; max_timeout = 30000; factor = 2 }

abbrev pub listed : Elements → List Json
listed end = []
listed (element v rest) = v ∷ listed rest

-- The transactions of an answer. What is there and is no list throws; the letters of a text are
-- no transactions.
unfoldable pub transactions_of : Json → Outcome (List Json)
unfolding field_of
transactions_of null = raised "TypeError"
transactions_of result =
    elim (when_truthy (field_of "transactions" (when_truthy (field_of "ledger" (some result))))) [
      | none ↦ done []
      | some (array e) ↦ done (listed e)
      | some (text s) ↦ done []
      | some v ↦ raised "TypeError"
    ]

-- what `handleTransaction` gets for a transaction of a ledger
unfoldable pub backfilled_message : Option Json → Json → Json
unfolding field_of
backfilled_message ledger tx = object (
    field "transaction" tx (
      with_field "meta" (field_of "metaData" (some tx)) (
        field "engine_result" (value_or (field_of "engine_result" (some tx)) (text "tesSUCCESS")) (
          field "engine_result_code"
            (value_or (field_of "engine_result_code" (some tx)) (number "0"))
            (field "engine_result_message"
              (value_or (field_of "engine_result_message" (some tx)) (text ""))
              (with_field "ledger_hash" (field_of "ledger_hash" ledger) (
                with_field "ledger_index" (field_of "ledger_index" ledger)
                  (field "validated" (boolean true) closed))))))))

abbrev pub is_null : Json → Bool
is_null null = true
is_null _ = false

-- the answer for a ledger, after the retries
abbrev pub fetched : (ℕ → ℕ → Outcome Json) → ℕ → Outcome Json
unfolding retry
fetched fetch i = (retry retry_options (fetch i)).0

module _ (publisher : Json → Answer) where
  -- the transactions of one ledger, up to one that is null and throws
  unfoldable pub relay_ledger : Option Json → List Json → Relay → Bool × Relay
  unfolding backfilled_message relay_transaction
  relay_ledger ledger [] s = (true, s)
  relay_ledger ledger (tx ∷ rest) s =
      let m = backfilled_message ledger tx in
      let later = relay_ledger ledger rest (relay_transaction (publisher m) m s) in
      if is_null tx then (false, s) else later

  abbrev pub relay_fetched : Json → Relay → Bool × Relay
  relay_fetched result s = elim (transactions_of result) [
    | raised e ↦ (false, s)
    | done txs ↦ relay_ledger (field_of "ledger" (some result)) txs s
  ]

  -- the loop over `n` ledgers from ledger `i` on
  unfoldable pub backfill_from : (ℕ → ℕ → Outcome Json) → ℕ → ℕ → Relay → Bool × Relay
  unfolding retry transactions_of relay_ledger
  backfill_from fetch zero i s = (true, s)
  backfill_from fetch (suc n) i s = elim (fetched fetch i) [
    | raised e ↦ (false, s)
    | done result ↦
        let r = relay_fetched result s in
        let later = backfill_from fetch n (suc i) r.1 in if r.0 then later else r
  ]

-- whether the call returned, and what it left
pub record BackfillRun : Type 0 where
  pub succeeded : Bool
  pub manager : Manager
  pub ledgers : Ledgers
  pub relay : Relay

-- `answers url i a` is what a node answers to attempt `a` for ledger `i`.
unfoldable pub backfill_ledger_range :
    Network
    → (Json → Answer)
    → (String → ℕ → ℕ → Outcome Json)
    → ℕ
    → ℕ
    → Manager
    → Ledgers
    → Relay
    → BackfillRun
unfolding get_healthy_connection backfill_from finish_backfill
backfill_ledger_range net publisher answers start last m l r =
    let (found, m') = get_healthy_connection net m in
    elim found [
      | none ↦ record { succeeded = false; manager = m'; ledgers = l; relay = r }
      | some n ↦
          let (ok, r') = backfill_from publisher (answers n.url) (suc last - start) start r in
          record {
            succeeded = ok;
            manager = m';
            ledgers = if ok then finish_backfill start last l else l;
            relay = r';
          }
    ]
