-- ===== src/Queue/Consumer.antt =====
-- src/modules/queue/services/event-consumer.service.ts: what a consumer does with one delivery, and
-- with a message over all of its deliveries. The handler's answer (an event that does not parse
-- throws as well) and the broker's are handed in; an acknowledgement itself does not throw.
pub mod Settlement
mod Tests
use v2_xrpl_tools.Prelude.{
  ℕ, zero, suc, ◌+◌, ◌-◌, ◌*◌, ◌^◌, min, ◌≡◌, Bool, true, false, Option, none, some, List, [], ◌∷◌,
  ◌++◌, ltb, if◌then◌else◌,
}

abbrev pub default_retry_attempts : ℕ
default_retry_attempts = 3

abbrev pub default_retry_delay : ℕ
default_retry_delay = 5000

abbrev pub max_retry_delay : ℕ
max_retry_delay = 300000

-- A call returns or throws.
pub data Answer : Type 0 where
  returns throws : Answer

-- What the channel is told: the copy of a message waits for `delay` in a temporary queue, with its
-- new retry count, before it comes back.
pub data Action : Type 0 where
  ack reject : Action
  send_to_queue : (delay retry_count : ℕ) → Action

-- The header `x-retry-count`, where it is there and not zero.
unfoldable pub get_retry_count : Option ℕ → ℕ
get_retry_count none = 0
get_retry_count (some n) = n

unfoldable pub retry_delay : ℕ → ℕ
retry_delay retry_count = min (default_retry_delay * 2 ^ (retry_count - 1)) max_retry_delay

-- The broker makes the temporary queue and takes the copy, or throws.
unfoldable pub requeue_with_retry : Answer → ℕ → List Action
unfolding retry_delay
requeue_with_retry returns retry_count =
    send_to_queue (retry_delay retry_count) retry_count ∷ ack ∷ []
requeue_with_retry throws retry_count = reject ∷ []

-- The callback of `channel.consume` for one message.
unfoldable pub handle_message : Bool → Answer → Answer → Option ℕ → List Action
unfolding get_retry_count requeue_with_retry
handle_message no_ack returns broker header = if no_ack then [] else ack ∷ []
handle_message no_ack throws broker header =
    if no_ack
    then []
    else if ltb (get_retry_count header) default_retry_attempts
    then requeue_with_retry broker (get_retry_count header + 1)
    else reject ∷ []

-- the retry count with which the message comes back
unfoldable pub returned : List Action → Option ℕ
returned [] = none
returned (send_to_queue delay n ∷ rest) = some n
returned (ack ∷ rest) = returned rest
returned (reject ∷ rest) = returned rest

-- A message over its deliveries, on fuel: the answers are those of each delivery.
unfoldable pub deliveries : ℕ → (ℕ → Answer) → (ℕ → Answer) → Option ℕ → List (List Action)
unfolding handle_message returned
deliveries zero handler broker header = []
deliveries (suc fuel) handler broker header =
    let n = get_retry_count header in
    let actions = handle_message false (handler n) (broker n) header in
    let later = deliveries fuel handler broker (returned actions) in
    elim (returned actions) [ none ↦ actions ∷ [] | some m ↦ actions ∷ later ]
