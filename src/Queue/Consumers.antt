-- ===== src/Queue/Consumers.antt =====
-- src/modules/queue/services/event-consumer.service.ts: the consumers that are started and cancelled.
-- The channel and the broker's answers are handed in.
pub mod Cancellation
use v2_xrpl_tools.Prelude.{ℕ, Option, none, some, List, [], ◌∷◌, String}
use v2_xrpl_tools.Prelude.Map
use v2_xrpl_tools.Prelude.Map.{Map}
use v2_xrpl_tools.Prelude.Outcome.{Outcome, done, raised}
use v2_xrpl_tools.Queue.Consumer.{Answer, returns, throws}

pub record ConsumerTag : Type 0 where
  pub queue : String
  pub consumer_tag : String

abbrev pub ConsumerMap : Type 0
ConsumerMap = Map ConsumerTag

-- The broker gives the tag of the new consumer, or throws.
unfoldable pub consume :
    Option ℕ → Outcome String → String → ConsumerMap → Outcome ConsumerTag × ConsumerMap
consume none broker queue m = (raised "Failed to consume from queue", m)
consume (some channel) (raised e) queue m = (raised "Failed to consume from queue", m)
consume (some channel) (done t) queue m =
    let tag : ConsumerTag = record { queue = queue; consumer_tag = t } in
    (done tag, Map.set t tag m)

unfoldable pub cancel_consumer : Option ℕ → (String → Answer) → String → ConsumerMap → ConsumerMap
cancel_consumer none broker tag m = m
cancel_consumer (some channel) broker tag m = elim (broker tag) [
  | returns ↦ Map.delete tag m
  | throws ↦ m
]

abbrev pub keys : ConsumerMap → List String
keys [] = []
keys ((k, t) ∷ m) = k ∷ keys m

-- the cancellations of some tags, which do not touch each other's
unfoldable pub cancel_each : Option ℕ → (String → Answer) → List String → ConsumerMap → ConsumerMap
unfolding cancel_consumer
cancel_each channel broker [] m = m
cancel_each channel broker (t ∷ ts) m =
    cancel_each channel broker ts (cancel_consumer channel broker t m)

unfoldable pub cancel_all_consumers : Option ℕ → (String → Answer) → ConsumerMap → ConsumerMap
unfolding cancel_each
cancel_all_consumers channel broker m = cancel_each channel broker (keys m) m
