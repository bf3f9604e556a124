-- ===== src/Queue/Consumer/Tests.antt =====
-- A consumer whose handler always throws.
use v2_xrpl_tools.Prelude.{ℕ, ◌≡◌, ◌≤◌, refl, false, none, some, [], ◌∷◌, length, if◌then◌else◌}
use v2_xrpl_tools.Queue.Consumer.{
  Answer, returns, throws, ack, reject, send_to_queue, handle_message, deliveries,
}
use v2_xrpl_tools.Queue.Consumer.Settlement.{
  settlements, handle_message-settled, deliveries-bounded,
}

abbrev failing : ℕ → Answer
failing n = throws

abbrev working : ℕ → Answer
working n = returns

handle_message-settled_example :
    settlements (handle_message false throws returns (some 2)) ≡ (if false then 0 else 1)
handle_message-settled_example = handle_message-settled false throws returns (some 2)

-- Three retries, after 5, 10 and 20 seconds, and the dead letter queue.
failing_rejected :
    deliveries 9 failing working none
    ≡ (send_to_queue 5000 1 ∷ ack ∷ [])
      ∷ (send_to_queue 10000 2 ∷ ack ∷ [])
      ∷ (send_to_queue 20000 3 ∷ ack ∷ [])
      ∷ (reject ∷ [])
      ∷ []
unfolding deliveries
failing_rejected = refl

deliveries-bounded_example : length (deliveries 9 failing working none) ≤ 4
deliveries-bounded_example = deliveries-bounded failing working 9
