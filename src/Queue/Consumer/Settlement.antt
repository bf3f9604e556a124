-- ===== src/Queue/Consumer/Settlement.antt =====
-- Every delivery is settled once, and a message is delivered at most four times.
use v2_xrpl_tools.Prelude.{
  ℕ, zero, suc, ◌+◌, ◌≡◌, ◌≤◌, refl, Bool, true, false, Option, none, some, List, [], ◌∷◌, length,
  ltb, if◌then◌else◌, arith, inl, inr, Bool-cases,
}
use v2_xrpl_tools.Queue.Consumer.{
  Answer, returns, throws, Action, ack, reject, send_to_queue, get_retry_count, requeue_with_retry,
  handle_message, returned, deliveries,
}

-- how often a message is acknowledged or rejected
abbrev pub settlements : List Action → ℕ
settlements [] = 0
settlements (ack ∷ rest) = suc (settlements rest)
settlements (reject ∷ rest) = suc (settlements rest)
settlements (send_to_queue delay n ∷ rest) = settlements rest

requeue-settled : (broker : Answer) (n : ℕ) → settlements (requeue_with_retry broker n) ≡ 1
unfolding requeue_with_retry
requeue-settled returns n = refl
requeue-settled throws n = refl

-- A consumer settles every delivery exactly once, by an acknowledgement or a rejection, whatever
-- the handler and the broker answer; without acknowledgements it settles none.
pub handle_message-settled :
    (no_ack : Bool) (handler broker : Answer) (header : Option ℕ)
    → settlements (handle_message no_ack handler broker header) ≡ (if no_ack then 0 else 1)
unfolding handle_message
handle_message-settled true returns broker header = refl
handle_message-settled true throws broker header = refl
handle_message-settled false returns broker header = refl
handle_message-settled false throws broker header =
    elim (Bool-cases (ltb (get_retry_count header) 3)) [
      | inl h ↦ rw (handle_message, h) (requeue-settled broker (get_retry_count header + 1))
      | inr h ↦ rw (handle_message, h) refl
    ]

-- A message comes back only with a retry count of at most three, one more than it had.
returned-bounded :
    (handler broker : Answer) (header : Option ℕ) (n : ℕ)
    → returned (handle_message false handler broker header) ≡ some n
    → (n ≡ get_retry_count header + 1) × (n ≤ 3)
unfolding handle_message returned requeue_with_retry
returned-bounded returns broker header n h = absurd (ground arith)
returned-bounded throws throws header n h = absurd (ground arith)
returned-bounded throws returns header n h = elim (Bool-cases (ltb (get_retry_count header) 3)) [
  | inl e ↦ let k = simp e at h in ground (arith, k)
  | inr e ↦ let k = simp e at h in absurd (ground (arith, k))
]

module _ (handler broker : ℕ → Answer) where
  deliveries-length :
      (fuel : ℕ) (header : Option ℕ)
      → get_retry_count header ≤ 3
      → length (deliveries fuel handler broker header) + get_retry_count header ≤ 4
  unfolding deliveries
  deliveries-length zero header h = omega arith
  deliveries-length (suc fuel) header h =
      let n = get_retry_count header in
      let actions = handle_message false (handler n) (broker n) header in
      go actions (returned actions) (deliveries fuel handler broker (returned actions))
        (returned-bounded (handler n) (broker n) header) (deliveries-length fuel (returned actions))
    where
      go :
          (actions : List Action) (o : Option ℕ) (later : List (List Action))
          → ((m : ℕ) → o ≡ some m → (m ≡ get_retry_count header + 1) × (m ≤ 3))
          → (get_retry_count o ≤ 3 → length later + get_retry_count o ≤ 4)
          → length (elim o [ none ↦ actions ∷ [] | some m ↦ actions ∷ later ])
              + get_retry_count header
            ≤ 4
      go actions none later b k = omega arith
      go actions (some m) later b k =
          let (same, low) = b m refl in unfold get_retry_count in omega (arith, k low)

  -- However the handler and the broker answer, a message that comes without a retry count is
  -- delivered at most four times, whatever the fuel; four deliveries are as many as it can have.
  pub deliveries-bounded : (fuel : ℕ) → length (deliveries fuel handler broker none) ≤ 4
  unfolding get_retry_count
  deliveries-bounded fuel = omega (arith, deliveries-length fuel none (omega arith))
