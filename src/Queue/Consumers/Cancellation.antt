-- ===== src/Queue/Consumers/Cancellation.antt =====
-- The consumers that are left when all are cancelled.
use v2_xrpl_tools.Prelude.{
  ℕ, ◌≡◌, ◌⊎◌, inl, inr, refl, sym, ap, ◌∙◌, Option, none, some, List, [], ◌∷◌, String, str_eq,
  eq_iff, any, Bool-cases, arith, if◌then◌else◌, is_some,
}
use v2_xrpl_tools.Prelude.Map.{get, delete, get-delete}
use v2_xrpl_tools.Queue.Consumer.{Answer, returns, throws}
use v2_xrpl_tools.Queue.Consumers.{
  ConsumerTag, ConsumerMap, cancel_consumer, keys, cancel_each, cancel_all_consumers,
}

abbrev pub when_throws {ℓ} : {A : Type ℓ} → Answer → Option A → Option A
when_throws returns o = none
when_throws throws o = o

Answer-cases : (a : Answer) → (a ≡ returns) ⊎ (a ≡ throws)
Answer-cases returns = inl refl
Answer-cases throws = inr refl

when_throws-none : (a : Answer) → when_throws {A = ConsumerTag} a none ≡ none
when_throws-none returns = refl
when_throws-none throws = refl

when_throws-again :
    (a : Answer) (o : Option ConsumerTag) → when_throws a (when_throws a o) ≡ when_throws a o
when_throws-again returns o = refl
when_throws-again throws o = refl

get-cancel_consumer :
    (c : ℕ) (broker : String → Answer) (tag t : String) (m : ConsumerMap)
    → get t (cancel_consumer (some c) broker tag m)
      ≡ (if str_eq tag t then when_throws (broker t) (get t m) else get t m)
unfolding cancel_consumer
get-cancel_consumer c broker tag t m = elim (Answer-cases (broker tag)) [
  | inr e ↦
      let left : cancel_consumer (some c) broker tag m ≡ m = rw (cancel_consumer, e) refl in
      ap (get t) left ∙ elim (Bool-cases (str_eq tag t)) [
        | inr k ↦ rw (k) refl
        | inl k ↦
            let same : broker t ≡ throws = ap broker (sym ((eq_iff tag t).0 k)) ∙ e in
            rw (k, same) refl
      ]
  | inl e ↦
      let left : cancel_consumer (some c) broker tag m ≡ delete tag m =
        rw (cancel_consumer, e) refl in
      ap (get t) left
      ∙ (get-delete tag t m ∙ elim (Bool-cases (str_eq tag t)) [
        | inr k ↦ rw (k) refl
        | inl k ↦
            let same : broker t ≡ returns = ap broker (sym ((eq_iff tag t).0 k)) ∙ e in
            rw (k, same) refl
      ])
]

get-cancel_each :
    (c : ℕ) (broker : String → Answer) (t : String) (ts : List String) (m : ConsumerMap)
    → get t (cancel_each (some c) broker ts m)
      ≡ (if any (λ k. str_eq k t) ts then when_throws (broker t) (get t m) else get t m)
unfolding cancel_each
get-cancel_each c broker t [] m = refl
get-cancel_each c broker t (k ∷ ts) m =
    get-cancel_each c broker t ts (cancel_consumer (some c) broker k m)
    ∙ ground (arith, get-cancel_consumer c broker k t m, when_throws-again (broker t) (get t m))

any-keys : (t : String) (m : ConsumerMap) → any (λ k. str_eq k t) (keys m) ≡ is_some (get t m)
unfolding get
any-keys t [] = refl
any-keys t ((k, v) ∷ m) = ground (arith, any-keys t m)

-- When all consumers are cancelled on an open channel, exactly those are left whose cancellation the broker
-- answered with an error, each as it was.
pub cancel_all_consumers-left :
    (c : ℕ) (broker : String → Answer) (t : String) (m : ConsumerMap)
    → get t (cancel_all_consumers (some c) broker m) ≡ when_throws (broker t) (get t m)
unfolding cancel_all_consumers
cancel_all_consumers-left c broker t m =
    get-cancel_each c broker t (keys m) m
    ∙ ground (arith, any-keys t m, when_throws-none (broker t))
