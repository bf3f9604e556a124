-- ===== src/Xrpl/Backfill/Messages.antt =====
-- The messages of a ledger, and what is passed on of them.
use v2_xrpl_tools.Prelude.{
  ℕ, zero, suc, ◌+◌, ◌≤◌, ◌≡◌, refl, sym, ap, ◌∙◌, inl, inr, Bool, true, false, Option, some, List,
  [], ◌∷◌, ◌++◌, map, length, take, take-append, plus_suc, length-append, arith, if◌then◌else◌,
  Bool-cases,
}
use v2_xrpl_tools.Prelude.Outcome.{Outcome, done, raised}
use v2_xrpl_tools.Prelude.Json.{Json, field_of}
use v2_xrpl_tools.Queue.Consumer.{Answer}
use v2_xrpl_tools.Xrpl.Relay.{Relay, relay_transaction}
use v2_xrpl_tools.Xrpl.Backfill.{
  transactions_of, backfilled_message, is_null, relay_ledger, fetched, relay_fetched,
}

take-length {ℓ} :
    {A : Type ℓ} (xs ys : List A) (k : ℕ) → take (length xs + k) (xs ++ ys) ≡ xs ++ take k ys
take-length [] ys k = ap (λ n. take n ys) (omega arith)
take-length (x ∷ xs) ys k =
    ap (λ n. take n (x ∷ (xs ++ ys))) (plus_suc (length xs) k)
    ∙ ap (λ (l : List _). x ∷ l) (take-length xs ys k)

-- the messages for the transactions of an answer
abbrev pub messages_of : Outcome Json → List Json
messages_of (raised e) = []
messages_of (done result) = elim (transactions_of result) [
  | raised e ↦ []
  | done txs ↦ map (backfilled_message (field_of "ledger" (some result))) txs
]

-- the messages for `n` ledgers from ledger `i` on
abbrev pub messages_from : (ℕ → ℕ → Outcome Json) → ℕ → ℕ → List Json
messages_from fetch zero i = []
messages_from fetch (suc n) i = messages_of (fetched fetch i) ++ messages_from fetch n (suc i)

module _ (publisher : Json → Answer) where
  abbrev pub relay_each : List Json → Relay → Relay
  relay_each [] s = s
  relay_each (m ∷ ms) s = relay_each ms (relay_transaction (publisher m) m s)

  relay_each-append :
      (xs ys : List Json) (s : Relay) → relay_each (xs ++ ys) s ≡ relay_each ys (relay_each xs s)
  relay_each-append [] ys s = refl
  relay_each-append (x ∷ xs) ys s = relay_each-append xs ys (relay_transaction (publisher x) x s)

  -- All of the messages were passed on, or the first ones.
  abbrev pub IsPassed : List Json → Relay → Bool × Relay → Type 0
  IsPassed ms s (true, t) = t ≡ relay_each ms s
  IsPassed ms s (false, t) = (k : ℕ) × ((k ≤ length ms) × (t ≡ relay_each (take k ms) s))

  pub IsPassed-none : (ms : List Json) (s : Relay) → IsPassed ms s (false, s)
  IsPassed-none ms s = (0, (omega arith, refl))

  IsPassed-first :
      (xs ys : List Json) (s t : Relay)
      → IsPassed xs s (false, t)
      → IsPassed (xs ++ ys) s (false, t)
  IsPassed-first xs ys s t (k, (h, e)) = (
    k,
    (
      omega (arith, length-append xs ys),
      e ∙ ap (λ l. relay_each l s) (sym (take-append k xs ys h)),
    ),
  )

  IsPassed-both :
      (xs ys : List Json) (s t : Relay) (r : Bool × Relay)
      → IsPassed xs s (true, t)
      → IsPassed ys t r
      → IsPassed (xs ++ ys) s r
  IsPassed-both xs ys s t (true, u) e f = f ∙ ap (relay_each ys) e ∙ sym (relay_each-append xs ys s)
  IsPassed-both xs ys s t (false, u) e (k, (h, f)) = (
    length xs + k,
    (
      omega (arith, length-append xs ys),
      f
          ∙ ap (relay_each (take k ys)) e
          ∙ sym (relay_each-append xs (take k ys) s)
          ∙ ap (λ l. relay_each l s) (sym (take-length xs ys k)),
    ),
  )

  relay_ledger-IsPassed :
      (ledger : Option Json) (txs : List Json) (s : Relay)
      → IsPassed (map (backfilled_message ledger) txs) s (relay_ledger publisher ledger txs s)
  unfolding relay_ledger
  relay_ledger-IsPassed ledger [] s = refl
  relay_ledger-IsPassed ledger (tx ∷ rest) s =
      let m = backfilled_message ledger tx in
      let ms = map (backfilled_message ledger) rest in
      elim (Bool-cases (is_null tx)) [
        | inl e ↦ rw e (IsPassed-none (m ∷ ms) s)
        | inr e ↦ rw e (
            IsPassed-both (m ∷ []) ms s (relay_transaction (publisher m) m s)
              (relay_ledger publisher ledger rest (relay_transaction (publisher m) m s)) refl
              (relay_ledger-IsPassed ledger rest (relay_transaction (publisher m) m s)))
      ]

  pub relay_fetched-IsPassed :
      (result : Json) (s : Relay)
      → IsPassed (messages_of (done result)) s (relay_fetched publisher result s)
  relay_fetched-IsPassed result s = by_transactions (transactions_of result)
    where
      by_transactions :
          (x : Outcome (List Json))
          → IsPassed
              (elim x as (λ y. List Json) [
                | raised e ↦ []
                | done txs ↦ map (backfilled_message (field_of "ledger" (some result))) txs
              ])
              s
              (elim x as (λ y. Bool × Relay) [
                | raised e ↦ (false, s)
                | done txs ↦ relay_ledger publisher (field_of "ledger" (some result)) txs s
              ])
      by_transactions (raised e) = IsPassed-none [] s
      by_transactions (done txs) = relay_ledger-IsPassed (field_of "ledger" (some result)) txs s

  pub IsPassed-next :
      (xs ys : List Json) (s : Relay) (r later : Bool × Relay)
      → IsPassed xs s r
      → IsPassed ys r.1 later
      → IsPassed (xs ++ ys) s (if r.0 then later else r)
  IsPassed-next xs ys s (true, t) later h k = IsPassed-both xs ys s t later h k
  IsPassed-next xs ys s (false, t) later h k = IsPassed-first xs ys s t h
