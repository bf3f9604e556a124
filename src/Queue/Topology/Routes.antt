-- ===== src/Queue/Topology/Routes.antt =====
-- The queues that an event reaches.
use v2_xrpl_tools.Prelude.{
  ◌≡◌, refl, ◌∙◌, Bool, true, false, not, ◌&&◌, ◌||◌, List, [], ◌∷◌, String, str_eq, all,
  if◌then◌else◌,
}
use v2_xrpl_tools.Prelude.Words.{split_by}
use v2_xrpl_tools.Queue.Topology.{
  BrokerCommand, assert_exchange, assert_queue, bind_queue, exchanges_and_queues, xrpl_exchange,
  EventType, ledger_closed, transaction_validated, notification_send, nft_minted, nft_burned,
  nft_offer_created, nft_offer_cancelled, nft_offer_accepted, routing_key, ledger_queue,
  transaction_queue, nft_queue,
}

unfoldable pub words_match : List String → List String → Bool
words_match [] [] = true
words_match (p ∷ ps) (k ∷ ks) = (str_eq p "*" || str_eq p k) && words_match ps ks
words_match _ _ = false

-- The broker's rule for a topic, where the pattern has no `#`: the words between the dots, one for one, and
-- `*` stands for one word.
abbrev pub IsTopic : (String → String → Bool) → Type 0
IsTopic matches =
    (pattern key : String)
    → all (λ w. not (str_eq w "#")) (split_by 46 pattern) ≡ true
    → matches pattern key ≡ words_match (split_by 46 pattern) (split_by 46 key)

-- the queues that are bound to an exchange under a pattern that a key matches
unfoldable pub reached :
    (String → String → Bool) → String → String → List BrokerCommand → List String
reached matches exchange key [] = []
reached matches exchange key (bind_queue q e k ∷ cs) =
    let rest = reached matches exchange key cs in
    if str_eq e exchange && matches k key then q ∷ rest else rest
reached matches exchange key (assert_exchange _ _ ∷ cs) = reached matches exchange key cs
reached matches exchange key (assert_queue _ _ ∷ cs) = reached matches exchange key cs

abbrev pub expected_queues : EventType → List String
expected_queues ledger_closed = ledger_queue ∷ []
expected_queues transaction_validated = transaction_queue ∷ []
expected_queues nft_minted = nft_queue ∷ []
expected_queues nft_burned = nft_queue ∷ []
expected_queues _ = []

-- the three bindings of the ledger's exchange, by their tests
abbrev bound : Bool → Bool → Bool → List String
bound a b c =
    let rest = if c then nft_queue ∷ [] else [] in
    let more = if b then transaction_queue ∷ rest else rest in
    if a then ledger_queue ∷ more else more

reached-bound :
    (matches : String → String → Bool) (key : String) (a b c : Bool)
    → matches "ledger.closed" key ≡ a
    → matches "transaction.validated" key ≡ b
    → matches "nft.*" key ≡ c
    → reached matches xrpl_exchange key exchanges_and_queues ≡ bound a b c
unfolding reached
reached-bound matches key a b c h k l = rw (h, k, l) refl

abbrev bound_words : List String → List String
bound_words key =
    bound (words_match ("ledger" ∷ "closed" ∷ []) key)
      (words_match ("transaction" ∷ "validated" ∷ []) key) (words_match ("nft" ∷ "*" ∷ []) key)

bound_words-expected :
    (e : EventType) → bound_words (split_by 46 (routing_key e)) ≡ expected_queues e
unfolding routing_key split_by words_match
bound_words-expected ledger_closed = refl
bound_words-expected transaction_validated = refl
bound_words-expected notification_send = refl
bound_words-expected nft_minted = refl
bound_words-expected nft_burned = refl
bound_words-expected nft_offer_created = refl
bound_words-expected nft_offer_cancelled = refl
bound_words-expected nft_offer_accepted = refl

-- An event that is published on the exchange of the ledger reaches, by the broker's rule for topics, the one
-- queue of its kind: the ledger's, the transactions', or for a minted or burned NFT the NFTs'. An event of an
-- offer reaches no queue, since the NFTs' queue is bound under a pattern of two words.
pub routing_key-reached :
    (matches : String → String → Bool) (e : EventType)
    → IsTopic matches
    → reached matches xrpl_exchange (routing_key e) exchanges_and_queues ≡ expected_queues e
unfolding routing_key split_by words_match
routing_key-reached matches e law =
    let key = routing_key e in
    reached-bound matches key _ _ _ (law "ledger.closed" key refl)
      (law "transaction.validated" key refl) (law "nft.*" key refl)
    ∙ bound_words-expected e
