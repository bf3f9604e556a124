-- ===== src/Xrpl/Nodes/Health.antt =====
-- What the health of the nodes means, and which node is chosen.
use v2_xrpl_tools.Prelude.{
  ℕ, ◌+◌, ◌≡◌, ◌≤◌, refl, Bool, true, some, List, [], ◌∷◌, String, str_eq, ltb, leb, filter, find?,
  any, length, All, length-filter, arith, inl, inr, Bool-cases, if_induction, subst,
}
use v2_xrpl_tools.Prelude.Map.{Map}
use v2_xrpl_tools.Xrpl.Nodes.{
  XrplNode, Manager, Limits, Network, marked_up, marked_down, connected_node, connect_all, connect,
  is_connected, disconnected_nodes, handle_disconnection, checked_node, check_nodes,
  perform_health_check, insert_by_priority, sort_by_priority, open_healthy_node, is_open,
  get_connection_health,
}

-- A healthy node has no failure counted.
abbrev pub IsSound : XrplNode → Type 0
IsSound n = n.is_healthy ≡ true → n.consecutive_failures ≡ 0

abbrev pub AreSound : Manager → Type 0
AreSound s = All IsSound s.nodes

connected_node-IsSound : (net : Network) (n : XrplNode) → IsSound (connected_node net n)
unfolding connected_node marked_up marked_down
connected_node-IsSound net n h = ground arith

connect_all-IsSound : (net : Network) (ns : List XrplNode) → All IsSound (connect_all net ns)
unfolding connect_all
connect_all-IsSound net [] = tt
connect_all-IsSound net (n ∷ rest) = (connected_node-IsSound net n, connect_all-IsSound net rest)

disconnected-IsSound :
    (url : String) (ns : List XrplNode) → All IsSound ns → All IsSound (disconnected_nodes url ns)
unfolding disconnected_nodes marked_down
disconnected-IsSound url [] h = tt
disconnected-IsSound url (n ∷ rest) (k, h) = elim (Bool-cases (str_eq n.url url)) [
  | inl e ↦ rw (disconnected_nodes, e) ((λ p. ground arith), disconnected-IsSound url rest h)
  | inr e ↦ rw (disconnected_nodes, e) (k, disconnected-IsSound url rest h)
]

checked_node-IsSound :
    (limits : Limits) (net : Network) (m : Map Bool) (n : XrplNode)
    → IsSound (checked_node limits net m n)
unfolding checked_node connected_node marked_up marked_down
checked_node-IsSound limits net m n h = ground arith

check_nodes-IsSound :
    (limits : Limits) (net : Network) (m : Map Bool) (ns : List XrplNode)
    → All IsSound (check_nodes limits net m ns)
unfolding check_nodes
check_nodes-IsSound limits net m [] = tt
check_nodes-IsSound limits net m (n ∷ rest) =
    (checked_node-IsSound limits net m n, check_nodes-IsSound limits net m rest)

-- Connecting and checking make every node sound, whatever the network answers, and a disconnection
-- keeps sound nodes sound: a healthy node has no failure counted.
pub network-AreSound :
    (limits : Limits) (net : Network) (url : String) (s : Manager)
    → AreSound s
    → AreSound (connect net s).1
      × (AreSound (perform_health_check limits net s)
          × AreSound (handle_disconnection limits url s))
unfolding connect perform_health_check handle_disconnection
network-AreSound limits net url s h = (
  connect_all-IsSound net s.nodes,
  (check_nodes-IsSound limits net s.connections s.nodes, disconnected-IsSound url s.nodes h),
)

filter-any :
    (ns : List XrplNode)
    → any (λ n. n.is_healthy) ns ≡ ltb 0 (length (filter (λ n. n.is_healthy) ns))
filter-any [] = refl
filter-any (n ∷ rest) = ground (arith, filter-any rest)

-- The health report counts each node once, as healthy or not, and the service calls itself
-- connected exactly where the report has a healthy node.
pub get_connection_health-is_connected :
    (s : Manager)
    → let r = get_connection_health s in
      (r.total_nodes ≡ r.healthy_nodes + r.unhealthy_nodes)
      × (is_connected s ≡ ltb 0 r.healthy_nodes)
unfolding get_connection_health is_connected
get_connection_health-is_connected s =
    (omega (arith, length-filter (λ n. n.is_healthy) s.nodes), filter-any s.nodes)

-- no node of the list that is healthy and open has a lower priority number
abbrev pub IsBest : Map Bool → XrplNode → XrplNode → Type 0
IsBest m best n = n.is_healthy ≡ true → is_open m n.url ≡ true → best.priority ≤ n.priority

module _ (P : XrplNode → Type 0) where
  All-insert :
      (n : XrplNode) (ns : List XrplNode) → P n → All P ns → All P (insert_by_priority n ns)
  unfolding insert_by_priority
  All-insert n [] p h = (p, tt)
  All-insert n (m ∷ rest) p (q, h) =
      if_induction (All P) (leb n.priority m.priority) {x = n ∷ m ∷ rest}
        {y = m ∷ insert_by_priority n rest} (λ _. (p, (q, h))) (λ _. (q, All-insert n rest p h))

  insert-All :
      (n : XrplNode) (ns : List XrplNode) → All P (insert_by_priority n ns) → P n × All P ns
  unfolding insert_by_priority
  insert-All n [] h = h
  insert-All n (m ∷ rest) h = elim (Bool-cases (leb n.priority m.priority)) [
    | inl e ↦ simp e at h
    | inr e ↦
        let k : All P (m ∷ insert_by_priority n rest) = simp e at h in
        let (p, more) = insert-All n rest k.1 in (p, (k.0, more))
  ]

  sort-All : (ns : List XrplNode) → All P (sort_by_priority ns) → All P ns
  unfolding sort_by_priority
  sort-All [] h = tt
  sort-All (n ∷ rest) h =
      let (p, k) = insert-All n (sort_by_priority rest) h in (p, sort-All rest k)

  filter-All :
      (t : XrplNode → Bool) (ns : List XrplNode)
      → All P (filter t ns)
      → All (λ n. t n ≡ true → P n) ns
  filter-All t [] h = tt
  filter-All t (n ∷ rest) h = elim (Bool-cases (t n)) [
    | inl e ↦ let k : All P (n ∷ filter t rest) = simp e at h in (λ _. k.0, filter-All t rest k.1)
    | inr e ↦
        let k : All P (filter t rest) = simp e at h in
        (λ q. absurd (ground (arith, e, q)), filter-All t rest k)
  ]

abbrev IsSorted : List XrplNode → Type 0
IsSorted [] = Unit
IsSorted (n ∷ rest) = All (λ m. n.priority ≤ m.priority) rest × IsSorted rest

weaken :
    (a b : ℕ) (ns : List XrplNode)
    → a ≤ b
    → All (λ m. b ≤ m.priority) ns
    → All (λ m. a ≤ m.priority) ns
weaken a b [] h k = tt
weaken a b (n ∷ rest) h (p, k) = (omega arith, weaken a b rest h k)

insert-IsSorted :
    (n : XrplNode) (ns : List XrplNode) → IsSorted ns → IsSorted (insert_by_priority n ns)
unfolding insert_by_priority
insert-IsSorted n [] h = (tt, tt)
insert-IsSorted n (m ∷ rest) (h, k) =
    if_induction IsSorted (leb n.priority m.priority) {x = n ∷ m ∷ rest}
      {y = m ∷ insert_by_priority n rest}
      (λ e. ((ground arith, weaken n.priority m.priority rest (ground arith) h), (h, k)))
      (λ e. (
        All-insert (λ i. m.priority ≤ i.priority) n rest (ground arith) h,
        insert-IsSorted n rest k,
      ))

sort-IsSorted : (ns : List XrplNode) → IsSorted (sort_by_priority ns)
unfolding sort_by_priority
sort-IsSorted [] = tt
sort-IsSorted (n ∷ rest) = insert-IsSorted n (sort_by_priority rest) (sort-IsSorted rest)

above :
    (t : XrplNode → Bool) (b : ℕ) (ns : List XrplNode)
    → All (λ m. b ≤ m.priority) ns
    → All (λ m. t m ≡ true → b ≤ m.priority) ns
above t b [] h = tt
above t b (n ∷ rest) (p, h) = (λ _. p, above t b rest h)

find?-least :
    (t : XrplNode → Bool) (ns : List XrplNode) (best : XrplNode)
    → IsSorted ns
    → find? t ns ≡ some best
    → All (λ n. t n ≡ true → best.priority ≤ n.priority) ns
find?-least t [] best h e = tt
find?-least t (n ∷ rest) best (h, k) e = elim (Bool-cases (t n)) [
  | inl q ↦
      let same : n ≡ best = ground arith in
      subst (λ b. All (λ m. t m ≡ true → b.priority ≤ m.priority) (n ∷ rest)) same
        (λ _. omega arith, above t n.priority rest h)
  | inr q ↦ (λ p. absurd (ground (arith, p, q)), find?-least t rest best k (ground arith))
]

-- The node whose connection is handed out at once is the best one: every other healthy node with an
-- open connection has the same or a higher priority number.
pub open_healthy_node-IsBest :
    (s : Manager) (best : XrplNode)
    → open_healthy_node s ≡ some best
    → All (IsBest s.connections best) s.nodes
unfolding open_healthy_node
open_healthy_node-IsBest s best e =
    let healthy = filter (λ n. n.is_healthy) s.nodes in
    filter-All (λ n. is_open s.connections n.url ≡ true → best.priority ≤ n.priority)
      (λ n. n.is_healthy) s.nodes
      (sort-All (λ n. is_open s.connections n.url ≡ true → best.priority ≤ n.priority) healthy
        (find?-least (λ n. is_open s.connections n.url) (sort_by_priority healthy) best
          (sort-IsSorted healthy) e))
