-- ===== src/Xrpl/Nodes.antt =====
-- The nodes of src/modules/xrpl-connection/services/xrpl-connection-manager.service.ts: which are
-- healthy, and which connection is handed out. What the network and the circuit breaker do is a
-- parameter; times are left out, and so are the callbacks that are told of a health check.
pub mod Health
use v2_xrpl_tools.Prelude.{
  ℕ, suc, ◌+◌, ◌-◌, ◌*◌, ◌≡◌, refl, Bool, true, false, not, ◌&&◌, ◌||◌, Option, none, some, List,
  [], ◌∷◌, ◌++◌, String, str_eq, ltb, leb, filter, find?, any, length, if◌then◌else◌,
}
use v2_xrpl_tools.Prelude.Map
use v2_xrpl_tools.Prelude.Map.{Map}

pub record XrplNode : Type 0 where
  pub url : String
  pub priority : ℕ
  pub is_healthy : Bool
  pub consecutive_failures : ℕ

-- `connections` holds the nodes that have a client; `reconnects` the timers, with their delays.
pub record Manager : Type 0 where
  pub nodes : List XrplNode
  pub connections : Map Bool
  pub reconnects : List (String × ℕ)

pub record Limits : Type 0 where
  pub reconnect_interval : ℕ
  pub max_consecutive_failures : ℕ

-- what the network answers: a connection attempt, and a ping
pub record Network : Type 0 where
  pub connects : String → Bool
  pub pings : String → Bool

unfoldable pub new_node : String → ℕ → XrplNode
new_node url priority = record {
  url = url;
  priority = priority;
  is_healthy = false;
  consecutive_failures = 0;
}

-- `nodes.set`: a node that is there keeps its place
unfoldable pub set_node : XrplNode → List XrplNode → List XrplNode
set_node n [] = n ∷ []
set_node n (m ∷ rest) =
    let later = set_node n rest in if str_eq m.url n.url then n ∷ rest else m ∷ later

-- `addNode`; whether the url starts with `ws` is handed in
unfoldable pub add_node : Bool → String → ℕ → Manager → Option Manager
unfolding new_node set_node
add_node starts_with_ws url priority s =
    if starts_with_ws
    then some (record s { nodes = set_node (new_node url priority) s.nodes })
    else none

unfoldable pub remove_node : String → Manager → Manager
remove_node url s = record s {
  nodes = filter (λ n. not (str_eq n.url url)) s.nodes;
  connections = Map.delete url s.connections;
}

unfoldable pub marked_up : XrplNode → XrplNode
marked_up n = record n { is_healthy = true; consecutive_failures = 0 }

unfoldable pub marked_down : XrplNode → XrplNode
marked_down n = record n { is_healthy = false; consecutive_failures = suc n.consecutive_failures }

-- `connectToNode`
unfoldable pub connected_node : Network → XrplNode → XrplNode
unfolding marked_up marked_down
connected_node net n = if net.connects n.url then marked_up n else marked_down n

-- `connect` over all nodes: whether one of them is healthy then
unfoldable pub connect_all : Network → List XrplNode → List XrplNode
unfolding connected_node
connect_all net [] = []
connect_all net (n ∷ rest) = connected_node net n ∷ connect_all net rest

unfoldable pub open_all : Network → List XrplNode → Map Bool → Map Bool
open_all net [] m = m
open_all net (n ∷ rest) m =
    open_all net rest (if net.connects n.url then Map.set n.url true m else m)

unfoldable pub is_connected : Manager → Bool
is_connected s = any (λ n. n.is_healthy) s.nodes

unfoldable pub connect : Network → Manager → Bool × Manager
unfolding connect_all open_all is_connected
connect net s =
    let s' : Manager = record s {
      nodes = connect_all net s.nodes;
      connections = open_all net s.nodes s.connections;
    } in
    (is_connected s', s')

-- `disconnect`: all clients are closed and forgotten; the nodes stay as they are marked.
unfoldable pub disconnect_all : Manager → Manager
disconnect_all s = record s { connections = [] }

-- `handleDisconnection` of a node
unfoldable pub disconnected_nodes : String → List XrplNode → List XrplNode
unfolding marked_down
disconnected_nodes url [] = []
disconnected_nodes url (n ∷ rest) =
    let later = disconnected_nodes url rest in
    if str_eq n.url url then marked_down n ∷ later else n ∷ later

unfoldable pub reconnect_timer : Limits → XrplNode → List (String × ℕ)
reconnect_timer limits n =
    if ltb n.consecutive_failures limits.max_consecutive_failures
    then (n.url, limits.reconnect_interval * n.consecutive_failures) ∷ []
    else []

unfoldable pub timers_of : Limits → Option XrplNode → List (String × ℕ)
unfolding reconnect_timer
timers_of limits none = []
timers_of limits (some n) = reconnect_timer limits n

unfoldable pub handle_disconnection : Limits → String → Manager → Manager
unfolding disconnected_nodes timers_of
handle_disconnection limits url s =
    let nodes = disconnected_nodes url s.nodes in
    record s {
      nodes = nodes;
      connections = Map.set url false s.connections;
      reconnects = s.reconnects ++ timers_of limits (find? (λ n. str_eq n.url url) nodes);
    }

-- whether a node has a client that is connected
unfoldable pub is_open : Map Bool → String → Bool
is_open m url = elim (Map.get url m) [ none ↦ false | some b ↦ b ]

-- `performHealthCheck` of one node
unfoldable pub checked_node : Limits → Network → Map Bool → XrplNode → XrplNode
unfolding is_open connected_node marked_up marked_down
checked_node limits net m n =
    if not (is_open m n.url)
    then if ltb n.consecutive_failures limits.max_consecutive_failures
      then connected_node net (record n { is_healthy = false })
      else record n { is_healthy = false }
    else if net.pings n.url
    then marked_up n
    else marked_down n

unfoldable pub check_nodes : Limits → Network → Map Bool → List XrplNode → List XrplNode
unfolding checked_node
check_nodes limits net m [] = []
check_nodes limits net m (n ∷ rest) = checked_node limits net m n ∷ check_nodes limits net m rest

unfoldable pub reopened : Limits → Network → List XrplNode → Map Bool → Map Bool
unfolding is_open
reopened limits net [] m = m
reopened limits net (n ∷ rest) m = reopened limits net rest (
    if not (is_open m n.url)
      && (ltb n.consecutive_failures limits.max_consecutive_failures && net.connects n.url)
    then Map.set n.url true m
    else m)

unfoldable pub perform_health_check : Limits → Network → Manager → Manager
unfolding check_nodes reopened
perform_health_check limits net s = record s {
  nodes = check_nodes limits net s.connections s.nodes;
  connections = reopened limits net s.nodes s.connections;
}

-- `sort` by priority: among equals the order stays
unfoldable pub insert_by_priority : XrplNode → List XrplNode → List XrplNode
insert_by_priority n [] = n ∷ []
insert_by_priority n (m ∷ rest) =
    let later = insert_by_priority n rest in
    if leb n.priority m.priority then n ∷ m ∷ rest else m ∷ later

unfoldable pub sort_by_priority : List XrplNode → List XrplNode
unfolding insert_by_priority
sort_by_priority [] = []
sort_by_priority (n ∷ rest) = insert_by_priority n (sort_by_priority rest)

-- The first loop of `getHealthyConnection`: the best healthy node with an open connection.
unfoldable pub open_healthy_node : Manager → Option XrplNode
unfolding sort_by_priority is_open
open_healthy_node s =
    find? (λ n. is_open s.connections n.url) (sort_by_priority (filter (λ n. n.is_healthy) s.nodes))

-- `connectToNode` of a node among the others
unfoldable pub connect_node : Network → XrplNode → Manager → Manager
unfolding connected_node set_node
connect_node net n s = record s {
  nodes = set_node (connected_node net n) s.nodes;
  connections = if net.connects n.url then Map.set n.url true s.connections else s.connections;
}

-- `getHealthyConnection`: the node whose client is handed out, or none where it throws. Without an
-- open connection the best healthy node is connected again.
unfoldable pub get_healthy_connection : Network → Manager → Option XrplNode × Manager
unfolding open_healthy_node sort_by_priority connect_node
get_healthy_connection net s = elim (open_healthy_node s) [
  | some n ↦ (some n, s)
  | none ↦ elim (sort_by_priority (filter (λ n. n.is_healthy) s.nodes)) [
    | [] ↦ (none, s)
    | best ∷ _ ↦ (
      if net.connects best.url then some (connected_node net best) else none,
      connect_node net best s,
    )
  ]
]

pub record ConnectionHealthStatus : Type 0 where
  pub total_nodes : ℕ
  pub healthy_nodes : ℕ
  pub unhealthy_nodes : ℕ

unfoldable pub get_connection_health : Manager → ConnectionHealthStatus
get_connection_health s =
    let healthy = length (filter (λ n. n.is_healthy) s.nodes) in
    record {
      total_nodes = length s.nodes;
      healthy_nodes = healthy;
      unhealthy_nodes = length s.nodes - healthy;
    }
