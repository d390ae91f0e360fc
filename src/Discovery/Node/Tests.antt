-- ===== src/Discovery/Node/Tests.antt =====
-- A network of a master, node 0, and one slave.
use axiom_evi_apps.Prelude.{
  ℕ, ◌<◌, ◌≡◌, ◌≢◌, refl, arith, true, List, [], ◌∷◌, map, Option, none, some,
}
use axiom_evi_apps.Discovery.Routing.{
  compute_row, pass_loop, pass, expand, second_level, for_from, compute_neighbours_route, neighbour,
  init_routing_neighbour,
}
use axiom_evi_apps.Discovery.Delivery.{
  rt_reply, Packet, delivery_routing_tables, send_tables, send_row, send_ends, send_delivery,
  and_then, wait_rt_received, wait_loop, is_reply,
}
use axiom_evi_apps.Discovery.Delivery.Wait.{replied}
use axiom_evi_apps.Discovery.Activation.{
  Action, write_table, set_loopback, send_set, set_master, and_next, send_all, receive_any,
  connections,
}
use axiom_evi_apps.Discovery.Protocol.{
  req_id, rsp_noid, rsp_id, setid, start, end_topology, Discovery, Node, message,
  master_node_discovery, discover_phase, poll_from, poll, hear, on_reply, number_neighbour, subtree,
  on_command, noted, finished, linked, record_link, assign, topology_init, set_routing_range,
}
use axiom_evi_apps.Discovery.Protocol.Slave.{
  Result, error, node, slave_node_discovery, wait_for, hand_over, send_all_messages, table_messages,
  row_messages, find_back, end_message,
}
use axiom_evi_apps.Discovery.Node.{
  compute_tables, Nic, net_of, axiom_discovery_master, master_deliver,
}
use axiom_evi_apps.Discovery.Node.Order.{axiom_discovery_master-in_order}

abbrev nic : Nic
nic = record {
  board = record {
    null_node = 255;
    nodes_num = 2;
    interfaces_num = 1;
    loopback = 7;
    num_interface = 1;
    connected = λ i. true;
    accepts = λ m. true;
  };
  delivers = λ dest p. true;
  sets = λ i. true;
}

-- The neighbour has no number, takes number 1, and has nothing behind it.
abbrev master_inbox : List (Option Discovery)
master_inbox = some (message 0 rsp_noid 0 0) ∷ some (message 0 end_topology 1 0) ∷ []

abbrev found : Option (Node × ℕ)
unfolding master_node_discovery discover_phase poll_from poll hear on_reply number_neighbour subtree
    on_command noted finished linked record_link assign topology_init set_routing_range
found = master_node_discovery nic.board 0 master_inbox

abbrev idle : Node
idle = record {
  node_id = 0;
  next_id = 0;
  topology = λ i j. 0;
  routing = λ i. 0;
  sent = [];
  inbox = [];
}

abbrev master : Node
unfolding found
master = elim found [ none ↦ idle | some (s, last_node) ↦ s ]

abbrev reply_of_1 : Packet
reply_of_1 = record { command = rt_reply; node = 1; ifaces = 0 }

found_master : master_node_discovery nic.board 0 master_inbox ≡ some (master, 2)
unfolding found master master_node_discovery discover_phase poll_from poll hear on_reply
    number_neighbour subtree on_command noted finished linked record_link assign topology_init
    set_routing_range
found_master = refl

abbrev tables : ℕ → ℕ → ℕ
unfolding master found master_node_discovery discover_phase poll_from poll hear on_reply
    number_neighbour subtree on_command noted finished linked record_link assign topology_init
    set_routing_range compute_tables compute_row pass_loop pass expand second_level for_from
    compute_neighbours_route neighbour init_routing_neighbour
tables = elim (compute_tables (net_of nic 0 master 2) 1 2 0 (λ n t. 0)) [
  | none ↦ λ n t. 0
  | some ts ↦ ts
]

-- A non-empty list of actions is no empty one.
acts : (a : Action) (more actions : List Action) → actions ≡ a ∷ more → actions ≢ []
acts a more actions e e' = cc

master_acts :
    (axiom_discovery_master nic 0 1 master_inbox
      (map some (reply_of_1 ∷ []))
      (some true ∷ [])).actions
    ≡ write_table (set_loopback nic.board.loopback 0 (tables 0)) ∷ send_set 0 ∷ []
unfolding tables master found axiom_discovery_master master_deliver master_node_discovery
    discover_phase poll_from poll hear on_reply number_neighbour subtree on_command noted finished
    linked record_link assign topology_init set_routing_range compute_tables compute_row pass_loop
    pass expand second_level for_from compute_neighbours_route neighbour init_routing_neighbour
    delivery_routing_tables send_tables send_row send_ends send_delivery and_then wait_rt_received
    wait_loop is_reply set_master and_next send_all receive_any connections
master_acts = refl

axiom_discovery_master-in_order_example :
    (ts : ℕ → ℕ → ℕ) × (compute_tables (net_of nic 0 master 2) 1 2 0 (λ n t. 0) ≡ some ts)
    × ((axiom_discovery_master nic 0 1 master_inbox
          (map some (reply_of_1 ∷ []))
          (some true ∷ [])).delivered
        ≡ delivery_routing_tables nic.delivers ts 0 2)
    × ((delivery_routing_tables nic.delivers ts 0 2).ok ≡ true)
    × ((t : ℕ) → 0 < t → t < 2 → replied t (reply_of_1 ∷ []) ≡ true)
axiom_discovery_master-in_order_example =
    axiom_discovery_master-in_order nic 0 1 2 master_inbox master (reply_of_1 ∷ []) (some true ∷ [])
      found_master (omega arith) ((refl, omega arith, omega arith), tt)
      (acts (write_table (set_loopback nic.board.loopback 0 (tables 0))) (send_set 0 ∷ []) _
        master_acts)

abbrev slave_inbox : List (Option Discovery)
slave_inbox =
    some (message 0 setid 0 1) ∷ some (message 0 start 0 1) ∷ some (message 0 rsp_id 0 0) ∷ []

abbrev joined : Option (Result × List Discovery)
unfolding slave_node_discovery wait_for hand_over send_all_messages table_messages row_messages
    find_back end_message discover_phase poll_from poll hear on_reply number_neighbour subtree
    on_command noted finished linked record_link assign topology_init set_routing_range
joined = slave_node_discovery nic.board 0 (message 0 req_id 0 0) slave_inbox

abbrev slave : Node × List Discovery
unfolding joined
slave = elim joined [
  | none ↦ (idle, [])
  | some (error, sent) ↦ (idle, [])
  | some (node s, sent) ↦ (s, sent)
]
