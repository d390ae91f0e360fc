-- ===== src/Discovery/Node.antt =====
-- axiom-init/axiom-discovery/axiom_discovery_node.c: what the master and a slave do from the discovery
-- to the notification of its end, put together from the phases; printing is left out. discover_phase
-- returns AXIOM_RET_OK also after an error, so the master's discovery does not fail. What arrives in
-- each phase is a list.
pub mod Order
pub mod Tables
mod Tests
use axiom_evi_apps.Prelude.{
  ℕ, zero, suc, ◌+◌, ◌-◌, Bool, true, false, List, [], ◌∷◌, Option, none, some, ◌==◌, not,
  if◌then◌else◌,
}
use axiom_evi_apps.Discovery.Routing.{Net, compute_row, update}
use axiom_evi_apps.Discovery.Delivery.{
  Packet, Sends, nothing, delivery_routing_tables, received, receive_routing_tables, all_replied,
  still_waiting, wait_error, wait_rt_received,
}
use axiom_evi_apps.Discovery.Delivery
use axiom_evi_apps.Discovery.Activation.{
  Action, Phase, End, success, failure, blocked, set_loopback, set_master, set_slave,
}
use axiom_evi_apps.Discovery.Protocol.{Discovery, Board, Node, master_node_discovery}
use axiom_evi_apps.Discovery.Protocol.Slave.{Result, error, node, slave_node_discovery}

-- axiom_compute_routing_tables: the loop over the nodes from t on, with the rounds for each row; none
-- where a row is not done in them.
unfoldable pub compute_tables : Net → ℕ → ℕ → ℕ → (ℕ → ℕ → ℕ) → Option (ℕ → ℕ → ℕ)
compute_tables net rounds zero t tables = some tables
compute_tables net rounds (suc left) t tables = elim (compute_row net t rounds) [
  | none ↦ none
  | some s ↦ compute_tables net rounds left (t + 1) (λ n. if n == t then s.row else tables n)
]

-- How a node ends: in a wait, with an error, or with the notification.
pub data NodeEnd : Type 0 where
  hangs fails notifies : NodeEnd

abbrev pub of_end : End → NodeEnd
of_end success = notifies
of_end failure = fails
of_end blocked = hangs

-- What a master did: the delivery, its final routing table, and the actions of the last phase.
pub record MasterRun : Type 0 where
  pub delivered : Sends
  pub table : ℕ → ℕ
  pub actions : List Action
  pub end : NodeEnd

-- What a slave did: its number and table, the actions of the last phase, and how it ended.
pub record SlaveRun : Type 0 where
  pub number : ℕ
  pub table : ℕ → ℕ
  pub actions : List Action
  pub end : NodeEnd

-- The NIC of a node: its board, and which messages of the later phases it accepts.
pub record Nic : Type 0 where
  pub board : Board
  pub delivers : ℕ → Packet → Bool
  pub sets : ℕ → Bool

module _ (nic : Nic) where
  abbrev pub hung : MasterRun
  hung = record { delivered = nothing; table = λ t. 0; actions = []; end = hangs }

  abbrev pub without_set : NodeEnd → Sends → (ℕ → ℕ) → MasterRun
  without_set e d table = record { delivered = d; table = table; actions = []; end = e }

  -- From the delivery on.
  unfoldable pub master_deliver :
      ℕ → ℕ → (ℕ → ℕ → ℕ) → List (Option Packet) → List (Option Bool) → MasterRun
  master_deliver master_id last_node tables replies sets =
      let d = delivery_routing_tables nic.delivers tables master_id last_node in
      let final = set_loopback nic.board.loopback master_id (tables master_id) in
      let p = set_master nic.board.connected nic.sets final nic.board.num_interface sets in
      if not d.ok
      then without_set fails d (tables master_id)
      else elim (wait_rt_received master_id last_node replies) [
        | still_waiting ↦ without_set hangs d (tables master_id)
        | wait_error ↦ without_set fails d (tables master_id)
        | all_replied ↦ record {
          delivered = d;
          table = final;
          actions = p.actions;
          end = of_end p.end;
        }
      ]

  abbrev pub net_of : ℕ → Node → ℕ → Net
  net_of master_id s last_node = record {
    null_node = nic.board.null_node;
    interfaces = nic.board.interfaces_num;
    master_id = master_id;
    last_node = last_node;
    topology = s.topology;
  }

  -- The master, with AXIOM_INIT_MASTER_NODE.
  unfoldable pub axiom_discovery_master :
      ℕ → ℕ → List (Option Discovery) → List (Option Packet) → List (Option Bool) → MasterRun
  axiom_discovery_master master_id rounds inbox replies sets =
      elim (master_node_discovery nic.board master_id inbox) [
        | none ↦ hung
        | some (s, last_node) ↦
            elim (compute_tables (net_of master_id s last_node) rounds (last_node - master_id)
              master_id (λ n t. 0)) [
                | none ↦ hung
                | some tables ↦ master_deliver master_id last_node tables replies sets
              ]
      ]

  abbrev pub slave_stops : NodeEnd → SlaveRun
  slave_stops e = record { number = 0; table = λ t. 0; actions = []; end = e }

  -- The result of the last send.
  unfoldable pub last_accepted : List Discovery → Bool
  last_accepted [] = true
  last_accepted (m ∷ []) = nic.board.accepts m
  last_accepted (m ∷ m' ∷ ms) = last_accepted (m' ∷ ms)

  -- A slave with a number, from the reception of its table on; `replied` says whether its reply is
  -- accepted.
  unfoldable pub slave_receive : Bool → ℕ → List (Option Packet) → List (Option Bool) → SlaveRun
  slave_receive replied node_id packets sets =
      let final = λ (table : ℕ → ℕ). set_loopback nic.board.loopback node_id table in
      let p = λ (table : ℕ → ℕ).
        set_slave nic.board.connected nic.sets (final table) nic.board.num_interface sets in
      elim (receive_routing_tables replied node_id packets) [
        | Delivery.waiting ↦ record (slave_stops hangs) { number = node_id }
        | Delivery.failed ↦ record (slave_stops fails) { number = node_id }
        | received table max_node_id ok ↦
            if ok
            then record {
              number = node_id;
              table = final table;
              actions = (p table).actions;
              end = of_end (p table).end;
            }
            else record { number = node_id; table = table; actions = []; end = fails }
      ]

  unfoldable pub axiom_discovery_slave :
      ℕ
      → Bool
      → Discovery
      → List (Option Discovery)
      → List (Option Packet)
      → List (Option Bool)
      → SlaveRun
  axiom_discovery_slave master_id replied first inbox packets sets =
      elim (slave_node_discovery nic.board master_id first inbox) [
        | none ↦ slave_stops hangs
        | some (error, sent) ↦ slave_stops fails
        | some (node s, sent) ↦
            if last_accepted sent
            then slave_receive replied s.node_id packets sets
            else slave_stops fails
      ]
