-- ===== src/Discovery/Protocol/Tests.antt =====
-- A master and a slave with one interface each.
use axiom_evi_apps.Prelude.{
  ℕ, ◌<◌, ◌≡◌, refl, ap, arith, Bool, true, List, [], ◌∷◌, ◌++◌, map, Option, none, some, ◌==◌,
  ◌&&◌, if◌then◌else◌,
}
use mathlib.Core.Bool.{false≢true}
use mathlib.Core.Path.{subst}
use axiom_evi_apps.Discovery.Protocol.{
  rsp_noid, topology, end_topology, Discovery, Board, Node, topology_init, subtree, poll, poll_from,
  discover_phase, message, on_reply, hear, number_neighbour, linked, noted, finished, on_command,
  record_link, assign,
}
use axiom_evi_apps.Discovery.Protocol.Slave.{hand_over}
use axiom_evi_apps.Discovery.Protocol.Recording.{Wiring, Consistent, Truthful, AllTruthful}
use axiom_evi_apps.Discovery.Protocol.Phase.{
  HonestReply, HonestFrom, asks, looped, discover_phase-Consistent,
}
use axiom_evi_apps.Discovery.Protocol.Handover.{Closed}
use axiom_evi_apps.Discovery.Protocol.Tables.{subtree-hand_over}

abbrev board : Board
board = record {
  null_node = 255;
  nodes_num = 4;
  interfaces_num = 2;
  loopback = 4;
  num_interface = 1;
  connected = λ i. true;
  accepts = λ m. true;
}

-- Nodes 1 and 2 are wired by their interfaces 0.
abbrev pair : ℕ → ℕ → ℕ
pair i j = if i == 1 && j == 0 then 2 else if i == 2 && j == 0 then 1 else 255

abbrev slave : Node
slave = record {
  node_id = 2;
  next_id = 2;
  topology = pair;
  routing = λ _. 0;
  sent = [];
  inbox = [];
}

abbrev inbox : List (Option Discovery)
inbox =
    some (message 0 rsp_noid 0 1)
    ∷ (some (record (message 0 topology 1 2) { src_if = 0 })
        ∷ (some (message 0 end_topology 2 0) ∷ []))

abbrev fresh : Node
fresh = record {
  node_id = 1;
  next_id = 1;
  topology = topology_init 255;
  routing = λ _. 0;
  sent = [];
  inbox = inbox;
}

pair-Closed : Closed 255 4 2 pair
pair-Closed = record {
  target = λ i j lt bound there. ground arith;
  returns = λ i j lt bound there. (0, omega arith, ground arith);
}

subtree-hand_over_example :
    (s' : Node) × (subtree board 0 2 (map some (hand_over board 0 slave) ++ []) fresh ≡ some s')
    × (s'.next_id ≡ 2)
    × (s'.inbox ≡ [])
    × ((i j : ℕ)
        → i < 4
        → j < 2
        → s'.topology i j ≡ (if pair i j == 255 then fresh.topology i j else pair i j))
subtree-hand_over_example =
    subtree-hand_over board 0 0 2 slave fresh [] (omega arith) pair-Closed (λ m. refl)

-- The phase of a node with two interfaces, of which only the second leads to another.
abbrev second_only : Board
second_only = record board { num_interface = 2; connected = λ i. i == 1 }

abbrev second_inbox : List (Option Discovery)
second_inbox =
    some (message 1 rsp_noid 0 1)
    ∷ (some (record (message 1 topology 1 2) { src_if = 1 })
        ∷ (some (message 1 end_topology 2 0) ∷ []))

abbrev starting : Node
starting = record fresh { inbox = second_inbox }

-- The second interface of node 1 and the first of node 2.
abbrev wire : ℕ → ℕ → Option (ℕ × ℕ)
wire a x = if a == 1 && x == 1 then some (2, 0) else if a == 2 && x == 0 then some (1, 1) else none

wire_symmetric : (a x b y : ℕ) → wire a x ≡ some (b, y) → wire b y ≡ some (a, x)
wire_symmetric a x b y e = ground arith

abbrev wiring : Wiring
wiring = record { wire = wire; symmetric = wire_symmetric }

-- The node after its phase.
discovered : Node
unfolding discover_phase
discovered = elim (discover_phase second_only starting) [ none ↦ starting | some s ↦ s ]

phase_runs : discover_phase second_only starting ≡ some discovered
unfolding discovered discover_phase poll_from poll hear on_reply number_neighbour subtree on_command
    linked noted finished record_link assign topology_init
phase_runs = refl

links_known : (discovered.topology 1 1 ≡ 2) × (discovered.topology 2 0 ≡ 1)
unfolding discovered discover_phase poll_from poll hear on_reply number_neighbour subtree on_command
    linked noted finished record_link assign topology_init
links_known = (refl, refl)

fresh-Consistent : Consistent 255 wiring (topology_init 255)
unfolding topology_init
fresh-Consistent = record { claims = λ a x there. absurd (there refl) }

second-HonestFrom : HonestFrom second_only wiring 1 1 (looped second_only starting)
unfolding HonestFrom HonestReply AllTruthful Truthful
second-HonestFrom = (
  λ asked.
      (λ e. absurd (false≢true e), λ is. refl, (λ link. refl, (λ e. absurd (false≢true e), tt))),
  λ s' polled. tt,
)

same_node :
    (s s' : Node) → ◌≡◌ {A = Option (Node × Bool)} (some (s, true)) (some (s', true)) → s ≡ s'
same_node s s' e = ap (λ (o : Option (Node × Bool)). elim o [ none ↦ s | some p ↦ p.0 ]) e

starting-HonestFrom : HonestFrom second_only wiring 2 0 (looped second_only starting)
unfolding HonestFrom asks poll
starting-HonestFrom = (
  λ asked. absurd (false≢true asked),
  λ s' polled.
      subst (HonestFrom second_only wiring 1 1) (same_node (looped second_only starting) s' polled)
        second-HonestFrom,
)

discover_phase-Consistent_example : Consistent 255 wiring discovered.topology
discover_phase-Consistent_example =
    discover_phase-Consistent second_only wiring starting discovered starting-HonestFrom
      fresh-Consistent phase_runs
