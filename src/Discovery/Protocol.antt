-- ===== src/Discovery/Protocol.antt =====
-- axiom-init/axiom-discovery/axiom_discovery_protocol.c: how the nodes number themselves and learn
-- the topology. A topology is a function from a node and an interface. The discovery commands of
-- the NIC library are a data type; which interfaces are connected and which messages are accepted
-- are parameters, and the messages received are a list, where `none` is a failed receive. A node
-- that waits for a message that does not come has no result. Node numbers are uint8_t and below
-- the null node.
pub mod Slave
pub mod Recording
pub mod Phase
pub mod Handover
pub mod Tables
mod Tests
use axiom_evi_apps.Prelude.{
  ℕ, zero, suc, ◌+◌, ◌-◌, ◌%◌, ◌^◌, Bool, true, false, List, [], ◌∷◌, ◌++◌, Option, none, some, leb,
  ◌==◌, not, ◌&&◌, if◌then◌else◌,
}
use mathlib.Core.Option
use axiom_evi_apps.Discovery.Routing.{update, for_from}

-- AXIOM_DSCV_CMD_REQ_ID and the other commands
pub data Command : Type 0 where
  req_id rsp_noid rsp_id setid start topology end_topology : Command

-- The payload of a discovery message, with the interface that it goes through.
pub record Discovery : Type 0 where
  pub interface : ℕ
  pub command : Command
  pub src_node : ℕ
  pub dst_node : ℕ
  pub src_if : ℕ
  pub dst_if : ℕ

-- The constants of the NIC headers, the interfaces of the board, and what the NIC accepts.
pub record Board : Type 0 where
  pub null_node : ℕ
  pub nodes_num : ℕ
  pub interfaces_num : ℕ
  pub loopback : ℕ
  pub num_interface : ℕ
  pub connected : ℕ → Bool
  pub accepts : Discovery → Bool

pub record Node : Type 0 where
  pub node_id : ℕ
  pub next_id : ℕ
  pub topology : ℕ → ℕ → ℕ
  pub routing : ℕ → ℕ
  pub sent : List Discovery
  pub inbox : List (Option Discovery)

-- axiom_topology_init
unfoldable pub topology_init : ℕ → ℕ → ℕ → ℕ
topology_init null i j = null

-- topology[a][x] = b
unfoldable pub assign : (ℕ → ℕ → ℕ) → ℕ → ℕ → ℕ → ℕ → ℕ → ℕ
assign t a x b i j = if i == a && j == x then b else t i j

-- The pair of assignments that records a link.
unfoldable pub record_link : (ℕ → ℕ → ℕ) → ℕ → ℕ → ℕ → ℕ → ℕ → ℕ → ℕ
unfolding assign
record_link t a x b y = assign (assign t a x b) b y a

-- axiom_codify_routing_mask
abbrev pub routing_mask : ℕ → ℕ
routing_mask if_id = 2 ^ if_id % 2 ^ 8

-- for (node_index = from; node_index <= to; node_index++) axiom_set_routing(dev, node_index, mask)
unfoldable pub set_routing_range : ℕ → ℕ → ℕ → (ℕ → ℕ) → ℕ → ℕ
set_routing_range from to mask routing =
    for_from (to + 1 - from) from (λ (i : ℕ) (r : ℕ → ℕ). update r i mask) routing

abbrev pub post : Discovery → Node → Node
post m s = record s { sent = s.sent ++ (m ∷ []) }

-- The branches of the loop below by the command: a request for a number, a link, the end, another.
unfoldable pub on_command :
    Command → Option Node → Option Node → Option Node → Option Node → Option Node
on_command req_id asked linked ended ignored = asked
on_command topology asked linked ended ignored = linked
on_command end_topology asked linked ended ignored = ended
on_command rsp_noid asked linked ended ignored = ignored
on_command rsp_id asked linked ended ignored = ignored
on_command setid asked linked ended ignored = ignored
on_command start asked linked ended ignored = ignored

-- The answer to a request for a number, the node after a link, and the node after the end of the
-- topology: the new next number, and the way to all the nodes that were numbered behind `through`.
abbrev pub reply_to : Node → Discovery → Discovery
reply_to s m = record {
  interface = m.interface;
  command = rsp_id;
  src_node = s.node_id;
  dst_node = m.src_node;
  src_if = m.interface;
  dst_if = 0;
}

unfoldable pub noted : Discovery → Node → Node
unfolding record_link
noted m s = record s { topology = record_link s.topology m.src_node m.src_if m.dst_node m.dst_if }

unfoldable pub finished : ℕ → ℕ → Discovery → List (Option Discovery) → Node → Node
unfolding set_routing_range
finished through first m more s = record s {
  next_id = m.src_node;
  routing = set_routing_range first m.src_node (routing_mask through) s.routing;
  inbox = more;
}

abbrev pub message : ℕ → Command → ℕ → ℕ → Discovery
message interface command src dst = record {
  interface = interface;
  command = command;
  src_node = src;
  dst_node = dst;
  src_if = 0;
  dst_if = 0;
}

-- (*next_id)++ on a uint8_t
abbrev pub next_number : Node → ℕ
next_number s = (s.next_id + 1) % 2 ^ 8

-- The node when it has sent the number to the neighbour on interface i, and when it has recorded
-- the link and sent the start message.
abbrev pub named : ℕ → Node → Node
named i s = post (message i setid s.node_id (next_number s)) (record s { next_id = next_number s })

unfoldable pub linked : ℕ → Discovery → Node → Node
unfolding record_link
linked i m s = post (message i start s.node_id (next_number s)) (record (named i s) {
  routing = update s.routing (next_number s) (routing_mask i);
  topology = record_link s.topology s.node_id i (next_number s) m.src_if;
})

module _ (board : Board) where
  -- The `while` that waits for the topology of a numbered neighbour, behind interface `through` and
  -- with the numbers from `first` on. A failed receive or reply leaves the loop.
  unfoldable pub subtree : ℕ → ℕ → List (Option Discovery) → Node → Option Node
  unfolding on_command noted finished
  subtree through first [] s = none
  subtree through first (none ∷ more) s = some (record s { inbox = more })
  subtree through first (some m ∷ more) s =
      let answered = post (reply_to s m) s in
      let after_answer = subtree through first more answered in
      on_command m.command
        (if board.accepts (reply_to s m)
          then after_answer
          else some (record answered { inbox = more }))
        (subtree through first more (noted m s)) (some (finished through first m more s))
        (subtree through first more s)

  -- The neighbour on interface i has no number: it gets the next one, and discovers in its turn.
  unfoldable pub number_neighbour : ℕ → Discovery → Node → Option (Node × Bool)
  unfolding subtree linked
  number_neighbour i m s =
      if not (board.accepts (message i setid s.node_id (next_number s)))
      then some (named i s, false)
      else if not (board.accepts (message i start s.node_id (next_number s)))
      then some (linked i m s, false)
      else Option.map (λ s'. (s', true)) (subtree i (next_number s) s.inbox (linked i m s))

  -- The answer of a neighbour, by its command.
  unfoldable pub on_reply : ℕ → Command → Discovery → Node → Option (Node × Bool)
  unfolding number_neighbour record_link
  on_reply i rsp_id m s = some (
    record s { topology = record_link s.topology s.node_id m.interface m.src_node m.src_if },
    true,
  )
  on_reply i rsp_noid m s = number_neighbour i m s
  on_reply i req_id m s = some (s, false)
  on_reply i setid m s = some (s, false)
  on_reply i start m s = some (s, false)
  on_reply i topology m s = some (s, false)
  on_reply i end_topology m s = some (s, false)

  unfoldable pub hear : ℕ → List (Option Discovery) → Node → Option (Node × Bool)
  unfolding on_reply
  hear i [] s = none
  hear i (none ∷ more) s = some (record s { inbox = more }, false)
  hear i (some m ∷ more) s = on_reply i m.command m (record s { inbox = more })

  -- One interface: the node after it, and whether the loop goes on.
  unfoldable pub poll : ℕ → Node → Option (Node × Bool)
  unfolding hear
  poll i s =
      let ask = message i req_id s.node_id 0 in
      let asked = post ask s in
      let heard = hear i s.inbox asked in
      if not (board.connected i)
      then some (s, true)
      else if not (s.topology s.node_id i == board.null_node)
      then some (s, true)
      else if not (board.accepts ask)
      then some (asked, false)
      else heard

  -- The loop over the interfaces from i on.
  unfoldable pub poll_from : ℕ → ℕ → Node → Option Node
  unfolding poll
  poll_from zero i s = some s
  poll_from (suc left) i s = elim (poll i s) [
    | none ↦ none
    | some (s', go_on) ↦ let rest = poll_from left (i + 1) s' in if go_on then rest else some s'
  ]

  unfoldable pub discover_phase : Node → Option Node
  unfolding poll_from
  discover_phase s =
      poll_from board.num_interface 0
        (record s { routing = update s.routing s.node_id (routing_mask board.loopback) })

  -- The master: the node after the phase, and `last_node`.
  unfoldable pub master_node_discovery : ℕ → List (Option Discovery) → Option (Node × ℕ)
  unfolding discover_phase topology_init
  master_node_discovery master_id inbox =
      elim (discover_phase (record {
        node_id = master_id;
        next_id = master_id;
        topology = topology_init board.null_node;
        routing = λ _. 0;
        sent = [];
        inbox = inbox;
      })) [ none ↦ none | some s ↦ some (s, (s.next_id + 1) % 2 ^ 8) ]
