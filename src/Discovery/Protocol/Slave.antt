-- ===== src/Discovery/Protocol/Slave.antt =====
-- axiom-init/axiom-discovery/axiom_discovery_protocol.c, `axiom_slave_node_discovery`: a slave takes
-- its number, discovers, and hands its topology over.
use axiom_evi_apps.Prelude.{
  ℕ, zero, suc, ◌+◌, Bool, true, false, List, [], ◌∷◌, ◌++◌, Option, none, some, ◌==◌, not,
  if◌then◌else◌,
}
use axiom_evi_apps.Discovery.Protocol.{
  Command, req_id, rsp_noid, setid, start, topology, end_topology, Discovery, Board, Node, message,
  topology_init, routing_mask, set_routing_range, discover_phase,
}

-- How a wait for a command ends.
pub data Wait : Type 0 where
  waiting failed : Wait
  found : Discovery → List (Option Discovery) → Wait

-- An error before the phase, or the node after it (what is returned then is the result of the last
-- send).
pub data Result : Type 0 where
  error : Result
  node : Node → Result

abbrev is_req_id : Command → Bool
is_req_id req_id = true
is_req_id _ = false

abbrev is_setid : Command → Bool
is_setid setid = true
is_setid _ = false

abbrev is_start : Command → Bool
is_start start = true
is_start _ = false

module _ (board : Board) where
  -- The search for the interface of node `from` that leads to node `to`; the number of interfaces
  -- when there is none.
  unfoldable pub find_back : (ℕ → ℕ → ℕ) → ℕ → ℕ → ℕ → ℕ → ℕ
  find_back t from to zero w = w
  find_back t from to (suc left) w =
      let rest = find_back t from to left (w + 1) in if t from w == to then w else rest

  -- The messages for the entries of one row, from interface j on.
  unfoldable pub row_messages : ℕ → (ℕ → ℕ → ℕ) → ℕ → ℕ → ℕ → List Discovery
  unfolding find_back
  row_messages through t i zero j = []
  row_messages through t i (suc left) j =
      let rest = row_messages through t i left (j + 1) in
      if t i j == board.null_node
      then rest
      else record {
        interface = through;
        command = topology;
        src_node = i;
        dst_node = t i j;
        src_if = j;
        dst_if = find_back t (t i j) i board.interfaces_num 0;
      }
        ∷ rest

  unfoldable pub table_messages : ℕ → (ℕ → ℕ → ℕ) → ℕ → ℕ → List Discovery
  unfolding row_messages
  table_messages through t zero i = []
  table_messages through t (suc left) i =
      row_messages through t i board.interfaces_num 0 ++ table_messages through t left (i + 1)

  -- The last message of a slave.
  unfoldable pub end_message : ℕ → ℕ → Discovery
  end_message through next_id = message through end_topology next_id 0

  -- What a slave sends when its phase is over: its topology, and its next number. The first message
  -- that is not accepted is the last.
  unfoldable pub send_all_messages : List Discovery → List Discovery
  send_all_messages [] = []
  send_all_messages (m ∷ ms) =
      let rest = send_all_messages ms in if board.accepts m then m ∷ rest else m ∷ []

  unfoldable pub hand_over : ℕ → Node → List Discovery
  unfolding send_all_messages table_messages end_message
  hand_over through s =
      send_all_messages (
        table_messages through s.topology board.nodes_num 0 ++ (end_message through s.next_id ∷ []))

  -- The loops that wait for a command: the message and what is unread behind it, or the error of a
  -- failed receive.
  unfoldable pub wait_for : (Command → Bool) → List (Option Discovery) → Wait
  wait_for wanted [] = waiting
  wait_for wanted (none ∷ more) = failed
  wait_for wanted (some m ∷ more) =
      let rest = wait_for wanted more in if wanted m.command then found m more else rest

  -- The slave, from the first message on and with `first_node` for AXIOM_INIT_MASTER_NODE: it asks
  -- for a number, takes it, discovers and hands over. `none` is a wait that does not end.
  unfoldable pub slave_node_discovery :
      ℕ → Discovery → List (Option Discovery) → Option (Result × List Discovery)
  unfolding wait_for discover_phase topology_init set_routing_range hand_over
  slave_node_discovery first_node m inbox =
      let noid : Discovery = record {
        interface = m.interface;
        command = rsp_noid;
        src_node = 0;
        dst_node = m.src_node;
        src_if = m.interface;
        dst_if = 0;
      } in
      if not (is_req_id m.command)
      then some (error, [])
      else if not (board.accepts noid)
      then some (error, noid ∷ [])
      else elim (wait_for is_setid inbox) [
        | waiting ↦ none
        | failed ↦ some (error, noid ∷ [])
        | found set more ↦ elim (wait_for is_start more) [
          | waiting ↦ none
          | failed ↦ some (error, noid ∷ [])
          | found go behind ↦
              elim (discover_phase board (record {
                node_id = set.dst_node;
                next_id = go.dst_node;
                topology = topology_init board.null_node;
                routing =
                    set_routing_range first_node m.src_node (routing_mask m.interface) (λ _. 0);
                sent = noid ∷ [];
                inbox = behind;
              })) [ none ↦ none | some s ↦ some (node s, s.sent ++ hand_over go.interface s) ]
        ]
      ]
