-- ===== src/Init/Replies.antt =====
-- axiom-init: the main loop's dispatch, the answers to ping and traceroute, and the file of the
-- routing table (axiom-init.c, axiom-pong/axiom_pong.c and
-- axiom-traceroute-reply/axiom_traceroute_reply.c). The commands of the NIC headers are a data type;
-- `axiom_send_raw` and `axiom_next_hop` are parameters, and so is the width in bits of a traceroute step.
pub mod Route
mod Tests
use axiom_evi_apps.Prelude.{
  ℕ, zero, suc, ◌+◌, ◌%◌, ◌^◌, Bool, true, false, List, [], ◌∷◌, ◌++◌, Option, none, some, leb,
  ◌==◌, ◌||◌, ltb, not, if◌then◌else◌,
}

-- AXIOM_DSCV_CMD_REQ_ID and the AXIOM_CMD_ values that the daemon knows.
pub data Command : Type 0 where
  dscv_req_id start_discovery ping traceroute spawn_req session_req : Command
  alloc alloc_appid alloc_release pong traceroute_reply other : Command

-- The handlers.
pub data Handler : Type 0 where
  discovery_slave discovery_master pong_handler traceroute_handler : Handler
  spawn_handler session_handler allocator_handler discarded : Handler

-- The switch of the main loop.
unfoldable pub handler : Command → Handler
handler dscv_req_id = discovery_slave
handler start_discovery = discovery_master
handler ping = pong_handler
handler traceroute = traceroute_handler
handler spawn_req = spawn_handler
handler session_req = session_handler
handler alloc = allocator_handler
handler alloc_appid = allocator_handler
handler alloc_release = allocator_handler
handler pong = discarded
handler traceroute_reply = discarded
handler other = discarded

-- Whether the routing table is then saved, which `-s` asks for.
unfoldable pub saves : Bool → Handler → Bool
saves save_rt discovery_slave = save_rt
saves save_rt discovery_master = save_rt
saves save_rt _ = false

-- axiom_ping_payload_t
pub record Ping : Type 0 where
  pub command : Command
  pub unique_id : ℕ
  pub seq_num : ℕ
  pub timestamp : ℕ

abbrev pub is_ping : Command → Bool
is_ping ping = true
is_ping _ = false

abbrev pub is_traceroute : Command → Bool
is_traceroute traceroute = true
is_traceroute _ = false

-- The answer and the node that it goes to.
unfoldable pub axiom_pong : ℕ → Ping → Option (ℕ × Ping)
axiom_pong src p = if is_ping p.command then some (src, record p { command = pong }) else none

-- axiom_traceroute_payload_t
pub record Traceroute : Type 0 where
  pub command : Command
  pub src_id : ℕ
  pub dst_id : ℕ
  pub step : ℕ

-- What a node sends: an answer to a node, or a message through one of its interfaces.
pub data Post : Type 0 where
  to_node to_interface : ℕ → Traceroute → Post

-- The handler of a node, with the width of a step: whether the NIC accepts a message, and the interface to a node.
unfoldable pub axiom_traceroute_reply :
    ℕ → (Post → Bool) → (ℕ → Option ℕ) → ℕ → Traceroute → List Post
axiom_traceroute_reply width accepts next_hop node_id t =
    let stepped = record t { step = (t.step + 1) % 2 ^ width } in
    let answer = to_node t.src_id (record stepped { command = traceroute_reply }) in
    if not (is_traceroute t.command)
    then []
    else if not (accepts answer)
    then answer ∷ []
    else if node_id == t.dst_id
    then answer ∷ []
    else elim (next_hop t.dst_id) [
      | none ↦ answer ∷ []
      | some if_id ↦ answer ∷ (to_interface if_id stepped ∷ [])
    ]
