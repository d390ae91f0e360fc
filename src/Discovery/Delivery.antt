-- ===== src/Discovery/Delivery.antt =====
-- axiom-init/axiom-discovery/axiom_routing.c, the delivery of the routing tables: the master sends
-- each node the entries of its row and then an end message, and a node stores what it receives. The
-- NIC library's axiom_send_raw_delivery enters as `accepted`, which says for a destination and a
-- packet whether it is sent, and what axiom_recv_raw_delivery returns is a list, in which `none` is
-- an error. Node numbers are below AXIOM_NODES_NUM, the size of a table, which is a function here.
pub mod Rows
pub mod Wait
mod Tests
use axiom_evi_apps.Prelude.{
  ℕ, zero, suc, ◌+◌, ◌-◌, Bool, true, false, List, [], ◌∷◌, ◌++◌, Option, none, some, ltb, ◌==◌,
  if◌then◌else◌,
}
use axiom_evi_apps.Discovery.Routing.{update}

-- The AXIOM_RT_CMD_ values that the delivery tells apart.
pub data Command : Type 0 where
  info end_info rt_reply other : Command

-- What a delivery message carries.
pub record Packet : Type 0 where
  pub command : Command
  pub node : ℕ
  pub ifaces : ℕ

-- Messages in order, each with its destination, and whether all of them were accepted.
pub record Sends : Type 0 where
  pub sent : List (ℕ × Packet)
  pub ok : Bool

-- Code that returns at the first error, and what follows it.
unfoldable pub and_then : Sends → Sends → Sends
and_then first rest =
    if first.ok then record { sent = first.sent ++ rest.sent; ok = rest.ok } else first

abbrev pub nothing : Sends
nothing = record { sent = []; ok = true }

abbrev pub end_packet : Packet
end_packet = record { command = end_info; node = 0; ifaces = 0 }

module _ (accepted : ℕ → Packet → Bool) where
  unfoldable pub send_delivery : ℕ → Packet → Sends
  send_delivery dest p = record { sent = (dest, p) ∷ []; ok = accepted dest p }

  -- The inner `for`: the entries of the row of node `dest`, from node i on, `left` of them.
  unfoldable pub send_row : (ℕ → ℕ) → ℕ → ℕ → ℕ → Sends
  unfolding and_then send_delivery
  send_row row dest zero i = nothing
  send_row row dest (suc left) i =
      let rest = send_row row dest left (i + 1) in
      if row i == 0
      then rest
      else and_then (send_delivery dest (record { command = info; node = i; ifaces = row i })) rest

  -- The first outer `for`, from node `dest` on, `left` of them.
  unfoldable pub send_tables : (ℕ → ℕ → ℕ) → ℕ → ℕ → ℕ → Sends
  unfolding send_row
  send_tables tables last_node zero dest = nothing
  send_tables tables last_node (suc left) dest =
      and_then (send_row (tables dest) dest last_node 0)
        (send_tables tables last_node left (dest + 1))

  -- The second one.
  unfoldable pub send_ends : ℕ → ℕ → Sends
  send_ends zero dest = nothing
  send_ends (suc left) dest = and_then (send_delivery dest end_packet) (send_ends left (dest + 1))

  unfoldable pub delivery_routing_tables : (ℕ → ℕ → ℕ) → ℕ → ℕ → Sends
  unfolding send_tables send_ends
  delivery_routing_tables tables master_id last_node =
      let others = last_node - (master_id + 1) in
      and_then (send_tables tables last_node others (master_id + 1))
        (send_ends others (master_id + 1))

-- How `axiom_receive_routing_tables` ends: it still waits for a message, a receive failed, or the
-- end message came: the table, `max_node_id`, and whether the reply was accepted.
pub data Receipt : Type 0 where
  waiting failed : Receipt
  received : (ℕ → ℕ) → ℕ → Bool → Receipt

-- The `while`, with `max_id`; `replied` says whether the reply to the master is accepted.
unfoldable pub receive_loop : Bool → ℕ → List (Option Packet) → (ℕ → ℕ) → ℕ → Receipt
receive_loop replied node_id [] table max_id = waiting
receive_loop replied node_id (none ∷ ps) table max_id = failed
receive_loop replied node_id (some p ∷ ps) table max_id = elim p.command [
  | info ↦
      receive_loop replied node_id ps (update table p.node p.ifaces)
        (if ltb max_id p.node then p.node else max_id)
  | end_info ↦ received table (if ltb max_id node_id then node_id else max_id) replied
  | rt_reply ↦ receive_loop replied node_id ps table max_id
  | other ↦ receive_loop replied node_id ps table max_id
]

-- From the table that axiom_init_routing_table clears.
unfoldable pub receive_routing_tables : Bool → ℕ → List (Option Packet) → Receipt
unfolding receive_loop
receive_routing_tables replied node_id ps = receive_loop replied node_id ps (λ _. 0) 0

-- How `axiom_wait_rt_received` ends: it still waits, it returns an error, or it returns.
pub data WaitEnd : Type 0 where
  still_waiting wait_error all_replied : WaitEnd

unfoldable pub is_reply : Command → Bool
is_reply rt_reply = true
is_reply info = false
is_reply end_info = false
is_reply other = false

-- The `while` for `goal` nodes: the array `reply_received` and `reply_received_num`.
unfoldable pub wait_loop : ℕ → List (Option Packet) → (ℕ → ℕ) → ℕ → WaitEnd
unfolding is_reply
wait_loop goal [] reply_received num = if num == goal then all_replied else still_waiting
wait_loop goal (none ∷ ps) reply_received num = if num == goal then all_replied else wait_error
wait_loop goal (some p ∷ ps) reply_received num =
    let rest =
      if reply_received p.node == 0
      then wait_loop goal ps (update reply_received p.node 1) (num + 1)
      else wait_loop goal ps reply_received num in
    if num == goal then all_replied else if is_reply p.command then rest else wait_error

unfoldable pub wait_rt_received : ℕ → ℕ → List (Option Packet) → WaitEnd
unfolding wait_loop
wait_rt_received master_id last_node ps = wait_loop (last_node - master_id - 1) ps (λ _. 0) 0
