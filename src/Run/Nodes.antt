-- ===== src/Run/Nodes.antt =====
-- axiom-run/master.c, `my_axiom_send_raw` and the count of nodes in `manage_master_services`: walks
-- over a 64-bit mask of nodes, bit n for node n. `axiom_send_raw` belongs to the NIC library and
-- enters as `accepts`, which says for a node whether its message is sent (AXIOM_RET_IS_OK).
-- `s_my_axiom_send_raw` is the same loop with another log call.
pub mod Laws
mod Tests
use axiom_evi_apps.Prelude.{
  ℕ, zero, suc, ◌+◌, ◌/◌, ◌%◌, ◌^◌, Bool, true, false, List, [], ◌∷◌, Option, none, some, ◌==◌, not,
  ◌&&◌, if◌then◌else◌,
}
use mathlib.Core.Option

-- The nodes that a message was handed to the NIC for, in order, and whether all were accepted.
pub record Sent : Type 0 where
  pub tried : List ℕ
  pub all_ok : Bool

-- One round of the loop for a node whose bit is set.
add_target : Bool → ℕ → Sent → Sent
add_target ok node s = record { tried = node ∷ s.tried; all_ok = ok && s.all_ok }

-- `while (nodes != 0)`; `none` means that the fuel ran out. `node` is a uint8_t.
unfoldable pub send_loop : (ℕ → Bool) → ℕ → ℕ → ℕ → Option Sent
unfolding add_target
send_loop accepts zero node nodes =
    if nodes == 0 then some (record { tried = []; all_ok = true }) else none
send_loop accepts (suc fuel) node nodes =
    let rest = send_loop accepts fuel ((node + 1) % 2 ^ 8) (nodes / 2) in
    if nodes == 0
    then some (record { tried = []; all_ok = true })
    else if nodes % 2 == 1
    then Option.map (add_target (accepts node) node) rest
    else rest

unfoldable pub send_raw : (ℕ → Bool) → ℕ → Option Sent
unfolding send_loop
send_raw accepts nodes = send_loop accepts 64 0 nodes

-- The count of the slaves: `while (n != 0) { if (n & 1) nnodes++; n >>= 1; }`.
unfoldable pub count_loop : ℕ → ℕ → ℕ → Option ℕ
count_loop zero n nnodes = if n == 0 then some nnodes else none
count_loop (suc fuel) n nnodes =
    let rest = count_loop fuel (n / 2) (if n % 2 == 1 then nnodes + 1 else nnodes) in
    if n == 0 then some nnodes else rest

unfoldable pub count_nodes : ℕ → Option ℕ
unfolding count_loop
count_nodes nodes = count_loop 64 nodes 0
