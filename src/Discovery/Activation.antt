-- ===== src/Discovery/Activation.antt =====
-- axiom-init/axiom-discovery/axiom_routing.c, `axiom_set_routing_table`: the nodes put their tables
-- into effect, as the set message floods the network from the master. The NIC library enters as
-- `connected` and `accepted`, which say for an interface whether it leads to a node and whether a
-- message over it is sent. What axiom_recv_raw_set_routing returns is a list: `none` is an error,
-- and `some` says whether the command is AXIOM_RT_CMD_SET_ROUTING. The table is the caller's array,
-- in which the function sets the node's own entry, to the mask of the loopback interface.
pub mod Flood
mod Tests
use axiom_evi_apps.Prelude.{
  ℕ, zero, suc, ◌+◌, ◌-◌, ◌%◌, ◌^◌, ◌==◌, Bool, true, false, List, [], ◌∷◌, ◌++◌, Option, none,
  some, if◌then◌else◌,
}

-- What a node does: axiom_write_routing_table of a table, or a set message over an interface.
pub data Action : Type 0 where
  write_table : (ℕ → ℕ) → Action
  send_set : ℕ → Action

-- How a phase ends: it succeeds, it returns an error, or it waits for a message.
pub data End : Type 0 where
  success failure blocked : End

-- A phase: what it did, how it ended, and the messages that it left.
pub record Phase : Type 0 where
  pub actions : List Action
  pub end : End
  pub left : List (Option Bool)

-- A phase, and the next one if it succeeded.
unfoldable pub and_next : Phase → (List (Option Bool) → Phase) → Phase
and_next p next = elim p.end [
  | success ↦ record (next p.left) { actions = p.actions ++ (next p.left).actions }
  | failure ↦ p
  | blocked ↦ p
]

-- n receptions of any command.
unfoldable pub receive_any : ℕ → List (Option Bool) → Phase
receive_any zero ms = record { actions = []; end = success; left = ms }
receive_any (suc n) [] = record { actions = []; end = blocked; left = [] }
receive_any (suc n) (none ∷ ms) = record { actions = []; end = failure; left = ms }
receive_any (suc n) (some b ∷ ms) = receive_any n ms

-- The slave's wait for the first set message, at which it writes its table.
unfoldable pub wait_set : (ℕ → ℕ) → List (Option Bool) → Phase
wait_set table [] = record { actions = []; end = blocked; left = [] }
wait_set table (none ∷ ms) = record { actions = []; end = failure; left = ms }
wait_set table (some true ∷ ms) = record {
  actions = write_table table ∷ [];
  end = success;
  left = ms;
}
wait_set table (some false ∷ ms) = wait_set table ms

-- routing_table[node_id] = (1 << AXIOMREG_ROUTING_LOOPBACK_IF), an axiom_if_id_t of 8 bits
unfoldable pub set_loopback : ℕ → ℕ → (ℕ → ℕ) → ℕ → ℕ
set_loopback loopback node_id table t = if t == node_id then 2 ^ loopback % 2 ^ 8 else table t

module _ (connected accepted : ℕ → Bool) where
  -- The set message over every connected interface, from i on.
  unfoldable pub send_all : ℕ → ℕ → List (Option Bool) → Phase
  send_all zero i ms = record { actions = []; end = success; left = ms }
  send_all (suc n) i ms =
      let rest = send_all n (i + 1) ms in
      if connected i
      then (if accepted i
          then record rest { actions = send_set i ∷ rest.actions }
          else record { actions = send_set i ∷ []; end = failure; left = ms })
      else rest

  -- num_interface
  unfoldable pub connections : ℕ → ℕ → ℕ
  connections zero i = 0
  connections (suc n) i = let rest = connections n (i + 1) in if connected i then rest + 1 else rest

  -- The rest of the function, with the table that has its loopback entry.
  unfoldable pub set_master : (ℕ → ℕ) → ℕ → List (Option Bool) → Phase
  unfolding and_next send_all receive_any connections
  set_master table interfaces ms =
      and_next (record { actions = write_table table ∷ []; end = success; left = ms })
        (λ ms. and_next (send_all interfaces 0 ms) (receive_any (connections interfaces 0)))

  unfoldable pub set_slave : (ℕ → ℕ) → ℕ → List (Option Bool) → Phase
  unfolding and_next wait_set send_all receive_any connections
  set_slave table interfaces ms =
      and_next (wait_set table ms)
        (λ ms. and_next (send_all interfaces 0 ms) (receive_any (connections interfaces 0 - 1)))
