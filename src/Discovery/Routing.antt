-- ===== src/Discovery/Routing.antt =====
-- axiom-init/axiom-discovery/axiom_routing.c, `axiom_compute_routing_tables`: the master computes
-- the routing table of every node, level by level around it. The arrays are functions from their
-- index: a table has an entry for every node number, and no number out of range is written while
-- the topology holds only numbers of nodes. Node numbers and interface masks are uint8_t.
pub mod Links
pub mod Neighbours
pub mod Levels
pub mod Counting
pub mod Counter
pub mod Rows
mod Tests
pub mod Routes
use axiom_evi_apps.Prelude.{
  ℕ, zero, suc, ◌+◌, ◌-◌, ◌%◌, ◌^◌, ◌<◌, ◌≡◌, ◌≢◌, bit_or, Bool, true, false, Option, none, some,
  ltb, ◌==◌, not, ◌&&◌, if◌then◌else◌,
}

-- What the computation is given: the headers' AXIOM_NULL_NODE and AXIOM_INTERFACES_MAX + 1, the
-- nodes from `master_id` to `last_node`, and the discovered topology.
pub record Net : Type 0 where
  pub null_node : ℕ
  pub interfaces : ℕ
  pub master_id : ℕ
  pub last_node : ℕ
  pub topology : ℕ → ℕ → ℕ

-- table[k] = v
abbrev pub update : (ℕ → ℕ) → ℕ → ℕ → ℕ → ℕ
update table k v j = if j == k then v else table j

-- for (i = from; left > 0; i++, left--) body
unfoldable pub for_from {ℓ} : {S : Type ℓ} → ℕ → ℕ → (ℕ → S → S) → S → S
for_from zero i body s = s
for_from (suc left) i body s = for_from left (i + 1) body (body i s)

-- The row of one node, the two levels of `neighbour_table`, and `neighbours_counter`, a uint8_t.
pub record Table : Type 0 where
  pub row : ℕ → ℕ
  pub level : ℕ → ℕ
  pub next : ℕ → ℕ
  pub counter : ℕ

module _ (net : Net) (actual : ℕ) where
  unfoldable pub init_routing_neighbour : Table
  init_routing_neighbour = record {
    row = λ _. 0;
    level = λ _. net.null_node;
    next = λ _. net.null_node;
    counter = 0;
  }

  -- One interface of `axiom_compute_neighbours_route`.
  unfoldable pub neighbour : ℕ → Table → Table
  neighbour i s =
      let n = net.topology actual i in
      if n == net.null_node then s else record s {
        row = update s.row n (bit_or (s.row n) (2 ^ i % 2 ^ 8));
        level = update s.level n n;
        counter = (s.counter + 1) % 2 ^ 8;
      }

  unfoldable pub compute_neighbours_route : Table → Table
  unfolding neighbour
  compute_neighbours_route s = for_from net.interfaces 0 neighbour s

  -- One interface of a node of the level.
  unfoldable pub second_level : ℕ → ℕ → Table → Table
  second_level first i s =
      let second = net.topology first i in
      if not (second == net.null_node) && not (second == actual) && s.row second == 0
      then record s {
        row = update s.row second (s.row first);
        next = update s.next second second;
        counter = (s.counter + 1) % 2 ^ 8;
      }
      else s

  -- One node of the inner `for`.
  unfoldable pub expand : ℕ → Table → Table
  unfolding second_level
  expand node s =
      let first = s.level node in
      if first == net.null_node then s else for_from net.interfaces 0 (second_level first) s

  -- The body of the `do`: the second level, then the memcpy of it over the first.
  unfoldable pub pass : Table → Table
  unfolding expand
  pass s =
      let s' = for_from (net.last_node - net.master_id) net.master_id expand s in
      record s' { level = s'.next }

  -- `do … while (neighbours_counter < last_node - master_id - 1)`, on fuel.
  unfoldable pub pass_loop : ℕ → Table → Option Table
  unfolding pass
  pass_loop zero s = none
  pass_loop (suc fuel) s =
      let s' = pass s in
      let rest = pass_loop fuel s' in
      if ltb (s'.counter + net.master_id + 1) net.last_node then rest else some s'

  -- The computation of the row of one node.
  unfoldable pub compute_row : ℕ → Option Table
  unfolding pass_loop compute_neighbours_route init_routing_neighbour
  compute_row fuel = pass_loop fuel (compute_neighbours_route init_routing_neighbour)

  -- The table after k rounds of the `do`.
  unfoldable pub after : ℕ → Table
  unfolding compute_neighbours_route init_routing_neighbour
  after zero = compute_neighbours_route init_routing_neighbour
  after (suc k) = pass (after k)
