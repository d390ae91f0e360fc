-- ===== src/Discovery/Routing/Tests.antt =====
-- Runs of the computation of the routing tables.
use axiom_evi_apps.Prelude.{
  ℕ, zero, suc, ◌≤◌, ◌<◌, ◌≡◌, refl, ◌≢◌, arith, Option, none, some, inl, inr, ◌⊎◌, ◌↔◌, ◌==◌,
  if◌then◌else◌,
}
use axiom_evi_apps.Bits.{test_bit}
use axiom_evi_apps.Discovery.Routing.{
  Net, Table, after, compute_row, pass, pass_loop, expand, second_level, neighbour, for_from,
  compute_neighbours_route, init_routing_neighbour,
}
use axiom_evi_apps.Discovery.Routing.Links.{IsLink, IsTopology, Walk}
use axiom_evi_apps.Discovery.Routing.Counter.{IsSingle}
use axiom_evi_apps.Discovery.Routing.Routes.{after-routes}
use axiom_evi_apps.Discovery.Routing.Rows.{IsFull, compute_row-shortest}

-- Three nodes in a line: 0 - 1 - 2.
abbrev line_links : ℕ → ℕ → ℕ
line_links zero zero = 1
line_links (suc zero) zero = 0
line_links (suc zero) (suc zero) = 2
line_links (suc (suc zero)) zero = 1
line_links f i = 255

abbrev line : Net
line = record {
  null_node = 255;
  interfaces = 4;
  master_id = 0;
  last_node = 3;
  topology = line_links;
}

-- Four nodes in a line with two links between the first two: 0 = 1 - 2 - 3.
abbrev double_links : ℕ → ℕ → ℕ
double_links zero zero = 1
double_links zero (suc zero) = 1
double_links (suc zero) zero = 0
double_links (suc zero) (suc zero) = 0
double_links (suc zero) (suc (suc zero)) = 2
double_links (suc (suc zero)) zero = 1
double_links (suc (suc zero)) (suc zero) = 3
double_links (suc (suc (suc zero))) zero = 2
double_links f i = 255

abbrev double : Net
double = record line { last_node = 4; topology = double_links }

entry : ℕ → Option Table → ℕ
entry t none = 0
entry t (some s) = s.row t

row_of_end : entry 2 (compute_row line 0 3) ≡ 1
unfolding entry compute_row pass_loop pass expand second_level neighbour for_from
    compute_neighbours_route init_routing_neighbour
row_of_end = refl

double_neighbour : entry 1 (compute_row double 0 3) ≡ 0b11
unfolding entry compute_row pass_loop pass expand second_level neighbour for_from
    compute_neighbours_route init_routing_neighbour
double_neighbour = refl

-- The double link is counted twice, and the row ends before the last node.
double_misses_last : entry 3 (compute_row double 0 3) ≡ 0
unfolding entry compute_row pass_loop pass expand second_level neighbour for_from
    compute_neighbours_route init_routing_neighbour
double_misses_last = refl

line_links-inside : (f i : ℕ) → (line_links f i ≡ 255) ⊎ (line_links f i < 3)
line_links-inside zero zero = inr (omega arith)
line_links-inside zero (suc i) = inl refl
line_links-inside (suc zero) zero = inr (omega arith)
line_links-inside (suc zero) (suc zero) = inr (omega arith)
line_links-inside (suc zero) (suc (suc i)) = inl refl
line_links-inside (suc (suc zero)) zero = inr (omega arith)
line_links-inside (suc (suc zero)) (suc i) = inl refl
line_links-inside (suc (suc (suc f))) i = inl refl

line-IsTopology : IsTopology line
line-IsTopology = record {
  ordered = omega arith;
  nodes = λ f lt. omega arith;
  inside = λ f i t lt link. ground (arith, link.connected, link.present, line_links-inside f i);
  few = omega arith;
}

line_links-middle :
    (i t : ℕ) → line_links 1 i ≡ t → t ≢ 255 → (t ≢ 1) × (t ≡ (if i == 0 then 0 else 2)) × (i < 2)
line_links-middle zero t e present = ground arith
line_links-middle (suc zero) t e present = ground arith
line_links-middle (suc (suc i)) t e present = absurd (omega arith)

line-IsSingle : IsSingle line 1
line-IsSingle = record {
  single = λ i j t hi hj. ground (
    arith,
    line_links-middle i t hi.connected hi.present,
    line_links-middle j t hj.connected hj.present,
  );
  no_self = λ i t h. (line_links-middle i t h.connected h.present).0;
  inside = omega arith;
  above = omega arith;
  small = omega arith;
}

IsLink-of : (f i : ℕ) → i < 4 → line_links f i ≢ 255 → IsLink line f i (line_links f i)
IsLink-of f i lt present = record { interface = lt; connected = refl; present = present }

line-reached :
    (t : ℕ)
    → line.master_id ≤ t
    → t < line.last_node
    → t ≢ 1
    → (j : ℕ) × (j ≤ 0) × Walk line 1 t (suc j)
line-reached zero ge lt other =
    (0, omega arith, Walk.hop 0 Walk.here (IsLink-of 1 0 (omega arith) (omega arith)))
line-reached (suc zero) ge lt other = absurd (other refl)
line-reached (suc (suc zero)) ge lt other =
    (0, omega arith, Walk.hop 1 Walk.here (IsLink-of 1 1 (omega arith) (omega arith)))
line-reached (suc (suc (suc t))) ge lt other = absurd (omega arith)

compute_row-shortest_example :
    (s : Table) × (compute_row line 1 1 ≡ some s)
    × IsFull line 1 s
    × ((t x n : ℕ)
        → t ≢ 1
        → test_bit (s.row t) x ≡ 1
        → Walk line 1 t n
        → (m : ℕ) × (j : ℕ) × (suc j ≤ n) × IsLink line 1 x m × Walk line m t j)
compute_row-shortest_example =
    compute_row-shortest line 1 0 line-IsTopology line-IsSingle line-reached

after-routes_example :
    (((after line 0 1).row 2 ≢ 0) ↔ ((j : ℕ) × (j ≤ 1) × Walk line 0 2 (suc j)))
    × ((x n : ℕ)
        → test_bit ((after line 0 1).row 2) x ≡ 1
        → Walk line 0 2 n
        → (m : ℕ) × (j : ℕ) × (suc j ≤ n) × IsLink line 0 x m × Walk line m 2 j)
after-routes_example = after-routes line 0 line-IsTopology (omega arith) 1 2 (omega arith)
