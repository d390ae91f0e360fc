-- ===== src/Discovery/Routing/Counter.antt =====
-- `neighbours_counter`: it counts the entries of the row, where no two interfaces of the node lead
-- to the same neighbour.
use axiom_evi_apps.Prelude.{
  ℕ, ◌+◌, ◌-◌, ◌%◌, ◌^◌, ◌≤◌, ◌<◌, ◌≡◌, refl, ◌≢◌, sym, arith, ◌==◌, not, ◌&&◌, Bool-cases, ◌⊎◌,
  inl, inr, bit_or,
}
use axiom_evi_apps.Discovery.Routing.{
  Net, Table, update, neighbour, second_level, expand, pass, init_routing_neighbour,
  compute_neighbours_route,
}
use axiom_evi_apps.Discovery.Routing.Links.{IsLink, IsTopology, for_from_inv}
use axiom_evi_apps.Discovery.Routing.Neighbours.{Neighbours, init-Neighbours, neighbour-Neighbours}
use axiom_evi_apps.Discovery.Routing.Counting.{count, count-update, count-one_unset, count-none}
use axiom_evi_apps.Discovery.Routing.Levels.{Ready}

module _ (net : Net) (actual : ℕ) where
  abbrev pub size : ℕ
  size = net.last_node - net.master_id

  -- The links of the node lead to different nodes, and none to itself. Node numbers fit a uint8_t.
  pub record IsSingle : Type 0 where
    pub single : (i j t : ℕ) → IsLink net actual i t → IsLink net actual j t → i ≡ j
    pub no_self : (i t : ℕ) → IsLink net actual i t → t ≢ actual
    pub inside : actual < net.last_node
    pub above : net.master_id ≤ actual
    pub small : net.last_node < 2 ^ 8

  pub record Exact (s : Table) : Type 0 where
    pub exact : s.counter ≡ count s.row net.master_id size
    pub self : s.row actual ≡ 0

  -- A step that sets the entry of a node which had none.
  set-Exact :
      IsTopology net
      → IsSingle
      → (s s' : Table) (t v : ℕ) → net.master_id ≤ t
      → t < net.last_node
      → t ≢ actual
      → s.row t ≡ 0
      → v ≢ 0
      → s'.row ≡ update s.row t v
      → s'.counter ≡ (s.counter + 1) % 2 ^ 8
      → Exact s
      → Exact s'
  set-Exact ok one s s' t v ge lt other unset set row counter h =
      let bound = count-one_unset s.row t net.master_id size ge (omega arith) unset in
      let grown = count-update s.row t v net.master_id size ge (omega arith) unset set in
      record {
        exact = rw row (omega (arith, counter, h.exact, bound, grown, one.small));
        self = rw row (ground (arith, h.self));
      }

  neighbour-Exact :
      IsTopology net
      → IsSingle
      → (i : ℕ) (s : Table) → i < net.interfaces
      → Neighbours net actual i s
      → Exact s
      → Exact (neighbour net actual i s)
  unfolding neighbour
  neighbour-Exact ok one i s lt h e =
      let n = net.topology actual i in
      let mask = bit_or (s.row n) (2 ^ i % 2 ^ 8) in
      elim (Bool-cases (n == net.null_node)) [
        | inl absent ↦ rw absent e
        | inr present ↦
            let link : IsLink net actual i n = record {
              interface = lt;
              connected = refl;
              present = ground arith;
            } in
            let next = neighbour-Neighbours net actual ok i s lt h in
            let unset : s.row n ≡ 0 = elim (Bool-cases (s.row n == 0)) [
              | inl unset ↦ ground arith
              | inr taken ↦
                  let b = h.some_bit n (ground arith) in
                  let same = one.single b.0 i n (h.linked n b.0 b.1) link in
                  absurd (omega (arith, h.below n b.0 b.1))
            ] in
            let set : mask ≢ 0 = ground (arith, next.levels n) in
            let place = ok.inside actual i n one.inside link in
            rw present (
              set-Exact ok one s
                (record s {
                  row = update s.row n mask;
                  level = update s.level n n;
                  counter = (s.counter + 1) % 2 ^ 8;
                })
                n mask place.0 place.1 (one.no_self i n link) unset set refl refl e)
      ]

  pub first-Exact :
      IsTopology net
      → IsSingle
      → Exact (compute_neighbours_route net actual (init_routing_neighbour net actual))
  unfolding compute_neighbours_route
  first-Exact ok one =
      (for_from_inv {S = Table} (λ i s. Neighbours net actual i s × Exact s) (neighbour net actual)
        net.interfaces
        (λ i s lt h.
          (neighbour-Neighbours net actual ok i s lt h.0, neighbour-Exact ok one i s lt h.0 h.1))
        net.interfaces 0 (init_routing_neighbour net actual) (omega arith)
        (
          init-Neighbours net actual,
          unfold init_routing_neighbour in
              record { exact = sym (count-none net.master_id size); self = refl },
        )).1

  -- What every step of a round keeps: the counter, and that the nodes of the level have entries.
  record Going (s : Table) : Type 0 where
    counted : Exact s
    levels : (t : ℕ) → (s.level t ≡ net.null_node) ⊎ ((s.level t ≡ t) × (s.row t ≢ 0))

  second_level-Going :
      IsTopology net
      → IsSingle
      → (f i : ℕ) (s : Table) → f < net.last_node
      → i < net.interfaces
      → Going s × (s.row f ≢ 0)
      → Going (second_level net actual f i s) × ((second_level net actual f i s).row f ≢ 0)
  unfolding second_level
  second_level-Going ok one f i s lt less (h, known) =
      let second = net.topology f i in
      let new = not (second == net.null_node) && not (second == actual) && s.row second == 0 in
      elim (Bool-cases new) [
        | inr old ↦ rw old (h, known)
        | inl is_new ↦
            let link : IsLink net f i second = record {
              interface = less;
              connected = refl;
              present = ground arith;
            } in
            let place = ok.inside f i second lt link in
            let s' = record s {
              row = update s.row second (s.row f);
              next = update s.next second second;
              counter = (s.counter + 1) % 2 ^ 8;
            } in
            rw is_new (
              record {
                counted =
                    set-Exact ok one s s' second (s.row f) place.0 place.1 (ground arith)
                      (ground arith) known refl refl h.counted;
                levels = λ t. ground (arith, h.levels t);
              },
              ground arith,
            )
      ]

  expand-Going :
      IsTopology net
      → IsSingle
      → (n : ℕ) (s : Table) → n < net.last_node
      → Going s
      → Going (expand net actual n s)
  unfolding expand
  expand-Going ok one n s lt h = elim (Bool-cases (s.level n == net.null_node)) [
    | inl absent ↦ rw absent h
    | inr present ↦
        let f = s.level n in
        let known : (f < net.last_node) × (s.row f ≢ 0) = ground (arith, h.levels n) in
        rw present (
          (for_from_inv {S = Table} (λ i s. Going s × (s.row f ≢ 0)) (second_level net actual f)
            net.interfaces (λ i s less. second_level-Going ok one f i s known.0 less) net.interfaces
            0 s (omega arith) (h, known.1)).0)
  ]

  pub pass-Exact :
      IsTopology net
      → IsSingle
      → (s : Table) → Ready net actual s
      → Exact s
      → Exact (pass net actual s)
  unfolding pass
  pass-Exact ok one s ready exact =
      let h =
        for_from_inv {S = Table} (λ n. Going) (expand net actual) net.last_node
          (expand-Going ok one) size net.master_id s (omega (arith, ok.ordered))
          (record { counted = exact; levels = ready.levels }) in
      record { exact = h.counted.exact; self = h.counted.self }
