-- ===== src/Discovery/Routing/Neighbours.antt =====
-- The first level of a row: the mask of the interfaces to each neighbour.
use axiom_evi_apps.Prelude.{
  ℕ, ◌+◌, ◌%◌, ◌^◌, ◌<◌, bit_or, ◌≡◌, refl, ◌≢◌, arith, ◌==◌, if◌then◌else◌, Bool-cases, ◌⊎◌, inl,
  inr,
}
use axiom_evi_apps.Bits.{
  test_bit, test_bit-le, test_bit-zero, test_bit-bit_or, test_bit-pow_self, test_bit-pow_ne,
  ne-zero_of_test_bit,
}
use axiom_evi_apps.Bits.Words.{pow-lt-pow}
use axiom_evi_apps.Discovery.Routing.{
  Net, Table, neighbour, compute_neighbours_route, init_routing_neighbour,
}
use axiom_evi_apps.Discovery.Routing.Links.{IsLink, IsTopology, for_from_inv}

-- The mask with the interface i added.
test_bit-add :
    (row i x : ℕ)
    → i < 8
    → test_bit (bit_or row (2 ^ i % 2 ^ 8)) x ≡ (if x == i then 1 else test_bit row x)
test_bit-add row i x lt =
    let same : 2 ^ i % 2 ^ 8 ≡ 2 ^ i = omega (arith, pow-lt-pow i 8 lt) in
    rw same (
      ground (
        arith,
        test_bit-bit_or row (2 ^ i) x,
        test_bit-le row x,
        test_bit-pow_self i,
        test_bit-pow_ne i x,
      ))

module _ (net : Net) (actual : ℕ) where
  -- The table after the interfaces below n.
  pub record Neighbours (n : ℕ) (s : Table) : Type 0 where
    pub linked : (t x : ℕ) → test_bit (s.row t) x ≡ 1 → IsLink net actual x t
    pub below : (t x : ℕ) → test_bit (s.row t) x ≡ 1 → x < n
    pub complete : (t x : ℕ) → x < n → IsLink net actual x t → test_bit (s.row t) x ≡ 1
    pub some_bit : (t : ℕ) → s.row t ≢ 0 → (x : ℕ) × (test_bit (s.row t) x ≡ 1)
    pub here : (t : ℕ) → s.row t ≢ 0 → s.level t ≡ t
    pub levels : (t : ℕ) → (s.level t ≡ net.null_node) ⊎ ((s.level t ≡ t) × (s.row t ≢ 0))
    pub no_next : (t : ℕ) → s.next t ≡ net.null_node

  pub neighbour-Neighbours :
      IsTopology net
      → (i : ℕ) (s : Table) → i < net.interfaces
      → Neighbours i s
      → Neighbours (i + 1) (neighbour net actual i s)
  unfolding neighbour
  neighbour-Neighbours ok i s lt h =
      let n = net.topology actual i in
      let small : i < 8 = omega (arith, ok.few) in
      let row' = bit_or (s.row n) (2 ^ i % 2 ^ 8) in
      let added = λ (x : ℕ). test_bit-add (s.row n) i x small in
      let own : test_bit row' i ≡ 1 = ground (arith, added i) in
      let set : row' ≢ 0 = ne-zero_of_test_bit row' i own in
      elim (Bool-cases (n == net.null_node)) [
        | inl absent ↦ rw absent (record {
          linked = h.linked;
          below = λ t x bit. omega (arith, h.below t x bit);
          complete = λ t x less link. elim (Bool-cases (x == i)) [
            | inl now ↦ absurd (ground (arith, link.present, link.connected))
            | inr earlier ↦ h.complete t x (ground arith) link
          ];
          some_bit = h.some_bit;
          here = h.here;
          levels = h.levels;
          no_next = h.no_next;
        })
        | inr present ↦
            let link_i : IsLink net actual i n = record {
              interface = lt;
              connected = refl;
              present = ground arith;
            } in
            rw present (record {
              linked = λ t x bit. elim (Bool-cases (t == n)) [
                | inl now ↦ elim (Bool-cases (x == i)) [
                  | inl own_bit ↦ record {
                    interface = ground arith;
                    connected = ground arith;
                    present = ground arith;
                  }
                  | inr other_bit ↦ h.linked t x (ground (arith, added x))
                ]
                | inr other ↦ h.linked t x (ground arith)
              ];
              below = λ t x bit. ground (arith, added x, h.below t x);
              complete = λ t x less link. elim (Bool-cases (x == i)) [
                | inl now ↦ ground (arith, link.connected, own)
                | inr earlier ↦ ground (arith, h.complete t x, link, added x)
              ];
              some_bit = λ t e. elim (Bool-cases (t == n)) [
                | inl now ↦ (i, ground (arith, own))
                | inr other ↦ let b = h.some_bit t (ground arith) in (b.0, ground (arith, b.1))
              ];
              here = λ t e. ground (arith, h.here t);
              levels = λ t. ground (arith, h.levels t, set);
              no_next = h.no_next;
            })
      ]

  pub init-Neighbours : Neighbours 0 (init_routing_neighbour net actual)
  unfolding init_routing_neighbour
  init-Neighbours = record {
    linked = λ t x bit. absurd (omega (arith, test_bit-zero x));
    below = λ t x bit. absurd (omega (arith, test_bit-zero x));
    complete = λ t x lt. absurd (omega arith);
    some_bit = λ t e. absurd (omega arith);
    here = λ t e. absurd (omega arith);
    levels = λ t. inl refl;
    no_next = λ t. refl;
  }

  pub first-Neighbours :
      IsTopology net
      → Neighbours net.interfaces
          (compute_neighbours_route net actual (init_routing_neighbour net actual))
  unfolding compute_neighbours_route
  first-Neighbours ok =
      for_from_inv Neighbours (neighbour net actual) net.interfaces (neighbour-Neighbours ok)
        net.interfaces 0 (init_routing_neighbour net actual) (omega arith) init-Neighbours
