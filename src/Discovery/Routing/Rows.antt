-- ===== src/Discovery/Routing/Rows.antt =====
-- The computation of a row ends, with an entry for every node that the network reaches.
use axiom_evi_apps.Prelude.{
  ℕ, zero, suc, ◌+◌, ◌-◌, ◌≤◌, ◌<◌, ◌≡◌, refl, ◌≢◌, ◌∙◌, ap, arith, Bool, false, ltb, if◌then◌else◌,
  Bool-cases, inl, inr, some,
}
use axiom_evi_apps.Bits.{test_bit}
use axiom_evi_apps.Discovery.Routing.{Net, Table, after, pass_loop, compute_row}
use axiom_evi_apps.Discovery.Routing.Links.{IsLink, IsTopology, Walk}
use axiom_evi_apps.Discovery.Routing.Counting.{count-two_unset, count-but_one}
use axiom_evi_apps.Discovery.Routing.Counter.{IsSingle, Exact, first-Exact, pass-Exact}
use axiom_evi_apps.Discovery.Routing.Routes.{after-Ready, after-routes}

module _ (net : Net) (actual : ℕ) where
  -- `while (neighbours_counter < last_node - master_id - 1)`
  abbrev goes_on : Table → Bool
  goes_on s = ltb (s.counter + net.master_id + 1) net.last_node

  -- Every node but the node of the row has an entry.
  abbrev pub IsFull : Table → Type 0
  IsFull s = (t : ℕ) → net.master_id ≤ t → t < net.last_node → t ≢ actual → s.row t ≢ 0

  after-Exact :
      IsTopology net → IsSingle net actual → (k : ℕ) → Exact net actual (after net actual k)
  unfolding after
  after-Exact ok one zero = first-Exact net actual ok one
  after-Exact ok one (suc k) =
      pass-Exact net actual ok one (after net actual k) (after-Ready net actual ok one.inside k)
        (after-Exact ok one k)

  IsFull-ends :
      (s : Table) → IsSingle net actual → Exact net actual s → IsFull s → goes_on s ≡ false
  IsFull-ends s one e full =
      let enough =
        count-but_one s.row actual net.master_id (net.last_node - net.master_id)
          (λ t ge lt. full t ge (omega arith)) in
      ground (arith, e.exact, one.above, one.inside)

  ended-IsFull :
      (s : Table) → IsSingle net actual → Exact net actual s → goes_on s ≡ false → IsFull s
  ended-IsFull s one e ended t ge lt other unset =
      let few =
        count-two_unset s.row t actual net.master_id (net.last_node - net.master_id) ge
          (omega arith) unset one.above (omega (arith, one.above, one.inside)) e.self other in
      absurd (ground (arith, e.exact, one.above, one.inside))

  -- One round from the table after k rounds.
  pass_loop-after :
      (fuel k : ℕ)
      → pass_loop net actual (suc fuel) (after net actual k) ≡ (
          if goes_on (after net actual (suc k))
          then pass_loop net actual fuel (after net actual (suc k))
          else some (after net actual (suc k)))
  unfolding pass_loop after
  pass_loop-after fuel k = refl

  pass_loop-ends :
      IsTopology net
      → IsSingle net actual
      → (fuel k : ℕ) → goes_on (after net actual (k + suc fuel)) ≡ false
      → (m : ℕ) × (pass_loop net actual (suc fuel) (after net actual k) ≡ some (after net actual m))
        × (goes_on (after net actual m) ≡ false)
  pass_loop-ends ok one zero k ends =
      let here : k + 1 ≡ suc k = omega arith in
      let stops : goes_on (after net actual (suc k)) ≡ false = rw here at ends in
      (suc k, pass_loop-after _ k ∙ rw stops refl, stops)
  pass_loop-ends ok one (suc fuel) k ends = elim (Bool-cases (goes_on (after net actual (suc k)))) [
    | inr stops ↦ (suc k, pass_loop-after _ k ∙ rw stops refl, stops)
    | inl more ↦
        let shift : k + suc (suc fuel) ≡ suc k + suc fuel = omega arith in
        let (m, run, stops) = pass_loop-ends ok one fuel (suc k) (rw shift at ends) in
        (m, pass_loop-after (suc fuel) k ∙ rw more run, stops)
  ]

  -- For a topology in which the links of the node lead to different nodes, and every other node is
  -- reached by a walk of at most d + 1 links: d + 1 rounds are enough, every other node then has an
  -- entry, and through each interface of an entry there is a walk that is no longer than any.
  pub compute_row-shortest :
      (d : ℕ)
      → IsTopology net
      → IsSingle net actual
      → ((t : ℕ)
          → net.master_id ≤ t
          → t < net.last_node
          → t ≢ actual
          → (j : ℕ) × (j ≤ d) × Walk net actual t (suc j))
      → (s : Table) × (compute_row net actual (suc d) ≡ some s)
        × IsFull s
        × ((t x n : ℕ)
            → t ≢ actual
            → test_bit (s.row t) x ≡ 1
            → Walk net actual t n
            → (m : ℕ) × (j : ℕ) × (suc j ≤ n) × IsLink net actual x m × Walk net m t j)
  compute_row-shortest d ok one reach =
      let full : IsFull (after net actual (suc d)) = λ t ge lt other.
        let (j, le, walk) = reach t ge lt other in
        (after-routes net actual ok one.inside (suc d) t other).0.1 (j, omega arith, walk) in
      let enough = IsFull-ends (after net actual (suc d)) one (after-Exact ok one (suc d)) full in
      let from_start : goes_on (after net actual (0 + suc d)) ≡ goes_on (after net actual (suc d)) =
        ap (λ (i : ℕ). goes_on (after net actual i)) (omega arith) in
      let (m, run, stops) = pass_loop-ends ok one d 0 (from_start ∙ enough) in
      (
        after net actual m,
        unfold compute_row after in run,
        ended-IsFull (after net actual m) one (after-Exact ok one m) stops,
        λ t x n other. (after-routes net actual ok one.inside m t other).1 x n,
      )
