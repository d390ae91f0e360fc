-- ===== src/Discovery/Delivery/Wait.antt =====
-- When the master has the replies of all the nodes.
use axiom_evi_apps.Prelude.{
  ℕ, ◌+◌, ◌-◌, ◌≤◌, ◌<◌, ◌≡◌, refl, ◌≢◌, sym, ◌∙◌, arith, Bool, true, false, List, [], ◌∷◌, map,
  All, some, ◌==◌, ◌||◌, Bool-cases, ◌⊎◌, inl, inr, ◌↔◌,
}
use axiom_evi_apps.Discovery.Routing.{update}
use axiom_evi_apps.Discovery.Routing.Counting.{
  count, count-update, count-one_unset, count-all_set, count-none,
}
use axiom_evi_apps.Discovery.Delivery.{
  rt_reply, Packet, all_replied, is_reply, wait_loop, wait_rt_received,
}

-- Some packet is the reply of node t.
pub replied : ℕ → List Packet → Bool
replied t [] = false
replied t (p ∷ ps) = p.node == t || replied t ps

-- A reply of one of the `goal` nodes from `first` on.
abbrev pub IsReply : ℕ → ℕ → Packet → Type 0
IsReply first goal p = (p.command ≡ rt_reply) × (first ≤ p.node) × (p.node < first + goal)

module _ (first goal : ℕ) where
  abbrev Complete : (ℕ → ℕ) → List Packet → Type 0
  Complete seen ps = (t : ℕ) → first ≤ t → t < first + goal → (seen t ≢ 0) ⊎ (replied t ps ≡ true)

  Complete-all_set :
      (seen : ℕ → ℕ) → count seen first goal ≡ goal → (ps : List Packet) → Complete seen ps
  Complete-all_set seen e ps t ge lt = elim (Bool-cases (seen t == 0)) [
    | inl unset ↦ absurd (omega (arith, e, count-one_unset seen t first goal ge lt (ground arith)))
    | inr set ↦ inl (ground arith)
  ]

  wait_loop_lem :
      (ps : List Packet) (seen : ℕ → ℕ)
      → All (IsReply first goal) ps
      → (wait_loop goal (map some ps) seen (count seen first goal) ≡ all_replied) ↔ Complete seen ps
  unfolding wait_loop replied is_reply
  wait_loop_lem [] seen all = elim (Bool-cases (count seen first goal == goal)) [
    | inl full ↦
        let e : count seen first goal ≡ goal = ground arith in
        (λ _. Complete-all_set seen e [], λ _. rw full refl)
    | inr more ↦ (
      λ ends. absurd (ground arith),
      λ h.
          let e = count-all_set seen first goal (λ t ge lt. ground (arith, h t ge lt)) in
          absurd (ground arith),
    )
  ]
  wait_loop_lem (p ∷ ps) seen all = elim (Bool-cases (count seen first goal == goal)) [
    | inl full ↦
        let e : count seen first goal ≡ goal = ground arith in
        (λ _. Complete-all_set seen e (p ∷ ps), λ _. rw full refl)
    | inr more ↦ elim (Bool-cases (seen p.node == 0)) [
      | inl new ↦
          let unset : seen p.node ≡ 0 = ground arith in
          let one_more =
            count-update seen p.node 1 first goal all.0.1 all.0.2 unset (omega arith) in
          let (to, from) = wait_loop_lem ps (update seen p.node 1) all.1 in
          let step : wait_loop goal (map some (p ∷ ps)) seen (count seen first goal)
              ≡ wait_loop goal (map some ps) (update seen p.node 1)
                  (count (update seen p.node 1) first goal) =
            rw (one_more, more, all.0.0, new) refl in
          (
            λ ends t ge lt. ground (arith, to (sym step ∙ ends) t ge lt),
            λ h. step ∙ from (λ t ge lt. ground (arith, h t ge lt)),
          )
      | inr known ↦
          let (to, from) = wait_loop_lem ps seen all.1 in
          let step : wait_loop goal (map some (p ∷ ps)) seen (count seen first goal)
              ≡ wait_loop goal (map some ps) seen (count seen first goal) =
            rw (more, all.0.0, known) refl in
          (
            λ ends t ge lt. ground (arith, to (sym step ∙ ends) t ge lt),
            λ h. step ∙ from (λ t ge lt. ground (arith, h t ge lt)),
          )
    ]
  ]

-- If every message is the reply of a node between the master and the last node, the master stops
-- waiting exactly when each of these nodes is among the senders, however often it replied.
pub wait_rt_received-replied :
    (master_id last_node : ℕ) (ps : List Packet)
    → master_id < last_node
    → All (IsReply (master_id + 1) (last_node - master_id - 1)) ps
    → (wait_rt_received master_id last_node (map some ps) ≡ all_replied)
      ↔ ((t : ℕ) → master_id < t → t < last_node → replied t ps ≡ true)
unfolding wait_rt_received
wait_rt_received-replied master_id last_node ps lt all =
    let goal = last_node - master_id - 1 in
    let none_yet = count-none (master_id + 1) goal in
    let (to, from) = wait_loop_lem (master_id + 1) goal ps (λ _. 0) all in
    (
      λ ends t ge less. ground (arith, to (rw none_yet ends) t (omega arith) (omega arith)),
      λ h. rw none_yet at (from (λ t ge less. inr (h t (omega arith) (omega arith)))),
    )
