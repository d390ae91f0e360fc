-- ===== src/Discovery/Node/Order.antt =====
-- The order of the master's phases.
use axiom_evi_apps.Prelude.{
  ℕ, ◌+◌, ◌-◌, ◌<◌, ◌≡◌, ◌≢◌, refl, ap, ◌∙◌, Bool, true, List, [], map, Option, none, some,
  Option-cases, Bool-cases, inl, inr, All,
}
use mathlib.Core.Logic.{◌⊎◌}
use axiom_evi_apps.Discovery.Delivery.{
  Packet, WaitEnd, all_replied, still_waiting, wait_error, delivery_routing_tables,
  wait_rt_received,
}
use axiom_evi_apps.Discovery.Delivery.Wait.{replied, IsReply, wait_rt_received-replied}
use axiom_evi_apps.Discovery.Protocol.{Discovery, Node, master_node_discovery}
use axiom_evi_apps.Discovery.Node.{
  compute_tables, Nic, MasterRun, master_deliver, net_of, axiom_discovery_master, hung,
}

WaitEnd-cases : (w : WaitEnd) → (w ≡ all_replied) ⊎ ((w ≡ still_waiting) ⊎ (w ≡ wait_error))
WaitEnd-cases all_replied = inl refl
WaitEnd-cases still_waiting = inr (inl refl)
WaitEnd-cases wait_error = inr (inr refl)

module _ (nic : Nic) (master_id last_node : ℕ) (tables : ℕ → ℕ → ℕ) (replies : List (Option Packet))
    (sets : List (Option Bool)) where
  pub master_deliver-delivered :
      (master_deliver nic master_id last_node tables replies sets).delivered
      ≡ delivery_routing_tables nic.delivers tables master_id last_node
  unfolding master_deliver delivery_routing_tables
  master_deliver-delivered =
      let d = delivery_routing_tables nic.delivers tables master_id last_node in
      elim (Bool-cases d.ok) [
        | inr refused ↦ rw refused refl
        | inl ok ↦ elim (WaitEnd-cases (wait_rt_received master_id last_node replies)) [
          | inl e ↦ rw (ok, e) refl
          | inr (inl e) ↦ rw (ok, e) refl
          | inr (inr e) ↦ rw (ok, e) refl
        ]
      ]

  acts_late :
      (master_deliver nic master_id last_node tables replies sets).actions ≢ []
      → ((delivery_routing_tables nic.delivers tables master_id last_node).ok ≡ true)
        × (wait_rt_received master_id last_node replies ≡ all_replied)
  unfolding master_deliver
  acts_late acts =
      let d = delivery_routing_tables nic.delivers tables master_id last_node in
      elim (Bool-cases d.ok) [
        | inr refused ↦ absurd (acts (rw refused refl))
        | inl ok ↦ elim (WaitEnd-cases (wait_rt_received master_id last_node replies)) [
          | inl e ↦ (ok, e)
          | inr (inl e) ↦ absurd (acts (rw (ok, e) refl))
          | inr (inr e) ↦ absurd (acts (rw (ok, e) refl))
        ]
      ]

module _ (nic : Nic) (master_id rounds last_node : ℕ) (inbox : List (Option Discovery)) (s : Node)
    (replies : List (Option Packet)) (sets : List (Option Bool))
    (found : master_node_discovery nic.board master_id inbox ≡ some (s, last_node)) where
  stuck_rows :
      compute_tables
          (net_of nic master_id s last_node)
          rounds
          (last_node - master_id)
          master_id
          (λ n t. 0)
        ≡ none
      → axiom_discovery_master nic master_id rounds inbox replies sets ≡ hung nic
  unfolding axiom_discovery_master
  stuck_rows e = rw (axiom_discovery_master, found, e) refl

  pub axiom_discovery_master-tables :
      (tables : ℕ → ℕ → ℕ)
      → compute_tables
          (net_of nic master_id s last_node)
          rounds
          (last_node - master_id)
          master_id
          (λ n t. 0)
        ≡ some tables
      → axiom_discovery_master nic master_id rounds inbox replies sets
        ≡ master_deliver nic master_id last_node tables replies sets
  unfolding axiom_discovery_master
  axiom_discovery_master-tables tables e = rw (axiom_discovery_master, found, e) refl

-- A master that has discovered the nodes up to a last one, and to which only such nodes reply, in
-- order of arrival: it writes no table and sends no set message unless it has computed the table of
-- every node, every entry was accepted by its NIC, and every node between the master and the last one
-- has replied.
pub axiom_discovery_master-in_order :
    (nic : Nic) (master_id rounds last_node : ℕ) (inbox : List (Option Discovery)) (s : Node)
    (replies : List Packet) (sets : List (Option Bool))
    → master_node_discovery nic.board master_id inbox ≡ some (s, last_node)
    → master_id < last_node
    → All (IsReply (master_id + 1) (last_node - master_id - 1)) replies
    → (axiom_discovery_master nic master_id rounds inbox (map some replies) sets).actions ≢ []
    → (tables : ℕ → ℕ → ℕ) × (compute_tables
          (net_of nic master_id s last_node)
          rounds
          (last_node - master_id)
          master_id
          (λ n t. 0)
        ≡ some tables)
      × ((axiom_discovery_master nic master_id rounds inbox (map some replies) sets).delivered
          ≡ delivery_routing_tables nic.delivers tables master_id last_node)
      × ((delivery_routing_tables nic.delivers tables master_id last_node).ok ≡ true)
      × ((t : ℕ) → master_id < t → t < last_node → replied t replies ≡ true)
axiom_discovery_master-in_order nic master_id rounds last_node inbox s replies sets found lt all
      acts =
    elim (Option-cases (
      compute_tables (net_of nic master_id s last_node) rounds (last_node - master_id) master_id
        (λ n t. 0))) [
          | inl e ↦ absurd (
              acts (
                ap (λ (r : MasterRun). r.actions)
                  (stuck_rows nic master_id rounds last_node inbox s (map some replies) sets found
                    e)))
          | inr (tables, e) ↦
              let runs =
                axiom_discovery_master-tables nic master_id rounds last_node inbox s
                  (map some replies) sets found tables e in
              let late =
                acts_late nic master_id last_node tables (map some replies) sets
                  (λ quiet. acts (ap (λ (r : MasterRun). r.actions) runs ∙ quiet)) in
              (
                tables,
                e,
                ap (λ (r : MasterRun). r.delivered) runs
                    ∙ master_deliver-delivered nic master_id last_node tables (map some replies)
                        sets,
                late.0,
                (wait_rt_received-replied master_id last_node replies lt all).0 late.1,
              )
        ]
