-- ===== src/Discovery/Delivery/Tests.antt =====
-- Runs of the delivery, with a master 0 and nodes up to 2.
use axiom_evi_apps.Prelude.{
  ℕ, zero, suc, ◌≤◌, ◌<◌, ◌≡◌, refl, ◌≢◌, arith, Bool, true, [], ◌∷◌, map, some, ltb, if◌then◌else◌,
  ◌⊎◌, ◌↔◌,
}
use axiom_evi_apps.Discovery.Delivery.{
  rt_reply, info, Packet, end_packet, and_then, send_delivery, send_row, send_tables, send_ends,
  delivery_routing_tables, receive_routing_tables, received, wait_rt_received, wait_loop, is_reply,
  all_replied, still_waiting,
}
use axiom_evi_apps.Discovery.Delivery.Rows.{packets_for, receive-delivery_roundtrip}
use axiom_evi_apps.Discovery.Delivery.Wait.{replied, wait_rt_received-replied}

-- The rows of three nodes in a line: 0 - 1 - 2.
abbrev line_tables : ℕ → ℕ → ℕ
line_tables zero t = if ltb 0 t then 1 else 0
line_tables (suc zero) zero = 1
line_tables (suc zero) (suc (suc zero)) = 2
line_tables (suc zero) t = 0
line_tables (suc (suc d)) t = if ltb t 2 then 1 else 0

abbrev accepted : ℕ → Packet → Bool
accepted dest p = true

to_node_1 :
    packets_for 1 (delivery_routing_tables accepted line_tables 0 3).sent
    ≡ record { command = info; node = 0; ifaces = 1 }
      ∷ record { command = info; node = 2; ifaces = 2 }
      ∷ end_packet
      ∷ []
unfolding packets_for delivery_routing_tables send_tables send_row send_ends send_delivery and_then
to_node_1 = refl

abbrev reply_of : ℕ → Packet
reply_of n = record { command = rt_reply; node = n; ifaces = 0 }

one_twice : wait_rt_received 0 3 (map some (reply_of 1 ∷ reply_of 1 ∷ [])) ≡ still_waiting
unfolding wait_rt_received wait_loop is_reply
one_twice = refl

receive-delivery_roundtrip_example :
    let s = delivery_routing_tables accepted line_tables 0 3 in
    (table : ℕ → ℕ) × (max_node_id : ℕ) × (receive_routing_tables true 1
        (map some (packets_for 1 s.sent))
      ≡ received table max_node_id true)
    × ((t : ℕ) → table t ≡ (if ltb t 3 then line_tables 1 t else 0))
    × (1 ≤ max_node_id)
    × ((t : ℕ) → t < 3 → line_tables 1 t ≢ 0 → t ≤ max_node_id)
    × ((max_node_id ≡ 1) ⊎ ((max_node_id < 3) × (line_tables 1 max_node_id ≢ 0)))
receive-delivery_roundtrip_example =
    receive-delivery_roundtrip accepted line_tables 0 3 1 true (λ dest p. refl) (omega arith)
      (omega arith)

wait_rt_received-replied_example :
    (wait_rt_received 0 3 (map some (reply_of 2 ∷ reply_of 1 ∷ [])) ≡ all_replied)
    ↔ ((t : ℕ) → 0 < t → t < 3 → replied t (reply_of 2 ∷ reply_of 1 ∷ []) ≡ true)
wait_rt_received-replied_example =
    wait_rt_received-replied 0 3 (reply_of 2 ∷ reply_of 1 ∷ []) (omega arith)
      ((refl, omega arith, omega arith), ((refl, omega arith, omega arith), tt))
