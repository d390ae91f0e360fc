-- ===== src/Run/Nodes/Tests.antt =====
-- Runs of the walks over a mask of nodes.
use axiom_evi_apps.Prelude.{
  ℕ, ◌≡◌, refl, arith, Bool, true, false, [], ◌∷◌, some, All, not, ◌==◌, ◌↔◌,
}
use axiom_evi_apps.Bits.{test_bit}
use axiom_evi_apps.Run.Nodes.{Sent, send_raw, send_loop, count_nodes, count_loop}
use axiom_evi_apps.Run.Nodes.Laws.{copies, send_raw_lem}

-- A NIC that rejects the messages for node 3.
abbrev accepts : ℕ → Bool
accepts n = not (n == 3)

three_nodes : send_raw accepts 0b101010 ≡ some (record { tried = 1 ∷ 3 ∷ 5 ∷ []; all_ok = false })
unfolding send_raw send_loop
three_nodes = refl

three_counted : count_nodes 0b101010 ≡ some 3
unfolding count_nodes count_loop
three_counted = refl

send_raw_lem_example :
    (s : Sent) × (send_raw accepts 0b101010 ≡ some s)
    × ((n : ℕ) → copies n s.tried ≡ test_bit 0b101010 n)
    × ((s.all_ok ≡ true) ↔ All (λ n. accepts n ≡ true) s.tried)
send_raw_lem_example = send_raw_lem accepts 0b101010 (omega arith)
