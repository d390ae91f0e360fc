-- ===== src/Init/Replies/Tests.antt =====
-- The answers of the daemon.
use axiom_evi_apps.Prelude.{ℕ, ◌≡◌, refl, true, [], ◌∷◌, none, some}
use axiom_evi_apps.Init.Replies.{
  ping, traceroute, pong, traceroute_reply, Traceroute, axiom_pong, to_node, axiom_traceroute_reply,
}

abbrev asked : Traceroute
asked = record { command = traceroute; src_id = 0; dst_id = 5; step = 0 }

abbrev answered : ℕ → Traceroute
answered n = record asked { command = traceroute_reply; step = n }

-- A node without a way on answers all the same.
no_way : axiom_traceroute_reply 8 (λ p. true) (λ dst. none) 3 asked ≡ to_node 0 (answered 1) ∷ []
unfolding axiom_traceroute_reply
no_way = refl

ponged :
    axiom_pong 2 (record { command = ping; unique_id = 7; seq_num = 1; timestamp = 9 })
    ≡ some (2, record { command = pong; unique_id = 7; seq_num = 1; timestamp = 9 })
unfolding axiom_pong
ponged = refl
