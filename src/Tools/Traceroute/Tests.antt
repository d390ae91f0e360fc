-- ===== src/Tools/Traceroute/Tests.antt =====
-- A traceroute over two nodes behind the sender.
use axiom_evi_apps.Prelude.{◌+◌, ◌*◌, ◌%◌, ◌≡◌, refl, arith, true, [], ◌∷◌, some}
use axiom_evi_apps.Init.Replies.{traceroute_reply}
use axiom_evi_apps.Init.Replies.Route.{Network, Route, arrived, hop, nodes, answers}
use axiom_evi_apps.Tools.Traceroute.{
  dest, verbose, trace_options, hops, failed, Device, first_message, receive_replies,
  traceroute_main, trace,
}
use axiom_evi_apps.Tools.Traceroute.Route.{numbered, received_all, traceroute_main-Route}

-- Node 2 stands behind the sender, node 1, and node 5 behind node 2.
abbrev line : Network
line = record { width = 8; next_hop = λ node d. some 3; behind = λ node if_id. node * node + 1 }

abbrev way : Route line 5 2 1
way = hop {if_id = 3} (omega arith) refl arrived

abbrev dev : Device
dev = record {
  node = some 1;
  bound = true;
  next_hop = λ d. some 3;
  accepts = λ p. true;
  received = λ p. received_all (answers line 4 2 (first_message 1 5));
}

traceroute_main-Route_example :
    traceroute_main 255 dev (verbose ∷ dest (some 5) ∷ [])
    ≡ record { lines = (1, 2) ∷ (2, 5) ∷ []; end = hops 2 }
unfolding numbered nodes
traceroute_main-Route_example =
    traceroute_main-Route line 255 1 3 5 4 {n = 1} dev (verbose ∷ dest (some 5) ∷ []) way
      (unfold trace_options in refl) refl refl refl (λ p. refl) refl (omega arith) (omega arith)
      (omega arith) (omega arith) (omega arith)

-- With 256 nodes as the greatest number the counter starts at 0, and the first answer ends the loop.
wrapped :
    receive_replies 5
      (some (2, record { command = traceroute_reply; src_id = 1; dst_id = 5; step = 1 }) ∷ [])
      0
      (256 % 256)
    ≡ record { lines = (1, 2) ∷ []; end = hops 1 }
unfolding receive_replies
wrapped = refl

no_destination : traceroute_main 255 dev (verbose ∷ []) ≡ record { lines = []; end = failed }
unfolding traceroute_main trace trace_options
no_destination = refl
