-- ===== src/Tools/Traceroute/Route.antt =====
-- The tool over a network of daemons.
use native.Mathlib.Nat.{mod-eq_of_lt}
use axiom_evi_apps.Prelude.{
  ℕ, suc, ◌+◌, ◌%◌, ◌^◌, ◌<◌, ◌≡◌, refl, arith, ap, ◌∙◌, true, false, List, [], ◌∷◌, map, Option,
  none, some, ltb, ◌==◌,
}
use axiom_evi_apps.Init.Replies.{Traceroute, Post, to_interface}
use axiom_evi_apps.Init.Replies.Route.{
  Network, Route, arrived, hop, nodes, answers, counted_answers, stepped, answers-Route,
}
use axiom_evi_apps.Tools.Traceroute.{
  TraceOption, trace_options, runs, hops, line_first, receive_replies, Device, start_trace,
  first_message, trace, traceroute_main,
}

-- The lines for the nodes of a route, numbered from a number on.
unfoldable pub numbered : ℕ → List ℕ → List (ℕ × ℕ)
numbered k [] = []
numbered k (n ∷ ns) = (k, n) ∷ numbered (k + 1) ns

abbrev pub received_all : List (ℕ × Traceroute) → List (Option (ℕ × Traceroute))
received_all = map (λ r. some r)

replies-Route :
    {net : Network} {dst node hops' : ℕ} (nodes_max : ℕ) (t : Traceroute)
    (route : Route net dst node hops')
    → t.step + hops' + 1 < 256
    → t.step + hops' < nodes_max
    → receive_replies dst (received_all (counted_answers (nodes route) t)) t.step nodes_max
      ≡ record { lines = numbered (t.step + 1) (nodes route); end = hops (t.step + hops' + 1) }
unfolding receive_replies counted_answers nodes numbered
replies-Route {dst} nodes_max t arrived small fits =
    let exact : (t.step + 1) % 256 ≡ t.step + 1 = mod-eq_of_lt (omega arith) in
    let here : (dst == dst) ≡ true = ground arith in
    let ends : ltb (t.step + 1) (t.step + 1) ≡ false = ground arith in
    let count : t.step + 0 ≡ t.step = omega arith in rw (here, exact, ends, count) refl
replies-Route {dst} nodes_max t (hop {node} {if_id} {hops = n} far leads route) small fits =
    let later = replies-Route nodes_max (stepped t) route (omega arith) (omega arith) in
    let exact : (t.step + 1) % 256 ≡ t.step + 1 = mod-eq_of_lt (omega arith) in
    let there : (node == dst) ≡ false = ground (arith, far) in
    let more : ltb (t.step + 1) nodes_max ≡ true = ground arith in
    let count : t.step + suc n + 1 ≡ t.step + 1 + n + 1 = omega arith in
    rw (there, exact, more, count) (ap (line_first (t.step + 1, node)) later)

-- A traceroute to a node, `dst` by its options, that the tables lead to, from the node behind the sender's first interface
-- in so many hops: with every message accepted and the answers received in order, the tool prints
-- the nodes of the route, numbered from 1 on, and then their count. The numbers fit a byte and
-- AXIOM_NODES_MAX, and `expected_reply` is at most the number of the nodes.
pub traceroute_main-Route :
    (net : Network) (nodes_max here_id first_if dst fuel : ℕ) {n : ℕ} (dev : Device)
    (os : List TraceOption) (route : Route net dst (net.behind here_id first_if) n)
    → trace_options os none ≡ runs (some dst)
    → dev.node ≡ some here_id
    → dev.bound ≡ true
    → dev.next_hop dst ≡ some first_if
    → ((p : Post) → dev.accepts p ≡ true)
    → dev.received (to_interface first_if (first_message here_id dst))
      ≡ received_all (answers net fuel (net.behind here_id first_if) (first_message here_id dst))
    → n < fuel
    → n + 1 < 2 ^ net.width
    → n + 1 < 256
    → n < nodes_max
    → nodes_max < 256
    → traceroute_main nodes_max dev os
      ≡ record { lines = numbered 1 (nodes route); end = hops (n + 1) }
unfolding traceroute_main trace start_trace
traceroute_main-Route net nodes_max here_id first_if dst fuel {n} dev os route named node bound
      leads all heard enough width small fits max =
    let t : Traceroute = first_message here_id dst in
    let exact : nodes_max % 256 ≡ nodes_max = mod-eq_of_lt max in
    let made = answers-Route net dst fuel t route refl refl enough (omega arith) in
    let printed = replies-Route nodes_max t route (omega arith) (omega arith) in
    rw (named, node, bound, leads, all (to_interface first_if t), heard, made, exact)
      (let count : 0 + n + 1 ≡ n + 1 = omega arith in
        printed ∙ ap (λ k. record { lines = numbered 1 (nodes route); end = hops k }) count)
