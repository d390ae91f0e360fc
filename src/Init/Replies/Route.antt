-- ===== src/Init/Replies/Route.antt =====
-- A traceroute over a network of daemons.
use native.Mathlib.Nat.{mod-eq_of_lt}
use axiom_evi_apps.Prelude.{
  ℕ, zero, suc, ◌+◌, ◌%◌, ◌^◌, ◌<◌, ◌≡◌, ◌≢◌, refl, arith, ap, true, false, List, [], ◌∷◌, ◌++◌,
  Option, some, ◌==◌, ◌∙◌,
}
use axiom_evi_apps.Init.Replies.{
  traceroute, traceroute_reply, Traceroute, Post, to_node, to_interface, axiom_traceroute_reply,
  is_traceroute,
}

-- The routing tables of the nodes, and the node behind each interface.
pub record Network : Type 0 where
  pub width : ℕ
  pub next_hop : ℕ → ℕ → Option ℕ
  pub behind : ℕ → ℕ → ℕ

-- The tables lead from a node to `dst` in so many hops.
pub data Route (net : Network) (dst : ℕ) : ℕ → ℕ → Type 0 where
  arrived : Route net dst dst zero
  hop :
      {node if_id hops : ℕ}
      → node ≢ dst
      → net.next_hop node dst ≡ some if_id
      → Route net dst (net.behind node if_id) hops
      → Route net dst node (suc hops)

module _ {net : Network} {dst : ℕ} where
  -- The nodes of a route, in order.
  unfoldable pub nodes : {node hops : ℕ} → Route net dst node hops → List ℕ
  nodes arrived = dst ∷ []
  nodes (hop {node} far leads route) = node ∷ nodes route

-- What comes of the messages of a node: the answers, each with its sender, with `carry` for a
-- message to the next node.
unfoldable pub deliver :
    ℕ → (ℕ → Traceroute → List (ℕ × Traceroute)) → List Post → List (ℕ × Traceroute)
deliver node carry [] = []
deliver node carry (to_node n t ∷ ps) = (node, t) ∷ deliver node carry ps
deliver node carry (to_interface i t ∷ ps) = carry i t ++ deliver node carry ps

-- The answers that a traceroute message makes, in order, over at most `fuel` nodes.
unfoldable pub answers : Network → ℕ → ℕ → Traceroute → List (ℕ × Traceroute)
unfolding deliver axiom_traceroute_reply
answers net zero node t = []
answers net (suc fuel) node t =
    deliver node (λ i t'. answers net fuel (net.behind node i) t')
      (axiom_traceroute_reply net.width (λ p. true) (net.next_hop node) node t)

abbrev pub stepped : Traceroute → Traceroute
stepped t = record t { step = t.step + 1 }

-- The answers of the nodes, their steps counted on.
unfoldable pub counted_answers : List ℕ → Traceroute → List (ℕ × Traceroute)
counted_answers [] t = []
counted_answers (node ∷ ns) t =
    (node, record (stepped t) { command = traceroute_reply }) ∷ counted_answers ns (stepped t)

append_none : (xs : List (ℕ × Traceroute)) → xs ++ [] ≡ xs
append_none [] = refl
append_none (x ∷ xs) = ap (λ (ys : List (ℕ × Traceroute)). x ∷ ys) (append_none xs)

-- Every node on a route answers, in order, and no other, and the steps of the answers count up by
-- one each, as long as they do not overflow. The NIC accepts every message.
pub answers-Route :
    (net : Network) (dst fuel : ℕ) {node hops : ℕ} (t : Traceroute)
    (route : Route net dst node hops)
    → t.command ≡ traceroute
    → t.dst_id ≡ dst
    → hops < fuel
    → t.step + hops + 1 < 2 ^ net.width
    → answers net fuel node t ≡ counted_answers (nodes route) t
unfolding answers deliver axiom_traceroute_reply counted_answers nodes
answers-Route net dst zero t route is to enough small = absurd (omega arith)
answers-Route net dst (suc fuel) t arrived is to enough small =
    let exact : (t.step + 1) % 2 ^ net.width ≡ t.step + 1 = mod-eq_of_lt (omega arith) in
    let here : (dst == t.dst_id) ≡ true = ground (arith, to) in rw (is, exact, here) refl
answers-Route net dst (suc fuel) t (hop {node} {if_id} {hops} far leads route) is to enough small =
    let exact : (t.step + 1) % 2 ^ net.width ≡ t.step + 1 = mod-eq_of_lt (omega arith) in
    let there : (node == t.dst_id) ≡ false = ground (arith, to, far) in
    let next : net.next_hop node t.dst_id ≡ some if_id = ap (net.next_hop node) to ∙ leads in
    let later = answers-Route net dst fuel (stepped t) route is to (omega arith) (omega arith) in
    let on : is_traceroute t.command ≡ true = ap is_traceroute is in
    let reply : ℕ → ℕ × Traceroute =
      λ (n : ℕ). (node, record t { command = traceroute_reply; step = n }) in
    let from : ℕ → List (ℕ × Traceroute) =
      λ (n : ℕ). answers net fuel (net.behind node if_id) (record t { step = n }) in
    rw (on, there, next)
      (ap (λ (n : ℕ). reply n ∷ (from n ++ [])) exact
        ∙ ap (λ (ys : List (ℕ × Traceroute)). reply (t.step + 1) ∷ ys)
            (append_none (from (t.step + 1)) ∙ later))
