-- ===== src/Discovery/Protocol/Phase.antt =====
-- The topology through a whole discovery phase.
use mathlib.Core.Option
use mathlib.Core.Path.{subst}
use axiom_evi_apps.Prelude.{
  ℕ, zero, suc, ◌+◌, ◌≡◌, refl, sym, arith, ap, Bool, true, false, List, [], ◌∷◌, Option, none,
  some, ◌==◌, ◌&&◌, not, if◌then◌else◌, Option-cases, inl, inr, ◌∙◌,
}
use axiom_evi_apps.Discovery.Routing.{update}
use axiom_evi_apps.Discovery.Protocol.{
  routing_mask, Command, req_id, rsp_noid, rsp_id, setid, start, topology, end_topology, Discovery,
  Board, Node, subtree, number_neighbour, on_reply, hear, poll, poll_from, discover_phase, post,
  message, next_number, named, linked,
}
use axiom_evi_apps.Discovery.Protocol.Recording.{
  Wiring, Consistent, Ends, carried, if-all, record_link-Consistent, AllTruthful,
  subtree-Consistent,
}

abbrev pub is_rsp_id : Command → Bool
is_rsp_id rsp_id = true
is_rsp_id _ = false

abbrev pub is_rsp_noid : Command → Bool
is_rsp_noid rsp_noid = true
is_rsp_noid _ = false

-- The answer on interface i, and the topology messages behind it, say what is wired: a neighbour
-- with a number names it and its interface, and one without is to be the node that it is numbered
-- as.
unfoldable pub HonestReply : Wiring → ℕ → Node → List (Option Discovery) → Type 0
HonestReply w i s [] = Unit
HonestReply w i s (none ∷ more) = Unit
HonestReply w i s (some m ∷ more) =
    (is_rsp_id m.command ≡ true → w.wire s.node_id m.interface ≡ some (m.src_node, m.src_if))
    × (is_rsp_noid m.command ≡ true → w.wire s.node_id i ≡ some (next_number s, m.src_if))
    × AllTruthful w more

-- Whether the loop asks the neighbour on interface i: it is connected, not known yet, and the request
-- is accepted.
unfoldable pub asks : Board → ℕ → Node → Bool
asks board i s =
    board.connected i
    && ((s.topology s.node_id i == board.null_node) && board.accepts (message i req_id s.node_id 0))

-- The same of every interface on which the loop asks. What is not asked is not answered: the next
-- message is then for a later interface.
unfoldable pub HonestFrom : Board → Wiring → ℕ → ℕ → Node → Type 0
unfolding HonestReply
HonestFrom board w zero i s = Unit
HonestFrom board w (suc left) i s =
    (asks board i s ≡ true → HonestReply w i s s.inbox)
    × ((s' : Node) → poll board i s ≡ some (s', true) → HonestFrom board w left (i + 1) s')

abbrev EndsPair : ℕ → Wiring → Node × Bool → Type 0
EndsPair null w p = Consistent null w p.0.topology

carried_pair :
    (null : ℕ) (w : Wiring) (p q : Node × Bool)
    → some p ≡ some q
    → EndsPair null w p
    → EndsPair null w q
carried_pair null w p q e h =
    subst (EndsPair null w) (ap (λ (o : Option (Node × Bool)). elim o [ none ↦ p | some r ↦ r ]) e)
      h

map-all :
    (null : ℕ) (w : Wiring) (o : Option Node) (q : Node × Bool)
    → ((s : Node) → o ≡ some s → Ends null w s)
    → Option.map (λ s. (s, true)) o ≡ some q
    → EndsPair null w q
map-all null w none q h e = absurd (ground arith)
map-all null w (some s) q h e = carried_pair null w (s, true) q e (h s refl)

number_neighbour-Consistent :
    (board : Board) (w : Wiring) (i : ℕ) (m : Discovery) (s : Node) (q : Node × Bool)
    → w.wire s.node_id i ≡ some (next_number s, m.src_if)
    → AllTruthful w s.inbox
    → Ends board.null_node w s
    → number_neighbour board i m s ≡ some q
    → EndsPair board.null_node w q
unfolding number_neighbour linked
number_neighbour-Consistent board w i m s q wired ok h e =
    let P = EndsPair board.null_node w in
    let h' =
      record_link-Consistent board.null_node w s.topology s.node_id i (next_number s) m.src_if wired
        h in
    let run = subtree board i (next_number s) s.inbox (linked i m s) in
    let second =
      if-all P (not (board.accepts (message i start s.node_id (next_number s))))
        (some (linked i m s, false)) (Option.map (λ s'. (s', true)) run) q
        (λ e'. carried_pair board.null_node w (linked i m s, false) q e' h')
        (map-all board.null_node w run q (λ s₁ e'.
          subtree-Consistent board w i (next_number s) s.inbox (linked i m s) s₁ ok h' e')) in
    if-all P (not (board.accepts (message i setid s.node_id (next_number s))))
      (some (named i s, false)) _ q (λ e'. carried_pair board.null_node w (named i s, false) q e' h)
      second e

on_reply-Consistent :
    (board : Board) (w : Wiring) (i : ℕ) (c : Command) (m : Discovery) (s : Node) (q : Node × Bool)
    → (is_rsp_id c ≡ true → w.wire s.node_id m.interface ≡ some (m.src_node, m.src_if))
    → (is_rsp_noid c ≡ true → w.wire s.node_id i ≡ some (next_number s, m.src_if))
    → AllTruthful w s.inbox
    → Ends board.null_node w s
    → on_reply board i c m s ≡ some q
    → EndsPair board.null_node w q
unfolding on_reply
on_reply-Consistent board w i rsp_id m s q id noid ok h e = carried_pair board.null_node w _ q e (
    record_link-Consistent board.null_node w s.topology s.node_id m.interface m.src_node m.src_if
      (id refl) h)
on_reply-Consistent board w i rsp_noid m s q id noid ok h e =
    number_neighbour-Consistent board w i m s q (noid refl) ok h e
on_reply-Consistent board w i req_id m s q id noid ok h e =
    carried_pair board.null_node w (s, false) q e h
on_reply-Consistent board w i setid m s q id noid ok h e =
    carried_pair board.null_node w (s, false) q e h
on_reply-Consistent board w i start m s q id noid ok h e =
    carried_pair board.null_node w (s, false) q e h
on_reply-Consistent board w i topology m s q id noid ok h e =
    carried_pair board.null_node w (s, false) q e h
on_reply-Consistent board w i end_topology m s q id noid ok h e =
    carried_pair board.null_node w (s, false) q e h

hear-Consistent :
    (board : Board) (w : Wiring) (i : ℕ) (inbox : List (Option Discovery)) (s : Node)
    (q : Node × Bool)
    → HonestReply w i s inbox
    → Ends board.null_node w s
    → hear board i inbox s ≡ some q
    → EndsPair board.null_node w q
unfolding hear HonestReply
hear-Consistent board w i [] s q honest h e = absurd (ground arith)
hear-Consistent board w i (none ∷ more) s q honest h e =
    carried_pair board.null_node w (record s { inbox = more }, false) q e h
hear-Consistent board w i (some m ∷ more) s q honest h e =
    on_reply-Consistent board w i m.command m (record s { inbox = more }) q honest.0 honest.1
      honest.2 h e

-- What is asked for does not depend on the messages that were sent.
honest-post :
    (w : Wiring) (i : ℕ) (m : Discovery) (inbox : List (Option Discovery)) (s : Node)
    → HonestReply w i s inbox
    → HonestReply w i (post m s) inbox
unfolding HonestReply
honest-post w i m [] s honest = tt
honest-post w i m (none ∷ more) s honest = tt
honest-post w i m (some n ∷ more) s honest = honest

if-else :
    {A : Type 0} (P : A → Type 0) (b : Bool) (x y : Option A) (r : A)
    → (x ≡ some r → P r)
    → (b ≡ true → y ≡ some r → P r)
    → (if not b then x else y) ≡ some r
    → P r
if-else P true x y r h₁ h₂ e = h₂ refl e
if-else P false x y r h₁ h₂ e = h₁ e

poll-Consistent :
    (board : Board) (w : Wiring) (i : ℕ) (s : Node) (q : Node × Bool)
    → (asks board i s ≡ true → HonestReply w i s s.inbox)
    → Ends board.null_node w s
    → poll board i s ≡ some q
    → EndsPair board.null_node w q
unfolding poll asks
poll-Consistent board w i s q honest h e =
    let P = EndsPair board.null_node w in
    let ask = message i req_id s.node_id 0 in
    let heard = hear board i s.inbox (post ask s) in
    let kept = λ (e' : some (s, true) ≡ some q). carried_pair board.null_node w (s, true) q e' h in
    if-else P (board.connected i) (some (s, true)) _ q kept
      (λ joined.
        if-else P (s.topology s.node_id i == board.null_node) (some (s, true)) _ q kept (λ unknown.
          if-else P (board.accepts ask) (some (post ask s, false)) heard q
            (λ e'. carried_pair board.null_node w (post ask s, false) q e' h)
            (λ sent.
              let asked : asks board i s ≡ true = ground (arith, joined, unknown, sent) in
              hear-Consistent board w i s.inbox (post ask s) q
                (honest-post w i ask s.inbox s (honest asked)) h)))
      e

poll_from_stop :
    (board : Board) (left i : ℕ) (s s' : Node)
    → poll board i s ≡ some (s', false)
    → poll_from board (suc left) i s ≡ some s'
unfolding poll_from
poll_from_stop board left i s s' e = rw (poll_from, e) refl

poll_from_go :
    (board : Board) (left i : ℕ) (s s' : Node)
    → poll board i s ≡ some (s', true)
    → poll_from board (suc left) i s ≡ poll_from board left (i + 1) s'
unfolding poll_from
poll_from_go board left i s s' e = rw (poll_from, e) refl

poll_from-Consistent :
    (board : Board) (w : Wiring) (left i : ℕ) (s s' : Node)
    → HonestFrom board w left i s
    → Ends board.null_node w s
    → poll_from board left i s ≡ some s'
    → Ends board.null_node w s'
unfolding poll_from HonestFrom
poll_from-Consistent board w zero i s s' honest h e = carried board.null_node w s s' e h
poll_from-Consistent board w (suc left) i s s' honest h e = elim (Option-cases (poll board i s)) [
  | inl stuck ↦ absurd (ground (arith, stuck, e))
  | inr ((s₁, false), polled) ↦
      carried board.null_node w s₁ s' (sym (poll_from_stop board left i s s₁ polled) ∙ e)
        (poll-Consistent board w i s (s₁, false) honest.0 h polled)
  | inr ((s₁, true), polled) ↦
      poll_from-Consistent board w left (i + 1) s₁ s' (honest.1 s₁ polled)
        (poll-Consistent board w i s (s₁, true) honest.0 h polled)
        (sym (poll_from_go board left i s s₁ polled) ∙ e)
]

-- The node when its phase starts: the loopback is routed.
abbrev pub looped : Board → Node → Node
looped board s = record s { routing = update s.routing s.node_id (routing_mask board.loopback) }

-- Through a whole phase of a node that ends, master or slave, whatever fails on the way: while the
-- neighbours that it asks answer honestly, and the nodes behind them send honest topologies, a
-- topology in which every link is wired so and stands at both ends stays one.
pub discover_phase-Consistent :
    (board : Board) (w : Wiring) (s s' : Node)
    → HonestFrom board w board.num_interface 0 (looped board s)
    → Consistent board.null_node w s.topology
    → discover_phase board s ≡ some s'
    → Consistent board.null_node w s'.topology
unfolding discover_phase
discover_phase-Consistent board w s s' honest h e =
    poll_from-Consistent board w board.num_interface 0 (looped board s) s' honest h e
