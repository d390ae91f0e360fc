-- ===== src/Discovery/Protocol/Tables.antt =====
-- The messages of a whole topology, and the round trip from a slave to the node that numbered it.
use axiom_evi_apps.Prelude.{
  ℕ, zero, suc, ◌+◌, ◌≤◌, ◌<◌, ◌≡◌, refl, sym, ◌≢◌, arith, ap, true, List, [], ◌∷◌, ◌++◌, map,
  Option, some, ◌==◌, if◌then◌else◌, All, Bool-cases, inl, inr, ◌∙◌,
}
use mathlib.Core.Path.{subst}
use axiom_evi_apps.Discovery.Protocol.{Discovery, Board, Node, finished, on_command, subtree}
use axiom_evi_apps.Discovery.Protocol.Slave.{
  row_messages, table_messages, end_message, send_all_messages, hand_over,
}
use axiom_evi_apps.Discovery.Protocol.Handover.{
  Closed, Agrees, Reports, find_back-found, absorb, subtree-absorb, absorb_spares, absorb_writes,
}

append-All :
    (P : Discovery → Type 0) (xs ys : List Discovery) → All P xs → All P ys → All P (xs ++ ys)
append-All P [] ys h k = k
append-All P (x ∷ xs) ys h k = (h.0, append-All P xs ys h.1 k)

Reports-left : (i j : ℕ) (xs ys : List Discovery) → Reports i j xs → Reports i j (xs ++ ys)
unfolding Reports
Reports-left i j [] ys h = absurd h
Reports-left i j (x ∷ xs) ys (inl h) = inl h
Reports-left i j (x ∷ xs) ys (inr h) = inr (Reports-left i j xs ys h)

Reports-right : (i j : ℕ) (xs ys : List Discovery) → Reports i j ys → Reports i j (xs ++ ys)
unfolding Reports
Reports-right i j [] ys h = h
Reports-right i j (x ∷ xs) ys h = inr (Reports-right i j xs ys h)

equal : (a b : ℕ) → (a == b) ≡ true → a ≡ b
equal a b e = ground arith

subtree_end :
    (board : Board) (back first next_id through : ℕ) (after : List (Option Discovery)) (s : Node)
    → subtree board back first (some (end_message board through next_id) ∷ after) s
      ≡ some (finished back first (end_message board through next_id) after s)
unfolding subtree on_command end_message
subtree_end board back first next_id through after s = refl

module _ (board : Board) (through : ℕ) (t : ℕ → ℕ → ℕ) (small : board.nodes_num ≤ board.null_node)
    (closed : Closed board.null_node board.nodes_num board.interfaces_num t) where
  row_messages-Agrees :
      (i left j : ℕ)
      → i < board.nodes_num
      → j + left ≤ board.interfaces_num
      → All (Agrees board.null_node t) (row_messages board through t i left j)
  unfolding row_messages
  row_messages-Agrees i zero j lt le = tt
  row_messages-Agrees i (suc left) j lt le = elim (Bool-cases (t i j == board.null_node)) [
    | inl e ↦ rw e (row_messages-Agrees i left (j + 1) lt (omega arith))
    | inr e ↦
        let there : t i j ≢ board.null_node = λ same. ground arith in
        let (w, bound, back) = closed.returns i j lt (omega arith) there in
        let target = closed.target i j lt (omega arith) there in
        rw e (
          record {
            is_link = refl;
            forth = refl;
            back =
                find_back-found board t (t i j) i board.interfaces_num 0 w (omega arith)
                  (omega arith) back;
            src_there = λ same. omega arith;
            dst_there = there;
          },
          row_messages-Agrees i left (j + 1) lt (omega arith),
        )
  ]

  row_messages-Reports :
      (i left from j : ℕ)
      → from ≤ j
      → j < from + left
      → t i j ≢ board.null_node
      → Reports i j (row_messages board through t i left from)
  unfolding row_messages Reports
  row_messages-Reports i zero from j ge lt there = absurd (omega arith)
  row_messages-Reports i (suc left) from j ge lt there =
      elim (Bool-cases (t i from == board.null_node)) [
        | inl e ↦
            let later : from ≢ j = λ same. there (ap (t i) (sym same) ∙ equal (t i from) _ e) in
            rw e (row_messages-Reports i left (from + 1) j (omega arith) (omega arith) there)
        | inr e ↦ elim (Bool-cases (from == j)) [
          | inl here ↦ rw e (inl (refl, equal from j here))
          | inr later ↦
              let after : from + 1 ≤ j = ground arith in
              rw e (inr (row_messages-Reports i left (from + 1) j after (omega arith) there))
        ]
      ]

  table_messages-Agrees :
      (left i : ℕ)
      → i + left ≤ board.nodes_num
      → All (Agrees board.null_node t) (table_messages board through t left i)
  unfolding table_messages
  table_messages-Agrees zero i le = tt
  table_messages-Agrees (suc left) i le =
      append-All (Agrees board.null_node t) _ _
        (row_messages-Agrees i board.interfaces_num 0 (omega arith) (omega arith))
        (table_messages-Agrees left (i + 1) (omega arith))

  table_messages-Reports :
      (left from i j : ℕ)
      → from ≤ i
      → i < from + left
      → j < board.interfaces_num
      → t i j ≢ board.null_node
      → Reports i j (table_messages board through t left from)
  unfolding table_messages
  table_messages-Reports zero from i j ge lt bound there = absurd (omega arith)
  table_messages-Reports (suc left) from i j ge lt bound there = elim (Bool-cases (from == i)) [
    | inl here ↦ Reports-left i j _ _ (
        subst (λ (n : ℕ). Reports i j (row_messages board through t n board.interfaces_num 0))
          (sym (equal from i here))
          (row_messages-Reports i board.interfaces_num 0 j (omega arith) (omega arith) there))
    | inr later ↦
        Reports-right i j _ _
          (table_messages-Reports left (from + 1) i j (ground arith) (omega arith) bound there)
  ]

  -- The messages of the topology, and the last one.
  subtree-table_messages :
      (back first next_id : ℕ) (after : List (Option Discovery)) (s : Node)
      → (s' : Node) × (subtree board back first
            (map some (table_messages board through t board.nodes_num 0)
              ++ (some (end_message board through next_id) ∷ after))
            s
          ≡ some s')
        × (s'.next_id ≡ next_id)
        × (s'.inbox ≡ after)
        × ((i j : ℕ)
            → i < board.nodes_num
            → j < board.interfaces_num
            → s'.topology i j ≡ (if t i j == board.null_node then s.topology i j else t i j))
  unfolding finished end_message
  subtree-table_messages back first next_id after s =
      let ms = table_messages board through t board.nodes_num 0 in
      let agrees = table_messages-Agrees board.nodes_num 0 (omega arith) in
      let absorbed = absorb ms s in
      (
        finished back first (end_message board through next_id) after absorbed,
        subtree-absorb board board.null_node back first t ms
              (some (end_message board through next_id) ∷ after) s agrees
            ∙ subtree_end board back first next_id through after absorbed,
        refl,
        refl,
        λ i j lt bound. elim (Bool-cases (t i j == board.null_node)) [
          | inl e ↦
              rw e
                (absorb_spares board.null_node t ms s i j agrees (equal (t i j) board.null_node e))
          | inr e ↦ rw e (
              absorb_writes board.null_node t ms s i j agrees (
                table_messages-Reports board.nodes_num 0 i j (omega arith) (omega arith) bound
                  (λ same. ground arith)))
        ],
      )

send_all_messages-all :
    (board : Board) (ms : List Discovery)
    → ((m : Discovery) → board.accepts m ≡ true)
    → send_all_messages board ms ≡ ms
unfolding send_all_messages
send_all_messages-all board [] all = refl
send_all_messages-all board (m ∷ ms) all =
    rw (all m) (ap (λ (xs : List Discovery). m ∷ xs) (send_all_messages-all board ms all))

map-append_end :
    (xs : List Discovery) (m : Discovery) (after : List (Option Discovery))
    → map some (xs ++ (m ∷ [])) ++ after ≡ map some xs ++ (some m ∷ after)
map-append_end [] m after = refl
map-append_end (x ∷ xs) m after =
    ap (λ (ys : List (Option Discovery)). some x ∷ ys) (map-append_end xs m after)

-- A slave that is done, in whose topology every link leads to a node and has an entry that leads
-- back, hands over what the waiting node records: with every message accepted, that node goes on
-- behind the last one with the slave's next number, has every link of the slave's topology in its
-- own, and keeps each of its entries where the slave has none.
pub subtree-hand_over :
    (board : Board) (through back first : ℕ) (slave s : Node) (after : List (Option Discovery))
    → board.nodes_num ≤ board.null_node
    → Closed board.null_node board.nodes_num board.interfaces_num slave.topology
    → ((m : Discovery) → board.accepts m ≡ true)
    → (s' : Node) × (subtree board back first (map some (hand_over board through slave) ++ after) s
        ≡ some s')
      × (s'.next_id ≡ slave.next_id)
      × (s'.inbox ≡ after)
      × ((i j : ℕ)
          → i < board.nodes_num
          → j < board.interfaces_num
          → s'.topology i j ≡ (
              if slave.topology i j == board.null_node then s.topology i j else slave.topology i j))
unfolding hand_over
subtree-hand_over board through back first slave s after small closed all =
    let ms = table_messages board through slave.topology board.nodes_num 0 in
    let last = end_message board through slave.next_id in
    let sent : map some (send_all_messages board (ms ++ (last ∷ []))) ++ after
        ≡ map some ms ++ (some last ∷ after) =
      ap (λ (xs : List Discovery). map some xs ++ after)
        (send_all_messages-all board (ms ++ (last ∷ [])) all)
      ∙ map-append_end ms last after in
    let (s', ends, next, inbox, entries) =
      subtree-table_messages board through slave.topology small closed back first slave.next_id
        after s in
    (
      s',
      ap (λ (xs : List (Option Discovery)). subtree board back first xs s) sent ∙ ends,
      next,
      inbox,
      entries,
    )
