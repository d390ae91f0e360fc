-- ===== src/Discovery/Delivery/Rows.antt =====
-- What a node has after the delivery.
use axiom_evi_apps.Prelude.{
  ℕ, zero, suc, ◌+◌, ◌-◌, ◌≤◌, ◌<◌, ◌≡◌, refl, ◌≢◌, ◌∙◌, ap, arith, Bool, true, false, List, [],
  ◌∷◌, ◌++◌, map, some, ltb, leb, ◌==◌, ◌&&◌, if◌then◌else◌, Bool-cases, ◌⊎◌, inl, inr,
}
use mathlib.Core.List.{append-nil}
use axiom_evi_apps.Discovery.Routing.{update}
use axiom_evi_apps.Discovery.Delivery.{
  info, Packet, Sends, and_then, end_packet, send_delivery, send_row, send_tables, send_ends,
  delivery_routing_tables, Receipt, received, receive_loop, receive_routing_tables,
}

-- The packets to node d, in order.
unfoldable pub packets_for : ℕ → List (ℕ × Packet) → List Packet
packets_for d [] = []
packets_for d (s ∷ ss) = if s.0 == d then s.1 ∷ packets_for d ss else packets_for d ss

packets_for-append :
    (d : ℕ) (xs ys : List (ℕ × Packet))
    → packets_for d (xs ++ ys) ≡ packets_for d xs ++ packets_for d ys
unfolding packets_for
packets_for-append d [] ys = refl
packets_for-append d (x ∷ xs) ys = ground (arith, packets_for-append d xs ys)

-- The entries of a row from node i on.
entries : (ℕ → ℕ) → ℕ → ℕ → List Packet
entries row zero i = []
entries row (suc left) i =
    let rest = entries row left (i + 1) in
    if row i == 0 then rest else record { command = info; node = i; ifaces = row i } ∷ rest

-- All of the sends are accepted, and these packets go to node d.
abbrev Delivers : ℕ → Sends → List Packet → Type 0
Delivers d s ps = (s.ok ≡ true) × (packets_for d s.sent ≡ ps)

and_then-Delivers :
    (d : ℕ) (first rest : Sends) (ps qs : List Packet)
    → Delivers d first ps
    → Delivers d rest qs
    → Delivers d (and_then first rest) (ps ++ qs)
unfolding and_then
and_then-Delivers d first rest ps qs (ok, same) (ok', same') =
    rw ok (ok', rw (packets_for-append d first.sent rest.sent, same, same') refl)

module _ (accepted : ℕ → Packet → Bool)
    (all : (dest : ℕ) (p : Packet) → accepted dest p ≡ true) where
  send_delivery-Delivers :
      (d dest : ℕ) (p : Packet)
      → Delivers d (send_delivery accepted dest p) (if dest == d then p ∷ [] else [])
  unfolding send_delivery packets_for
  send_delivery-Delivers d dest p = (all dest p, refl)

  send_row-Delivers :
      (row : ℕ → ℕ) (d dest left i : ℕ)
      → Delivers d
          (send_row accepted row dest left i)
          (if dest == d then entries row left i else [])
  unfolding send_row entries packets_for
  send_row-Delivers row d dest zero i = ground arith
  send_row-Delivers row d dest (suc left) i =
      let rest = send_row-Delivers row d dest left (i + 1) in
      let p : Packet = record { command = info; node = i; ifaces = row i } in
      let first = send_delivery-Delivers d dest p in
      let both =
        and_then-Delivers d (send_delivery accepted dest p)
          (send_row accepted row dest left (i + 1)) (if dest == d then p ∷ [] else [])
          (if dest == d then entries row left (i + 1) else []) first rest in
      elim (Bool-cases (row i == 0)) [
        | inl unset ↦ rw unset rest
        | inr set ↦ elim (Bool-cases (dest == d)) [
          | inl here ↦ rw (set, here) (rw here at both)
          | inr there ↦ rw (set, there) (rw there at both)
        ]
      ]

  abbrev in_range : ℕ → ℕ → ℕ → Bool
  in_range d left dest = leb dest d && ltb d (dest + left)

  send_tables-Delivers :
      (tables : ℕ → ℕ → ℕ) (last_node d left dest : ℕ)
      → Delivers d
          (send_tables accepted tables last_node left dest)
          (if in_range d left dest then entries (tables d) last_node 0 else [])
  unfolding send_tables packets_for
  send_tables-Delivers tables last_node d zero dest = ground arith
  send_tables-Delivers tables last_node d (suc left) dest =
      let (ok, same) =
        and_then-Delivers d (send_row accepted (tables dest) dest last_node 0)
          (send_tables accepted tables last_node left (dest + 1))
          (if dest == d then entries (tables dest) last_node 0 else [])
          (if in_range d left (dest + 1) then entries (tables d) last_node 0 else [])
          (send_row-Delivers (tables dest) d dest last_node 0)
          (send_tables-Delivers tables last_node d left (dest + 1)) in
      (
        ok,
        elim (Bool-cases (dest == d)) [
          | inl here ↦
              let e : dest ≡ d = ground arith in
              let now : in_range d (suc left) dest ≡ true = ground arith in
              let later : in_range d left (dest + 1) ≡ false = ground arith in
              rw now (
                same
                ∙ rw (here, later)
                    (append-nil _ ∙ ap (λ (n : ℕ). entries (tables n) last_node 0) e))
          | inr there ↦
              let same_range : in_range d (suc left) dest ≡ in_range d left (dest + 1) =
                ground arith in
              rw same_range (same ∙ rw there refl)
        ],
      )

  send_ends-Delivers :
      (d left dest : ℕ)
      → Delivers d
          (send_ends accepted left dest)
          (if in_range d left dest then end_packet ∷ [] else [])
  unfolding send_ends packets_for
  send_ends-Delivers d zero dest = ground arith
  send_ends-Delivers d (suc left) dest =
      let (ok, same) =
        and_then-Delivers d (send_delivery accepted dest end_packet)
          (send_ends accepted left (dest + 1)) (if dest == d then end_packet ∷ [] else [])
          (if in_range d left (dest + 1) then end_packet ∷ [] else [])
          (send_delivery-Delivers d dest end_packet) (send_ends-Delivers d left (dest + 1)) in
      (
        ok,
        elim (Bool-cases (dest == d)) [
          | inl here ↦
              let now : in_range d (suc left) dest ≡ true = ground arith in
              let later : in_range d left (dest + 1) ≡ false = ground arith in
              rw now (same ∙ rw (here, later) refl)
          | inr there ↦
              let same_range : in_range d (suc left) dest ≡ in_range d left (dest + 1) =
                ground arith in
              rw same_range (same ∙ rw there refl)
        ],
      )

  delivery-Delivers :
      (tables : ℕ → ℕ → ℕ) (master_id last_node d : ℕ)
      → master_id < d
      → d < last_node
      → Delivers d
          (delivery_routing_tables accepted tables master_id last_node)
          (entries (tables d) last_node 0 ++ end_packet ∷ [])
  unfolding delivery_routing_tables
  delivery-Delivers tables master_id last_node d ge lt =
      let others = last_node - (master_id + 1) in
      let here : in_range d others (master_id + 1) ≡ true = ground arith in
      and_then-Delivers d (send_tables accepted tables last_node others (master_id + 1))
        (send_ends accepted others (master_id + 1)) (entries (tables d) last_node 0)
        (end_packet ∷ [])
        (rw here at (send_tables-Delivers tables last_node d others (master_id + 1)))
        (rw here at (send_ends-Delivers d others (master_id + 1)))

-- The end of the reception of the entries from node i on.
record Stored (replied : Bool) (node_id : ℕ) (row : ℕ → ℕ) (left i : ℕ) (table : ℕ → ℕ) (max_id : ℕ)
    (result : Receipt) : Type 0 where
  table' : ℕ → ℕ
  greatest : ℕ
  returns : result ≡ received table' (if ltb greatest node_id then node_id else greatest) replied
  stored : (t : ℕ) → i ≤ t → t < i + left → row t ≢ 0 → table' t ≡ row t
  others : (t : ℕ) → (t < i) ⊎ (i + left ≤ t) ⊎ (row t ≡ 0) → table' t ≡ table t
  above : (t : ℕ) → i ≤ t → t < i + left → row t ≢ 0 → t ≤ greatest
  from_start : max_id ≤ greatest
  attained : (greatest ≡ max_id) ⊎ ((greatest < i + left) × (row greatest ≢ 0))

receive_loop-Stored :
    (replied : Bool) (node_id : ℕ) (row : ℕ → ℕ) (left i : ℕ) (table : ℕ → ℕ) (max_id : ℕ)
    → Stored replied node_id row left i table max_id (
        receive_loop replied node_id
          (map some (entries row left i ++ end_packet ∷ []))
          table
          max_id)
unfolding receive_loop entries
receive_loop-Stored replied node_id row zero i table max_id = record {
  table' = table;
  greatest = max_id;
  returns = refl;
  stored = λ t ge lt. absurd (omega arith);
  others = λ t h. refl;
  above = λ t ge lt. absurd (omega arith);
  from_start = omega arith;
  attained = inl refl;
}
receive_loop-Stored replied node_id row (suc left) i table max_id = elim (Bool-cases (row i == 0)) [
  | inl unset ↦
      let r = receive_loop-Stored replied node_id row left (i + 1) table max_id in
      rw unset (record {
        table' = r.table';
        greatest = r.greatest;
        returns = r.returns;
        stored = λ t ge lt e. ground (arith, r.stored t);
        others = λ t h. ground (arith, r.others t);
        above = λ t ge lt e. ground (arith, r.above t);
        from_start = r.from_start;
        attained = ground (arith, r.attained);
      })
  | inr set ↦
      let max' = if ltb max_id i then i else max_id in
      let table0 = update table i (row i) in
      let r = receive_loop-Stored replied node_id row left (i + 1) table0 max' in
      rw set (record {
        table' = r.table';
        greatest = r.greatest;
        returns = r.returns;
        stored = λ t ge lt e. elim (Bool-cases (t == i)) [
          | inl now ↦ r.others t (inl (ground arith)) ∙ ground arith
          | inr later ↦ r.stored t (ground arith) (omega arith) e
        ];
        others = λ t h. ground (arith, r.others t);
        above = λ t ge lt e. elim (Bool-cases (t == i)) [
          | inl now ↦ ground (arith, r.from_start)
          | inr later ↦ r.above t (ground arith) (omega arith) e
        ];
        from_start = ground (arith, r.from_start);
        attained = ground (arith, r.attained);
      })
]

-- If every packet is accepted, a node between the master and the last node that receives the
-- packets sent to it, in order, stores exactly its row of the master's tables: each of its entries,
-- and no interface for every other number. Its `max_node_id` is the greatest of its own number and
-- of the nodes that its row has an entry for.
pub receive-delivery_roundtrip :
    (accepted : ℕ → Packet → Bool) (tables : ℕ → ℕ → ℕ) (master_id last_node d : ℕ) (replied : Bool)
    → ((dest : ℕ) (p : Packet) → accepted dest p ≡ true)
    → master_id < d
    → d < last_node
    → let s = delivery_routing_tables accepted tables master_id last_node in
      (table : ℕ → ℕ) × (max_node_id : ℕ) × (receive_routing_tables replied d
          (map some (packets_for d s.sent))
        ≡ received table max_node_id replied)
      × ((t : ℕ) → table t ≡ (if ltb t last_node then tables d t else 0))
      × (d ≤ max_node_id)
      × ((t : ℕ) → t < last_node → tables d t ≢ 0 → t ≤ max_node_id)
      × ((max_node_id ≡ d) ⊎ ((max_node_id < last_node) × (tables d max_node_id ≢ 0)))
unfolding receive_routing_tables
receive-delivery_roundtrip accepted tables master_id last_node d replied all ge lt =
    let r = receive_loop-Stored replied d (tables d) last_node 0 (λ _. 0) 0 in
    let arrive = (delivery-Delivers accepted all tables master_id last_node d ge lt).1 in
    (
      r.table',
      if ltb r.greatest d then d else r.greatest,
      rw arrive r.returns,
      λ t. ground (arith, r.stored t, r.others t),
      ground arith,
      λ t less e. ground (arith, r.above t),
      ground (arith, r.attained),
    )
