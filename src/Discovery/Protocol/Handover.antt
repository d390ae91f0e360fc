-- ===== src/Discovery/Protocol/Handover.antt =====
-- What a slave hands over is what the node that numbered it records.
use axiom_evi_apps.Prelude.{
  ℕ, zero, suc, ◌+◌, ◌≤◌, ◌<◌, ◌≡◌, refl, sym, ◌≢◌, ◌⊎◌, arith, ap, true, false, List, [], ◌∷◌,
  ◌++◌, map, Option, some, ◌==◌, ◌&&◌, All, Bool-cases, inl, inr, ◌∙◌,
}
use axiom_evi_apps.Discovery.Protocol.{
  Command, topology, Discovery, Board, Node, noted, on_command, subtree,
}
use axiom_evi_apps.Discovery.Protocol.Slave.{find_back}
use axiom_evi_apps.Discovery.Protocol.Recording.{record_link_at, record_link_forth, at_entry}

-- Every link of the topology t, over `nodes` nodes with `interfaces` interfaces, leads to a node and
-- has an entry that leads back.
pub record Closed (null nodes interfaces : ℕ) (t : ℕ → ℕ → ℕ) : Type 0 where
  pub target : (i j : ℕ) → i < nodes → j < interfaces → t i j ≢ null → t i j < nodes
  pub returns :
      (i j : ℕ)
      → i < nodes
      → j < interfaces
      → t i j ≢ null
      → (w : ℕ) × (w < interfaces) × (t (t i j) w ≡ i)

ne_of_test : (a b : ℕ) → (a == b) ≡ false → a ≢ b
ne_of_test a b e same = ground arith

pub find_back-found :
    (board : Board) (t : ℕ → ℕ → ℕ) (from to left w v : ℕ)
    → w ≤ v
    → v < w + left
    → t from v ≡ to
    → t from (find_back board t from to left w) ≡ to
unfolding find_back
find_back-found board t from to zero w v ge lt e = absurd (omega arith)
find_back-found board t from to (suc left) w v ge lt e = elim (Bool-cases (t from w == to)) [
  | inl here ↦ rw here (ground arith)
  | inr miss ↦
      let further : w ≢ v = λ same. ne_of_test (t from w) to miss (ap (t from) same ∙ e) in
      rw miss (find_back-found board t from to left (w + 1) v (omega arith) (omega arith) e)
]

-- A message of a link that stands in t, in both directions.
pub record Agrees (null : ℕ) (t : ℕ → ℕ → ℕ) (m : Discovery) : Type 0 where
  pub is_link : m.command ≡ topology
  pub forth : t m.src_node m.src_if ≡ m.dst_node
  pub back : t m.dst_node m.dst_if ≡ m.src_node
  pub src_there : m.src_node ≢ null
  pub dst_there : m.dst_node ≢ null

-- All the messages, recorded one after the other.
unfoldable pub absorb : List Discovery → Node → Node
absorb [] s = s
absorb (m ∷ ms) s = absorb ms (noted m s)

on_topology :
    (c : Command) (asked linked ended ignored : Option Node)
    → c ≡ topology
    → on_command c asked linked ended ignored ≡ linked
unfolding on_command
on_topology c asked linked ended ignored e = rw e refl

pub subtree-absorb :
    (board : Board) (null through first : ℕ) (t : ℕ → ℕ → ℕ) (ms : List Discovery)
    (rest : List (Option Discovery)) (s : Node)
    → All (Agrees null t) ms
    → subtree board through first (map some ms ++ rest) s
      ≡ subtree board through first rest (absorb ms s)
unfolding subtree absorb
subtree-absorb board null through first t [] rest s ok = refl
subtree-absorb board null through first t (m ∷ ms) rest s ok =
    on_topology m.command _ _ _ _ ok.0.is_link
    ∙ subtree-absorb board null through first t ms rest (noted m s) ok.1

entry_at : (t : ℕ → ℕ → ℕ) (i j a x : ℕ) → (i == a && j == x) ≡ true → t i j ≡ t a x
entry_at t i j a x e = let (p, q) = at_entry i a j x e in ap (λ (n : ℕ). t n j) p ∙ ap (t a) q

moved : (t u : ℕ → ℕ → ℕ) {a x i j : ℕ} → (a ≡ i) × (x ≡ j) → u a x ≡ t a x → u i j ≡ t i j
moved t u {a} {x} {i} {j} (p, q) e =
    ap (λ (n : ℕ). u n j) (sym p) ∙ ap (u a) (sym q) ∙ e ∙ ap (t a) q ∙ ap (λ (n : ℕ). t n j) p

Agrees-entry :
    (null : ℕ) (t : ℕ → ℕ → ℕ) (m : Discovery) (s : Node) (i j : ℕ)
    → Agrees null t m
    → ((noted m s).topology i j ≡ t i j) × (t i j ≢ null)
      ⊎ ((noted m s).topology i j ≡ s.topology i j)
unfolding noted
Agrees-entry null t m s i j ok =
    let value = record_link_at s.topology m.src_node m.src_if m.dst_node m.dst_if i j in
    elim (Bool-cases (i == m.dst_node && j == m.dst_if)) [
      | inl e ↦
          let here : t i j ≡ m.src_node = entry_at t i j m.dst_node m.dst_if e ∙ ok.back in
          inl (value ∙ rw e (sym here), λ none_there. ok.src_there (sym here ∙ none_there))
      | inr e ↦ elim (Bool-cases (i == m.src_node && j == m.src_if)) [
        | inl e' ↦
            let here : t i j ≡ m.dst_node = entry_at t i j m.src_node m.src_if e' ∙ ok.forth in
            inl (value ∙ rw (e, e') (sym here), λ none_there. ok.dst_there (sym here ∙ none_there))
        | inr e' ↦ inr (value ∙ rw (e, e') refl)
      ]
    ]

-- An entry that is right stays right, and one that t does not have stays as it is.
absorb_keeps :
    (null : ℕ) (t : ℕ → ℕ → ℕ) (ms : List Discovery) (s : Node) (i j : ℕ)
    → All (Agrees null t) ms
    → s.topology i j ≡ t i j
    → (absorb ms s).topology i j ≡ t i j
unfolding absorb
absorb_keeps null t [] s i j ok right = right
absorb_keeps null t (m ∷ ms) s i j ok right =
    absorb_keeps null t ms (noted m s) i j ok.1
      (elim (Agrees-entry null t m s i j ok.0) [ inl h ↦ h.0 | inr same ↦ same ∙ right ])

pub absorb_spares :
    (null : ℕ) (t : ℕ → ℕ → ℕ) (ms : List Discovery) (s : Node) (i j : ℕ)
    → All (Agrees null t) ms
    → t i j ≡ null
    → (absorb ms s).topology i j ≡ s.topology i j
unfolding absorb
absorb_spares null t [] s i j ok empty = refl
absorb_spares null t (m ∷ ms) s i j ok empty =
    absorb_spares null t ms (noted m s) i j ok.1 empty
    ∙ elim (Agrees-entry null t m s i j ok.0) [ inl h ↦ absurd (h.1 empty) | inr same ↦ same ]

-- Whether a list has the message of an entry.
unfoldable pub Reports : ℕ → ℕ → List Discovery → Type 0
Reports i j [] = ⊥
Reports i j (m ∷ ms) = ((m.src_node ≡ i) × (m.src_if ≡ j)) ⊎ Reports i j ms

pub absorb_writes :
    (null : ℕ) (t : ℕ → ℕ → ℕ) (ms : List Discovery) (s : Node) (i j : ℕ)
    → All (Agrees null t) ms
    → Reports i j ms
    → (absorb ms s).topology i j ≡ t i j
unfolding absorb Reports
absorb_writes null t [] s i j ok has = absurd has
absorb_writes null t (m ∷ ms) s i j ok (inr has) = absorb_writes null t ms (noted m s) i j ok.1 has
absorb_writes null t (m ∷ ms) s i j ok (inl at) =
    let written : (noted m s).topology m.src_node m.src_if ≡ t m.src_node m.src_if =
      unfold noted in
      record_link_forth s.topology m.src_node m.src_if m.dst_node m.dst_if ∙ sym ok.0.forth in
    absorb_keeps null t ms (noted m s) i j ok.1 (moved t (noted m s).topology at written)
