-- ===== src/Discovery/Protocol/Recording.antt =====
-- While every message says what the wires are, the recorded topology does too, in both directions.
use axiom_evi_apps.Prelude.{
  ℕ, ◌≡◌, refl, sym, ◌≢◌, arith, ap, Bool, true, false, List, [], ◌∷◌, Option, none, some, ◌==◌,
  ◌&&◌, if◌then◌else◌, Bool-cases, inl, inr, ◌∙◌,
}
use mathlib.Core.Path.{subst}
use axiom_evi_apps.Discovery.Protocol.{
  Command, req_id, rsp_noid, rsp_id, setid, start, topology, end_topology, Discovery, Board, Node,
  assign, record_link, on_command, reply_to, noted, finished, subtree, post,
}

-- Which interface of which node each interface is wired to.
pub record Wiring : Type 0 where
  pub wire : ℕ → ℕ → Option (ℕ × ℕ)
  pub symmetric : (a x b y : ℕ) → wire a x ≡ some (b, y) → wire b y ≡ some (a, x)

-- What a topology claims is wired so, and is claimed from the other end as well.
pub record Consistent (null : ℕ) (w : Wiring) (t : ℕ → ℕ → ℕ) : Type 0 where
  pub claims :
      (a x : ℕ) → t a x ≢ null → (y : ℕ) × (w.wire a x ≡ some (t a x, y)) × (t (t a x) y ≡ a)

first_of : Option (ℕ × ℕ) → ℕ
first_of none = 0
first_of (some p) = p.0

second_of : Option (ℕ × ℕ) → ℕ
second_of none = 0
second_of (some p) = p.1

same_first : (o : Option (ℕ × ℕ)) (a x b y : ℕ) → o ≡ some (a, x) → o ≡ some (b, y) → a ≡ b
unfolding first_of
same_first o a x b y e e' = ap first_of (sym e ∙ e')

pub at_entry : (i a j x : ℕ) → (i == a && j == x) ≡ true → (i ≡ a) × (j ≡ x)
at_entry i a j x e = (ground arith, ground arith)

wire_at :
    (w : Wiring) (c z b y : ℕ) (end : ℕ × ℕ)
    → (c == b && z == y) ≡ true
    → w.wire b y ≡ some end
    → w.wire c z ≡ some end
wire_at w c z b y end e there =
    let (p, q) = at_entry c b z y e in ap (λ (n : ℕ). w.wire n z) p ∙ ap (w.wire b) q ∙ there

-- An entry of the topology after a link was recorded.
pub record_link_at :
    (t : ℕ → ℕ → ℕ) (a x b y i j : ℕ)
    → record_link t a x b y i j
      ≡ (if i == b && j == y then a else if i == a && j == x then b else t i j)
unfolding record_link assign
record_link_at t a x b y i j = refl

record_link_back : (t : ℕ → ℕ → ℕ) (a x b y : ℕ) → record_link t a x b y b y ≡ a
unfolding record_link assign
record_link_back t a x b y = ground arith

pub record_link_forth : (t : ℕ → ℕ → ℕ) (a x b y : ℕ) → record_link t a x b y a x ≡ b
unfolding record_link assign
record_link_forth t a x b y = ground arith

-- An entry that was back keeps pointing back.
record_link_keeps :
    (w : Wiring) (t : ℕ → ℕ → ℕ) (a x b y i j c z : ℕ)
    → w.wire a x ≡ some (b, y)
    → w.wire c z ≡ some (i, j)
    → t c z ≡ i
    → record_link t a x b y c z ≡ i
record_link_keeps w t a x b y i j c z wired other back = elim (Bool-cases (c == b && z == y)) [
  | inl e ↦
      record_link_at t a x b y c z
      ∙ rw e (
          same_first (w.wire c z) a x i j (wire_at w c z b y (a, x) e (w.symmetric a x b y wired))
            other)
  | inr e ↦ elim (Bool-cases (c == a && z == x)) [
    | inl e' ↦
        record_link_at t a x b y c z
        ∙ rw (e, e') (same_first (w.wire c z) b y i j (wire_at w c z a x (b, y) e' wired) other)
    | inr e' ↦ record_link_at t a x b y c z ∙ rw (e, e') back
  ]
]

-- To record a link that is there keeps the topology consistent.
pub record_link-Consistent :
    (null : ℕ) (w : Wiring) (t : ℕ → ℕ → ℕ) (a x b y : ℕ)
    → w.wire a x ≡ some (b, y)
    → Consistent null w t
    → Consistent null w (record_link t a x b y)
record_link-Consistent null w t a x b y wired h = record {
  claims = λ i j ne. elim (Bool-cases (i == b && j == y)) [
    | inl e ↦
        let value : record_link t a x b y i j ≡ a = record_link_at t a x b y i j ∙ rw e refl in
        (
          x,
          rw value (wire_at w i j b y (a, x) e (w.symmetric a x b y wired)),
          rw value (record_link_forth t a x b y ∙ sym (at_entry i b j y e).0),
        )
    | inr e ↦ elim (Bool-cases (i == a && j == x)) [
      | inl e' ↦
          let value : record_link t a x b y i j ≡ b =
            record_link_at t a x b y i j ∙ rw (e, e') refl in
          (
            y,
            rw value (wire_at w i j a x (b, y) e' wired),
            rw value (record_link_back t a x b y ∙ sym (at_entry i a j x e').0),
          )
      | inr e' ↦
          let value : record_link t a x b y i j ≡ t i j =
            record_link_at t a x b y i j ∙ rw (e, e') refl in
          let (z, other, back) = h.claims i j (λ n. ne (value ∙ n)) in
          (
            z,
            rw value other,
            rw value (
                record_link_keeps w t a x b y i j (t i j) z wired (w.symmetric i j (t i j) z other)
                  back),
          )
    ]
  ];
}

-- A message of a topology that says what is wired.
abbrev pub is_topology : Command → Bool
is_topology topology = true
is_topology _ = false

unfoldable pub Truthful : Wiring → Option Discovery → Type 0
Truthful w none = Unit
Truthful w (some m) =
    is_topology m.command ≡ true → w.wire m.src_node m.src_if ≡ some (m.dst_node, m.dst_if)

unfoldable pub AllTruthful : Wiring → List (Option Discovery) → Type 0
unfolding Truthful
AllTruthful w [] = Unit
AllTruthful w (m ∷ ms) = Truthful w m × AllTruthful w ms

-- What is shown of the node that a step ends in.
abbrev pub Ends : ℕ → Wiring → Node → Type 0
Ends null w s = Consistent null w s.topology

pub some_inj : (s s' : Node) → some s ≡ some s' → s ≡ s'
some_inj s s' e = ap (λ (o : Option Node). elim o [ none ↦ s | some t ↦ t ]) e

pub carried :
    (null : ℕ) (w : Wiring) (s s' : Node) → some s ≡ some s' → Ends null w s → Ends null w s'
carried null w s s' e h = subst (Ends null w) (some_inj s s' e) h

-- Every result of the branches has what each branch has.
on_command-all :
    (P : Node → Type 0) (c : Command) (asked linked ended ignored : Option Node) (s' : Node)
    → (asked ≡ some s' → P s')
    → (is_topology c ≡ true → linked ≡ some s' → P s')
    → (ended ≡ some s' → P s')
    → (ignored ≡ some s' → P s')
    → on_command c asked linked ended ignored ≡ some s'
    → P s'
unfolding on_command
on_command-all P req_id asked linked ended ignored s' h₁ h₂ h₃ h₄ e = h₁ e
on_command-all P topology asked linked ended ignored s' h₁ h₂ h₃ h₄ e = h₂ refl e
on_command-all P end_topology asked linked ended ignored s' h₁ h₂ h₃ h₄ e = h₃ e
on_command-all P rsp_noid asked linked ended ignored s' h₁ h₂ h₃ h₄ e = h₄ e
on_command-all P rsp_id asked linked ended ignored s' h₁ h₂ h₃ h₄ e = h₄ e
on_command-all P setid asked linked ended ignored s' h₁ h₂ h₃ h₄ e = h₄ e
on_command-all P start asked linked ended ignored s' h₁ h₂ h₃ h₄ e = h₄ e

pub if-all :
    {A : Type 0} (P : A → Type 0) (b : Bool) (x y : Option A) (s' : A)
    → (x ≡ some s' → P s')
    → (y ≡ some s' → P s')
    → (if b then x else y) ≡ some s'
    → P s'
if-all P true x y s' h₁ h₂ e = h₁ e
if-all P false x y s' h₁ h₂ e = h₂ e

pub subtree-Consistent :
    (board : Board) (w : Wiring) (through first : ℕ) (inbox : List (Option Discovery)) (s s' : Node)
    → AllTruthful w inbox
    → Consistent board.null_node w s.topology
    → subtree board through first inbox s ≡ some s'
    → Consistent board.null_node w s'.topology
unfolding subtree AllTruthful Truthful noted finished
subtree-Consistent board w through first [] s s' ok h e = absurd (ground arith)
subtree-Consistent board w through first (none ∷ more) s s' ok h e =
    carried board.null_node w (record s { inbox = more }) s' e h
subtree-Consistent board w through first (some m ∷ more) s s' ok h e =
    let P = Ends board.null_node w in
    let answered = post (reply_to s m) s in
    on_command-all P m.command _ _ _ _ s'
      (if-all P _ _ _ s' (λ e'. subtree-Consistent board w through first more answered s' ok.1 h e')
        (λ e'. carried board.null_node w (record answered { inbox = more }) s' e' h))
      (λ is e'.
        subtree-Consistent board w through first more (noted m s) s' ok.1
          (record_link-Consistent board.null_node w s.topology m.src_node m.src_if m.dst_node
            m.dst_if (ok.0 is) h)
          e')
      (λ e'. carried board.null_node w (finished through first m more s) s' e' h)
      (λ e'. subtree-Consistent board w through first more s s' ok.1 h e') e
