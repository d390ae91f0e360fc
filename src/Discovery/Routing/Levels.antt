-- ===== src/Discovery/Routing/Levels.antt =====
-- One round of the `do`: it assigns the unassigned neighbours of the level, which become the next
-- level, and leaves every other entry of the row.
use axiom_evi_apps.Prelude.{
  ℕ, ◌+◌, ◌-◌, ◌≤◌, ◌<◌, ◌≡◌, refl, ◌≢◌, arith, Bool, ◌==◌, not, ◌&&◌, Bool-cases, ◌⊎◌, inl, inr,
}
use axiom_evi_apps.Discovery.Routing.{Net, Table, for_from, second_level, expand, pass}
use axiom_evi_apps.Discovery.Routing.Links.{IsLink, IsTopology, for_from_inv}

module _ (net : Net) (actual : ℕ) where
  -- Every link of node f leads to a node with an entry, or to the node of the row.
  abbrev pub Covers : ℕ → Table → Type 0
  Covers f s = (i t : ℕ) → IsLink net f i t → t ≢ actual → s.row t ≢ 0

  -- An entry of the row that the round made: the one of a node `from` that had an entry.
  pub record Copied (before s : Table) (t : ℕ) : Type 0 where
    pub from : ℕ
    pub through : ℕ
    pub known : before.row from ≢ 0
    pub link : IsLink net from through t
    pub entry : s.row t ≡ before.row from

  -- The same inside the round, where the node is noted for the next level.
  record Found (before s : Table) (t : ℕ) : Type 0 where
    from : ℕ
    through : ℕ
    known : before.row from ≢ 0
    link : IsLink net from through t
    entry : s.row t ≡ before.row from
    marked : s.next t ≡ t

  -- What every step of the round keeps, from the table before the round.
  record Extends (before s : Table) : Type 0 where
    kept : (t : ℕ) → before.row t ≢ 0 → s.row t ≡ before.row t
    levels : (t : ℕ) → s.level t ≡ before.level t
    found : (t : ℕ) → s.row t ≢ 0 → (before.row t ≢ 0) ⊎ Found before s t
    nexts : (t : ℕ) → (s.next t ≡ before.next t) ⊎ ((s.next t ≡ t) × (s.row t ≢ 0))

  abbrev is_new : ℕ → ℕ → Table → Bool
  is_new f i s =
      not (net.topology f i == net.null_node)
      && not (net.topology f i == actual)
      && s.row (net.topology f i) == 0

  second_level-keeps :
      (f i t : ℕ) (s : Table) → s.row t ≢ 0 → (second_level net actual f i s).row t ≡ s.row t
  unfolding second_level
  second_level-keeps f i t s h = elim (Bool-cases (is_new f i s)) [
    | inl new ↦ rw new (ground arith)
    | inr old ↦ rw old refl
  ]

  second_level-assigns :
      (f i t : ℕ) (s : Table)
      → IsLink net f i t
      → t ≢ actual
      → s.row f ≢ 0
      → (second_level net actual f i s).row t ≢ 0
  unfolding second_level
  second_level-assigns f i t s link other known = elim (Bool-cases (is_new f i s)) [
    | inl new ↦ rw new (ground (arith, link.connected))
    | inr old ↦ rw old (ground (arith, link.connected, link.present))
  ]

  second_level-Extends :
      (before : Table) (f i : ℕ) (s : Table)
      → before.row f ≢ 0
      → i < net.interfaces
      → Extends before s
      → Extends before (second_level net actual f i s)
  unfolding second_level
  second_level-Extends before f i s known lt h = elim (Bool-cases (is_new f i s)) [
    | inr old ↦ rw old h
    | inl new ↦
        let second = net.topology f i in
        rw new (record {
          kept = λ t e. ground (arith, h.kept t);
          levels = h.levels;
          found = λ t e. elim (Bool-cases (t == second)) [
            | inl here ↦ inr (record {
              from = f;
              through = i;
              known = known;
              link = record { interface = lt; connected = ground arith; present = ground arith };
              entry = ground (arith, h.kept f known);
              marked = ground arith;
            })
            | inr there ↦ elim (h.found t (ground arith)) [
              | inl old ↦ inl old
              | inr g ↦ inr (record {
                from = g.from;
                through = g.through;
                known = g.known;
                link = g.link;
                entry = ground (arith, g.entry);
                marked = ground (arith, g.marked);
              })
            ]
          ];
          nexts = λ t. ground (arith, h.nexts t, h.kept f known);
        })
  ]

  -- The state of the loop over the interfaces of node f, from the table at its start.
  record LinksDone (before start : Table) (f i : ℕ) (s : Table) : Type 0 where
    extends : Extends before s
    keeps : (t : ℕ) → start.row t ≢ 0 → s.row t ≢ 0
    covers : (j t : ℕ) → j < i → IsLink net f j t → t ≢ actual → s.row t ≢ 0

  all_links :
      (before : Table) (f : ℕ) (start : Table)
      → before.row f ≢ 0
      → Extends before start
      → LinksDone before start f net.interfaces
          (for_from net.interfaces 0 (second_level net actual f) start)
  all_links before f start known h =
      for_from_inv (LinksDone before start f) (second_level net actual f) net.interfaces step
        net.interfaces 0 start (omega arith)
        (record { extends = h; keeps = λ t e. e; covers = λ j t lt. absurd (omega arith) })
    where
      step :
          (i : ℕ) (s : Table)
          → i < net.interfaces
          → LinksDone before start f i s
          → LinksDone before start f (i + 1) (second_level net actual f i s)
      step i s lt g = record {
        extends = second_level-Extends before f i s known lt g.extends;
        keeps = λ t e. ground (arith, second_level-keeps f i t s (g.keeps t e), g.keeps t e);
        covers = λ j t less link other. elim (Bool-cases (j == i)) [
          | inl now ↦
              let same : j ≡ i = ground arith in
              second_level-assigns f i t s (rw same at link) other
                (ground (arith, g.extends.kept f known))
          | inr earlier ↦
              let covered = g.covers j t (ground arith) link other in
              ground (arith, second_level-keeps f i t s covered, covered)
        ];
      }

  -- The nodes of the level, and what a table holds between the rounds.
  pub record Ready (s : Table) : Type 0 where
    pub levels : (t : ℕ) → (s.level t ≡ net.null_node) ⊎ ((s.level t ≡ t) × (s.row t ≢ 0))
    pub nexts : (t : ℕ) → (s.next t ≡ net.null_node) ⊎ ((s.next t ≡ t) × (s.row t ≢ 0))
    pub closed : (f : ℕ) → s.row f ≢ 0 → (s.level f ≡ f) ⊎ Covers f s
    pub nodes : (t : ℕ) → s.row t ≢ 0 → (net.master_id ≤ t) × (t < net.last_node)

  -- The state of the loop over the nodes.
  record NodesDone (before : Table) (n : ℕ) (s : Table) : Type 0 where
    extends : Extends before s
    covers :
        (f : ℕ) → net.master_id ≤ f → f < n → before.row f ≢ 0 → before.level f ≡ f → Covers f s

  expand-NodesDone :
      (before : Table)
      → Ready before
      → IsTopology net
      → (n : ℕ) (s : Table) → n < net.last_node
      → NodesDone before n s
      → NodesDone before (n + 1) (expand net actual n s)
  unfolding expand
  expand-NodesDone before ready ok n s lt h = elim (Bool-cases (s.level n == net.null_node)) [
    | inl absent ↦ rw absent (record {
      extends = h.extends;
      covers = λ f ge less known here. elim (Bool-cases (f == n)) [
        | inl now ↦ absurd (ground (arith, h.extends.levels n, ok.nodes n lt))
        | inr earlier ↦ h.covers f ge (ground arith) known here
      ];
    })
    | inr present ↦
        let first = s.level n in
        let at_n : (first ≡ n) × (before.row n ≢ 0) =
          ground (arith, h.extends.levels n, ready.levels n) in
        let known : before.row first ≢ 0 = ground (arith, at_n) in
        let done = all_links before first s known h.extends in
        rw present (record {
          extends = done.extends;
          covers = λ f ge less known' here. elim (Bool-cases (f == n)) [
            | inl now ↦ λ i t link other.
                let e : f ≡ first = ground (arith, at_n) in
                done.covers i t link.interface (rw (← e) link) other
            | inr earlier ↦ λ i t link other.
                done.keeps t (h.covers f ge (ground arith) known' here i t link other)
          ];
        })
  ]

  -- After the round: what it found, and that every entry that was there is as it was.
  pub record Round (before s : Table) : Type 0 where
    pub ready : Ready s
    pub kept : (t : ℕ) → before.row t ≢ 0 → s.row t ≡ before.row t
    pub found : (t : ℕ) → s.row t ≢ 0 → (before.row t ≢ 0) ⊎ Copied before s t
    pub covers : (f : ℕ) → before.row f ≢ 0 → Covers f s

  all_nodes :
      (before : Table)
      → Ready before
      → IsTopology net
      → NodesDone before net.last_node
          (for_from (net.last_node - net.master_id) net.master_id (expand net actual) before)
  all_nodes before ready ok =
      for_from_inv (NodesDone before) (expand net actual) net.last_node
        (expand-NodesDone before ready ok) (net.last_node - net.master_id) net.master_id before
        (omega (arith, ok.ordered))
        (record {
          extends = record {
            kept = λ t e. refl;
            levels = λ t. refl;
            found = λ t e. inl e;
            nexts = λ t. inl refl;
          };
          covers = λ f ge lt. absurd (omega arith);
        })

  pub pass-Round :
      (before : Table) → Ready before → IsTopology net → Round before (pass net actual before)
  unfolding pass
  pass-Round before ready ok =
      let s = for_from (net.last_node - net.master_id) net.master_id (expand net actual) before in
      let done = all_nodes before ready ok in
      let h = done.extends in
      let covered : (f : ℕ) → before.row f ≢ 0 → Covers f s = λ f known.
        elim (ready.closed f known) [
          | inl here ↦ done.covers f (ready.nodes f known).0 (ready.nodes f known).1 known here
          | inr before_covers ↦ λ i t link other.
              ground (arith, h.kept t (before_covers i t link other), before_covers i t link other)
        ] in
      let next_level : (t : ℕ) → (s.next t ≡ net.null_node) ⊎ ((s.next t ≡ t) × (s.row t ≢ 0)) =
        λ t. ground (arith, h.nexts t, ready.nexts t, h.kept t) in
      record {
        ready = record {
          levels = next_level;
          nexts = next_level;
          closed = λ f known. elim (h.found f known) [
            | inl old ↦ inr (covered f old)
            | inr g ↦ inl g.marked
          ];
          nodes = λ t known. elim (h.found t known) [
            | inl old ↦ ready.nodes t old
            | inr g ↦ ok.inside g.from g.through t (ready.nodes g.from g.known).1 g.link
          ];
        };
        kept = h.kept;
        found = λ t known. elim (h.found t known) [
          | inl old ↦ inl old
          | inr g ↦ inr (record {
            from = g.from;
            through = g.through;
            known = g.known;
            link = g.link;
            entry = g.entry;
          })
        ];
        covers = covered;
      }
