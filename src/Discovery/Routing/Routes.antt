-- ===== src/Discovery/Routing/Routes.antt =====
-- The rows after a number of rounds: what they hold, in terms of the walks of the topology.
use axiom_evi_apps.Prelude.{
  ℕ, zero, suc, ◌≤◌, ◌<◌, ◌≡◌, refl, ◌≢◌, sym, ◌∙◌, ap, arith, ◌==◌, leb, Bool-cases, inl, inr, ◌↔◌,
}
use axiom_evi_apps.Bits.{test_bit, ne-zero_of_test_bit}
use axiom_evi_apps.Discovery.Routing.{Net, after}
use axiom_evi_apps.Discovery.Routing.Links.{IsLink, IsTopology, Walk}
use axiom_evi_apps.Discovery.Routing.Neighbours.{Neighbours, first-Neighbours}
use axiom_evi_apps.Discovery.Routing.Levels.{Ready, Round, pass-Round}

prepend : (net : Net) (n x m t j : ℕ) → IsLink net n x m → Walk net m t j → Walk net n t (suc j)
prepend net n x m t zero link Walk.here = Walk.hop x Walk.here link
prepend net n x m t (suc j) link (Walk.hop i w last) =
    Walk.hop i (prepend net n x m _ j link w) last

no_links : (net : Net) (n t j : ℕ) → j ≡ 0 → Walk net n t j → t ≡ n
no_links net n t j e Walk.here = refl
no_links net n t j e (Walk.hop i w last) = absurd (omega arith)

module _ (net : Net) (actual : ℕ) (ok : IsTopology net) (node : actual < net.last_node) where
  abbrev row_after : ℕ → ℕ → ℕ
  row_after k t = (after net actual k).row t

  first : Neighbours net actual net.interfaces (after net actual 0)
  unfolding after
  first = first-Neighbours net actual ok

  pub after-Ready : (k : ℕ) → Ready net actual (after net actual k)
  unfolding after
  after-Ready zero = record {
    levels = first.levels;
    nexts = λ t. inl (first.no_next t);
    closed = λ f known. inl (first.here f known);
    nodes = λ t known.
        let bit = first.some_bit t known in
        ok.inside actual bit.0 t node (first.linked t bit.0 bit.1);
  }
  after-Ready (suc k) = (pass-Round net actual (after net actual k) (after-Ready k) ok).ready

  round : (k : ℕ) → Round net actual (after net actual k) (after net actual (suc k))
  unfolding after
  round k = pass-Round net actual (after net actual k) (after-Ready k) ok

  pub row_after-kept : (k m t : ℕ) → k ≤ m → row_after k t ≢ 0 → row_after m t ≡ row_after k t
  row_after-kept zero zero t le known = refl
  row_after-kept (suc k) zero t le known = absurd (omega arith)
  row_after-kept k (suc m) t le known = elim (Bool-cases (k == suc m)) [
    | inl now ↦ let same : suc m ≡ k = ground arith in ap (λ (i : ℕ). row_after i t) same
    | inr earlier ↦
        let below = row_after-kept k m t (ground arith) known in
        (round m).kept t (λ e. known (sym below ∙ e)) ∙ below
  ]

  -- Each interface in an entry starts a walk to the node.
  row_after_sound :
      (k t x : ℕ)
      → test_bit (row_after k t) x ≡ 1
      → (m : ℕ) × (j : ℕ) × (j ≤ k) × IsLink net actual x m × Walk net m t j
  row_after_sound zero t x bit = (t, 0, omega arith, first.linked t x bit, Walk.here)
  row_after_sound (suc k) t x bit =
      elim ((round k).found t (ne-zero_of_test_bit (row_after (suc k) t) x bit)) [
        | inl old ↦
            let (m, j, le, link, walk) =
              row_after_sound k t x
                (ap (λ (r : ℕ). test_bit r x) (sym ((round k).kept t old)) ∙ bit) in
            (m, j, omega arith, link, walk)
        | inr g ↦
            let (m, j, le, link, walk) =
              row_after_sound k g.from x (ap (λ (r : ℕ). test_bit r x) (sym g.entry) ∙ bit) in
            (m, suc j, omega arith, link, Walk.hop g.through walk g.link)
      ]

  row_after-some_bit : (k t : ℕ) → row_after k t ≢ 0 → (x : ℕ) × (test_bit (row_after k t) x ≡ 1)
  row_after-some_bit zero t known = first.some_bit t known
  row_after-some_bit (suc k) t known = elim ((round k).found t known) [
    | inl old ↦
        let b = row_after-some_bit k t old in
        (b.0, ap (λ (r : ℕ). test_bit r b.0) ((round k).kept t old) ∙ b.1)
    | inr g ↦
        let b = row_after-some_bit k g.from g.known in
        (b.0, ap (λ (r : ℕ). test_bit r b.0) g.entry ∙ b.1)
  ]

  neighbour-known : (i t : ℕ) → IsLink net actual i t → row_after 0 t ≢ 0
  neighbour-known i t link =
      ne-zero_of_test_bit (row_after 0 t) i (first.complete t i link.interface link)

  pub row_after_complete : (j t : ℕ) → t ≢ actual → Walk net actual t (suc j) → row_after j t ≢ 0
  row_after_complete zero t other (Walk.hop {m = f} i w link) =
      let start : f ≡ actual = no_links net actual f 0 refl w in
      neighbour-known i t (rw start at link)
  row_after_complete (suc j) t other (Walk.hop {m = f} i w link) = elim (Bool-cases (f == actual)) [
    | inl start ↦
        let e : f ≡ actual = ground arith in
        let known = neighbour-known i t (rw e at link) in
        λ z. known (sym (row_after-kept 0 (suc j) t (omega arith) known) ∙ z)
    | inr further ↦ (round j).covers f (row_after_complete j f (ground arith) w) i t link other
  ]

  -- For a node t other than the node of the row, after k rounds: t has an entry exactly if a walk of
  -- at most k + 1 links leads to it, and through every interface of its entry there is a walk to t
  -- that is no longer than any.
  pub after-routes :
      (k t : ℕ)
      → t ≢ actual
      → (((after net actual k).row t ≢ 0) ↔ ((j : ℕ) × (j ≤ k) × Walk net actual t (suc j)))
        × ((x n : ℕ)
            → test_bit ((after net actual k).row t) x ≡ 1
            → Walk net actual t n
            → (m : ℕ) × (j : ℕ) × (suc j ≤ n) × IsLink net actual x m × Walk net m t j)
  after-routes k t other = (
    (
      λ known.
          let b = row_after-some_bit k t known in
          let (m, j, le, link, walk) = row_after_sound k t b.0 b.1 in
          (j, le, prepend net actual b.0 m t j link walk),
      λ h.
          let known = row_after_complete h.0 t other h.2 in
          λ z. known (sym (row_after-kept h.0 k t h.1 known) ∙ z),
    ),
    shortest,
  )
    where
      shortest :
          (x n : ℕ)
          → test_bit (row_after k t) x ≡ 1
          → Walk net actual t n
          → (m : ℕ) × (j : ℕ) × (suc j ≤ n) × IsLink net actual x m × Walk net m t j
      shortest x zero bit walk = absurd (other (no_links net actual t 0 refl walk))
      shortest x (suc n) bit walk = elim (Bool-cases (leb n k)) [
        | inl reached ↦
            let known = row_after_complete n t other walk in
            let same = row_after-kept n k t (ground arith) known in
            let (m, j, le, link, rest) =
              row_after_sound n t x (ap (λ (r : ℕ). test_bit r x) (sym same) ∙ bit) in
            (m, j, omega arith, link, rest)
        | inr far ↦
            let (m, j, le, link, rest) = row_after_sound k t x bit in
            (m, j, ground arith, link, rest)
      ]
