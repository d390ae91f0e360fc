-- ===== src/Tools/Netperf/Rdma/Filled.antt =====
-- The zone that the client fills.
use axiom_evi_apps.Prelude.{
  ℕ, zero, suc, ◌+◌, ◌-◌, ◌%◌, ◌≤◌, ◌<◌, ◌≡◌, refl, arith, ap, ◌∙◌, true, false, ltb, leb,
  Bool-cases, inl, inr,
}
use axiom_evi_apps.Tools.Netperf.Rdma.{fill}

fill_before :
    (fuel i : ℕ) (magic : ℕ → ℕ) (total : ℕ) (zone : ℕ → ℕ) (a : ℕ)
    → a < i
    → fill fuel i magic total zone a ≡ zone a
unfolding fill
fill_before zero i magic total zone a lt = refl
fill_before (suc fuel) i magic total zone a lt = elim (Bool-cases (ltb i total)) [
  | inl more ↦
      let above : leb i a ≡ false = ground arith in
      rw more (fill_before fuel (i + 8) magic total _ a (omega arith) ∙ (rw above refl))
  | inr over ↦ rw over refl
]

-- Each word that starts below the total holds the magic number.
pub fill_lem :
    (fuel i : ℕ) (magic : ℕ → ℕ) (total : ℕ) (zone : ℕ → ℕ) (a : ℕ)
    → i % 8 ≡ 0
    → total ≤ i + fuel
    → i ≤ a
    → a - a % 8 < total
    → fill fuel i magic total zone a ≡ magic (a % 8)
unfolding fill
fill_lem zero i magic total zone a word enough le below = absurd (omega arith)
fill_lem (suc fuel) i magic total zone a word enough le below =
    let more : ltb i total ≡ true = ground arith in
    rw more (elim (Bool-cases (ltb a (i + 8))) [
      | inl here ↦
          let at : leb i a ≡ true = ground arith in
          let byte : a - i ≡ a % 8 = ground arith in
          fill_before fuel (i + 8) magic total _ a (ground arith) ∙ (rw (at, here) (ap magic byte))
      | inr later ↦
          fill_lem fuel (i + 8) magic total _ a (omega arith) (omega arith) (ground arith) below
    ])
