-- ===== src/Init/Session/Many.antt =====
-- Allocations in a row: which session numbers are handed out, and that they run out.
use axiom_evi_apps.Prelude.{
  ℕ, zero, suc, ◌+◌, ◌^◌, ◌≤◌, ◌<◌, ◌≡◌, ◌≢◌, arith, List, [], ◌∷◌, All, All-map, Distinct, ap,
}
use axiom_evi_apps.Bits.{test_bit}
use axiom_evi_apps.Bits.Words.{popcount, popcount_one_more, popcount-zero}
use axiom_evi_apps.Init.Session.{next}
use axiom_evi_apps.Init.Session.Laws.{next-Allocates}

-- The numbers that n allocations in a row hand out.
unfoldable pub hand_outs : ℕ → ℕ → ℕ → List ℕ
hand_outs empty zero sessions = []
hand_outs empty (suc n) sessions =
    let (ses, rest) = next empty sessions in ses ∷ hand_outs empty n rest

pub popcount-next :
    (empty sessions : ℕ)
    → sessions ≢ 0
    → sessions < 2 ^ 32
    → popcount 32 sessions ≡ popcount 32 (next empty sessions).1 + 1
popcount-next empty sessions ne lt =
    let a = next-Allocates empty sessions ne lt in
    popcount_one_more 32 (next empty sessions).1 sessions (next empty sessions).0 a.in_range
      a.now_used a.was_free a.others

abbrev pub IsFree : ℕ → ℕ → Type 0
IsFree sessions ses = (ses < 32) × (test_bit sessions ses ≡ 1)

-- As many allocations as there are free sessions hand out free sessions, each once.
pub hand_outs-Distinct :
    (empty n sessions : ℕ)
    → sessions < 2 ^ 32
    → n ≤ popcount 32 sessions
    → All (IsFree sessions) (hand_outs empty n sessions) × Distinct (hand_outs empty n sessions)
unfolding hand_outs
hand_outs-Distinct empty zero sessions lt le = (tt, tt)
hand_outs-Distinct empty (suc n) sessions lt le =
    let ne : sessions ≢ 0 = λ e. omega (arith, ap (λ (t : ℕ). popcount 32 t) e, popcount-zero 32) in
    let a = next-Allocates empty sessions ne lt in
    let rest = (next empty sessions).1 in
    let later =
      hand_outs-Distinct empty n rest a.fits (omega (arith, popcount-next empty sessions ne lt)) in
    let fresh : (s : ℕ) → IsFree rest s → s ≢ (next empty sessions).0 =
      λ s h e. omega (arith, h, a.now_used, ap (λ (t : ℕ). test_bit rest t) e) in
    (
      (
        (a.in_range, a.was_free),
        All-map (hand_outs empty n rest)
            (λ s h. (h.0, omega (arith, a.others s h.0 (fresh s h), h.1))) later.0,
      ),
      (All-map (hand_outs empty n rest) fresh later.0, later.1),
    )
