-- ===== src/Run/Exit/Zeros.antt =====
-- Exit messages with status 0, which the slaves send that the master has killed.
use axiom_evi_apps.Prelude.{ℕ, ◌≡◌, refl, ◌≢◌, arith, true, List, [], ◌∷◌, map, All, ◌∙◌, ap}
use axiom_evi_apps.Run.Exit.{
  WaitStatus, ExitMode, greather, lesser, last, first, nofail, first_abs, other, exit_mode, Status,
  has_exit_service, on_exits,
}
use axiom_evi_apps.Run.Exit.Laws.{code_step, expected_code, on_exits-expected}

step_zero : (mode : ExitMode) (c : ℕ) → mode ≢ lesser → mode ≢ last → code_step mode c 0 ≡ c
unfolding code_step
step_zero greather c low back = omega arith
step_zero lesser c low back = absurd (low refl)
step_zero last c low back = absurd (back refl)
step_zero first c low back = refl
step_zero first_abs c low back = refl
step_zero other c low back = refl
step_zero nofail c low back = refl

zeros_stay :
    (w : WaitStatus) (mode : ExitMode) (c : ℕ) (rs : List ℕ)
    → mode ≢ lesser
    → mode ≢ last
    → All (λ r. r ≡ 0) rs
    → expected_code mode c (map w.exit_code rs) ≡ c
unfolding expected_code
zeros_stay w mode c [] low back all = refl
zeros_stay w mode c (r ∷ rs) low back all =
    rw (all.0, w.zero_code, step_zero mode c low back) (zeros_stay w mode c rs low back all.1)

All-exited : (w : WaitStatus) (rs : List ℕ) → All (λ r. r ≡ 0) rs → All (λ r. w.exited r ≡ true) rs
All-exited w [] all = tt
All-exited w (r ∷ rs) all = (ap w.exited all.0 ∙ w.zero_exited, All-exited w rs all.1)

-- With the exit service on, zeros behind the first exit leave its code as the master's, but in the
-- modes of the least and of the last code.
pub on_exits-zeros :
    (w : WaitStatus) (flags r : ℕ) (rs : List ℕ) (s : Status)
    → exit_mode flags ≢ nofail
    → exit_mode flags ≢ lesser
    → exit_mode flags ≢ last
    → has_exit_service s.services ≡ true
    → w.exited r ≡ true
    → All (λ r. r ≡ 0) rs
    → w.exit_code (on_exits w flags (r ∷ rs) s).exit_status ≡ w.exit_code r
on_exits-zeros w flags r rs s fails low back on ex zeros =
    on_exits-expected w flags r rs s fails on (ex, All-exited w rs zeros)
    ∙ zeros_stay w (exit_mode flags) (w.exit_code r) rs low back zeros
