-- ===== src/Run/Exit/Laws.antt =====
-- What the master returns after all the slaves have ended.
use axiom_evi_apps.Prelude.{
  ℕ, ◌-◌, min, max, bit_and, ◌≡◌, refl, ◌≢◌, arith, true, false, List, [], ◌∷◌, ◌++◌, map, ◌∙◌,
  Bool-cases, inl, inr, All, if◌then◌else◌, ◌^◌, ap, ◌∙◌, Bool-cases, inl, inr,
}
use axiom_evi_apps.Run.Exit.{
  WaitStatus, ExitMode, greather, lesser, last, first, nofail, first_abs, other, exit_mode, merge,
  Status, has_exit_service, on_exit, on_exits, exit_service, kills, is_nofail,
}
use axiom_evi_apps.Bits.{bit_and-pow}
use axiom_evi_apps.Bits.Words.{clear_bit, test_bit-clear_bit}

-- What each mode promises of the exit codes: how the code so far and the next one make one.
unfoldable pub code_step : ExitMode → ℕ → ℕ → ℕ
code_step greather c d = max c d
code_step lesser c d = min c d
code_step last c d = d
code_step first c d = c
code_step first_abs c d = c
code_step other c d = c
code_step nofail c d = c

unfoldable pub expected_code : ExitMode → ℕ → List ℕ → ℕ
unfolding code_step
expected_code mode c [] = c
expected_code mode c (d ∷ ds) = expected_code mode (code_step mode c d) ds

pub merge-exited :
    (w : WaitStatus) (mode : ExitMode) (prev recv : ℕ)
    → w.exited prev ≡ true
    → w.exited recv ≡ true
    → w.exited (merge w mode prev recv) ≡ true
unfolding merge
merge-exited w mode prev recv hp hr = ground arith

exit_code-merge :
    (w : WaitStatus) (mode : ExitMode) (prev recv : ℕ)
    → w.exited prev ≡ true
    → w.exited recv ≡ true
    → w.exit_code (merge w mode prev recv) ≡ code_step mode (w.exit_code prev) (w.exit_code recv)
unfolding merge code_step
exit_code-merge w greather prev recv hp hr = rw (hr, hp) (ground arith)
exit_code-merge w lesser prev recv hp hr = rw (hr, hp) (ground arith)
exit_code-merge w _ prev recv hp hr = rw (hr, hp)

clear-exit_service :
    (services : ℕ) → has_exit_service (bit_and services (2 ^ 32 - 1 - exit_service)) ≡ false
clear-exit_service services = ground (
  arith,
  bit_and-pow (clear_bit 32 services 1) 1,
  test_bit-clear_bit 32 services 1 1 (omega arith) (omega arith),
)

not_nofail : (mode : ExitMode) → mode ≢ nofail → is_nofail mode ≡ false
not_nofail mode ne = ground arith

merge-signaled :
    (w : WaitStatus) (mode : ExitMode) (prev recv : ℕ)
    → mode ≢ first_abs
    → w.exited prev ≡ true
    → w.exited recv ≡ false
    → merge w mode prev recv ≡ recv
unfolding merge
merge-signaled w mode prev recv ne hp hr = ground arith

on_exit_off :
    (w : WaitStatus) (flags r : ℕ) (s : Status)
    → exit_mode flags ≢ nofail
    → has_exit_service s.services ≡ false
    → on_exit w flags r s
      ≡ (record s { exit_status = merge w (exit_mode flags) s.exit_status r }, false)
unfolding on_exit
on_exit_off w flags r s mode off = rw (off, not_nofail (exit_mode flags) mode)

-- What the exit service does with the first message.
abbrev switched_off : ℕ → Status → Status
switched_off r s = record {
  services = bit_and s.services (2 ^ 32 - 1 - exit_service);
  exit_status = r;
}

on_exit_on :
    (w : WaitStatus) (flags r : ℕ) (s : Status)
    → exit_mode flags ≢ nofail
    → has_exit_service s.services ≡ true
    → on_exit w flags r s ≡ (switched_off r s, true)
unfolding on_exit
on_exit_on w flags r s mode on = rw (on, not_nofail (exit_mode flags) mode)

-- Without the exit service, from a status that exited.
exits_expected :
    (w : WaitStatus) (flags : ℕ) (rs : List ℕ) (s : Status)
    → exit_mode flags ≢ nofail
    → has_exit_service s.services ≡ false
    → w.exited s.exit_status ≡ true
    → All (λ r. w.exited r ≡ true) rs
    → w.exit_code (on_exits w flags rs s).exit_status
      ≡ expected_code (exit_mode flags) (w.exit_code s.exit_status) (map w.exit_code rs)
unfolding on_exits expected_code
exits_expected w flags [] s mode off ex all = refl
exits_expected w flags (r ∷ rs) s mode off ex all =
    rw (on_exit_off w flags r s mode off, on_exits)
      (exits_expected w flags rs
          (record s { exit_status = merge w (exit_mode flags) s.exit_status r }) mode off
          (merge-exited w (exit_mode flags) s.exit_status r ex all.0) all.1
        ∙ ap (λ (c : ℕ). expected_code (exit_mode flags) c (map w.exit_code rs))
            (exit_code-merge w (exit_mode flags) s.exit_status r ex all.0))

-- With the exit service on and every slave exiting, the master's exit code is what the exit mode
-- promises of all the codes in the order of the messages: the greatest, the least, the first or
-- the last of them.
pub on_exits-expected :
    (w : WaitStatus) (flags r : ℕ) (rs : List ℕ) (s : Status)
    → exit_mode flags ≢ nofail
    → has_exit_service s.services ≡ true
    → All (λ r. w.exited r ≡ true) (r ∷ rs)
    → w.exit_code (on_exits w flags (r ∷ rs) s).exit_status
      ≡ expected_code (exit_mode flags) (w.exit_code r) (map w.exit_code rs)
unfolding on_exits
on_exits-expected w flags r rs s mode off all =
    rw (on_exit_on w flags r s mode off, on_exits)
      (exits_expected w flags rs (switched_off r s) mode (clear-exit_service s.services) all.0
        all.1)

-- Once the exit status is that of a signal, no later message changes it (but in no-fail mode).
signaled_stays :
    (w : WaitStatus) (flags : ℕ) (rs : List ℕ) (s : Status)
    → exit_mode flags ≢ nofail
    → has_exit_service s.services ≡ false
    → w.exited s.exit_status ≡ false
    → (on_exits w flags rs s).exit_status ≡ s.exit_status
unfolding on_exits merge
signaled_stays w flags [] s mode off dead = refl
signaled_stays w flags (r ∷ rs) s mode off dead =
    let kept : merge w (exit_mode flags) s.exit_status r ≡ s.exit_status = ground arith in
    rw (on_exit_off w flags r s mode off, kept, on_exits)
      (signaled_stays w flags rs s mode off dead)

-- With the exit service off, in a mode that is neither no-fail nor first with signals, and from a status
-- that is an exit: the first slave that died of a signal decides, when all before it have exited,
-- and whatever comes after it.
pub on_exits-first_signal :
    (w : WaitStatus) (flags dead : ℕ) (before after : List ℕ) (s : Status)
    → exit_mode flags ≢ nofail
    → exit_mode flags ≢ first_abs
    → has_exit_service s.services ≡ false
    → w.exited s.exit_status ≡ true
    → All (λ r. w.exited r ≡ true) before
    → w.exited dead ≡ false
    → (on_exits w flags (before ++ dead ∷ after) s).exit_status ≡ dead
unfolding on_exits
on_exits-first_signal w flags dead [] after s mode abs off ex all gone =
    let taken = merge-signaled w (exit_mode flags) s.exit_status dead abs ex gone in
    rw (on_exit_off w flags dead s mode off, taken, on_exits)
      (signaled_stays w flags after (record s { exit_status = dead }) mode off gone)
on_exits-first_signal w flags dead (r ∷ before) after s mode abs off ex all gone =
    rw (on_exit_off w flags r s mode off, on_exits)
      (on_exits-first_signal w flags dead before after
        (record s { exit_status = merge w (exit_mode flags) s.exit_status r }) mode abs off
        (merge-exited w (exit_mode flags) s.exit_status r ex all.0) all.1 gone)

kills_none :
    (w : WaitStatus) (flags : ℕ) (rs : List ℕ) (s : Status)
    → has_exit_service s.services ≡ false
    → kills w flags rs s ≡ 0
unfolding kills on_exit
kills_none w flags [] s off = refl
kills_none w flags (r ∷ rs) s off = rw off (omega (arith, kills_none w flags rs _ off))

-- With the exit service the first exit message, and no other, makes the master kill all the slaves;
-- without it no exit message does.
pub kills_once :
    (w : WaitStatus) (flags r : ℕ) (rs : List ℕ) (s : Status)
    → kills w flags (r ∷ rs) s ≡ (if has_exit_service s.services then 1 else 0)
unfolding kills on_exit
kills_once w flags r rs s = elim (Bool-cases (has_exit_service s.services)) [
  | inl on ↦ rw on (omega (arith, kills_none w flags rs _ (clear-exit_service s.services)))
  | inr off ↦ rw off (omega (arith, kills_none w flags rs _ off))
]

-- In no-fail mode the master's exit status is 0 after any exit message, also of a signal.
pub on_exits-nofail :
    (w : WaitStatus) (flags r : ℕ) (rs : List ℕ) (s : Status)
    → exit_mode flags ≡ nofail
    → (on_exits w flags (r ∷ rs) s).exit_status ≡ 0
unfolding on_exits
on_exits-nofail w flags r [] s mode = unfold on_exit in rw mode
on_exits-nofail w flags r (r' ∷ rs) s mode =
    on_exits-nofail w flags r' rs (on_exit w flags r s).0 mode
