-- ===== src/Run/Exit/Tests.antt =====
-- Runs of the exit statuses.
use axiom_evi_apps.Prelude.{ℕ, ◌/◌, ◌%◌, ◌≡◌, refl, arith, bit_and, [], ◌∷◌, ◌++◌, map, some, ◌==◌}
use axiom_evi_apps.Run.Exit.{WaitStatus, exit_mode, merge, merge_exited, Status, on_exit, on_exits}
use axiom_evi_apps.Run.Exit.Laws.{expected_code, on_exits-expected, on_exits-first_signal}
use axiom_evi_apps.Run.Exit.Modes.{set_exit_mode, mode_of, exit_mode-set_exit_mode}

-- The statuses of Linux: the signal in the low 7 bits, the code in the byte above.
abbrev pub linux : WaitStatus
linux = record {
  exited = λ s. s % 128 == 0;
  exit_code = λ s. s / 256 % 256;
  zero_exited = refl;
  zero_code = refl;
}

abbrev started : Status
started = record { services = 0x0f; exit_status = 0 }

abbrev running : Status
running = record { services = 0x0d; exit_status = 0 }

greatest_code : (on_exits linux 0x00 (256 ∷ 768 ∷ 512 ∷ []) started).exit_status ≡ 768
unfolding on_exits on_exit exit_mode merge merge_exited
greatest_code = refl

on_exits-expected_example :
    linux.exit_code (on_exits linux 0x04 (512 ∷ 256 ∷ 768 ∷ []) started).exit_status
    ≡ expected_code (exit_mode 0x04) (linux.exit_code 512) (map linux.exit_code (256 ∷ 768 ∷ []))
on_exits-expected_example =
    on_exits-expected linux 0x04 512 (256 ∷ 768 ∷ []) started (unfold exit_mode in ground arith)
      refl (refl, (refl, (refl, tt)))

on_exits-first_signal_example :
    (on_exits linux 0x00 ((256 ∷ []) ++ 9 ∷ 512 ∷ 11 ∷ []) running).exit_status ≡ 9
on_exits-first_signal_example =
    on_exits-first_signal linux 0x00 9 (256 ∷ []) (512 ∷ 11 ∷ []) running
      (unfold exit_mode in ground arith) (unfold exit_mode in ground arith) refl refl (refl, tt)
      refl

exit_mode-set_exit_mode_example :
    (f : ℕ) × (set_exit_mode 3 0x15 ≡ some f)
    × (exit_mode f ≡ mode_of 3)
    × (bit_and f 3 ≡ bit_and 0x15 3)
exit_mode-set_exit_mode_example = exit_mode-set_exit_mode 3 0x15 (omega arith) (omega arith)
