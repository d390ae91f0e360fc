-- ===== src/Run/Exit/Modes.antt =====
-- axiom-run/axiom-run.c, the options that choose exit modes: `-E MODE`, and the profiles of `-P`
-- as far as they touch the flags. `flags` holds the bits of axiom-run.h, all below 2 ^ 5.
use axiom_evi_apps.Prelude.{
  ℕ, zero, suc, ◌*◌, ◌^◌, ◌≤◌, ◌<◌, bit_and, bit_or, ◌≡◌, refl, arith, Bool, true, ◌&&◌, ltb, ◌==◌,
  if◌then◌else◌, Option, none, some, for_all_from, for_all_from-at,
}
use axiom_evi_apps.Bits.Words.{complement}
use axiom_evi_apps.Run.Exit.{ExitMode, greather, lesser, last, first, nofail, first_abs, exit_mode}

-- The case 'E', after `atoi`: a mode above 5 ends in the usage message. (A negative mode does too,
-- and is not a value here.)
unfoldable pub set_exit_mode : ℕ → ℕ → Option ℕ
set_exit_mode mode flags =
    if ltb 5 mode then none else some (bit_or (bit_and flags (complement 32 0x1c)) (mode * 2 ^ 2))

pub data Profile : Type 0 where
  gasnet ompss all : Profile

-- What a profile adds to the flags: IDENT_FLAG, and for gasnet FIRST_ABS_EXIT_FLAG.
unfoldable pub profile_flags : Profile → ℕ → ℕ
profile_flags gasnet flags = bit_or (bit_or flags 0x01) 0x14
profile_flags ompss flags = bit_or flags 0x01
profile_flags all flags = bit_or flags 0x01

-- The mode that each number selects.
abbrev pub mode_of : ℕ → ExitMode
mode_of zero = greather
mode_of (suc zero) = lesser
mode_of (suc (suc zero)) = last
mode_of (suc (suc (suc zero))) = first
mode_of (suc (suc (suc (suc zero)))) = nofail
mode_of (suc (suc (suc (suc (suc m))))) = first_abs

-- The mode that the help text announces for each number.
abbrev documented_mode : ℕ → ExitMode
documented_mode zero = greather
documented_mode (suc zero) = lesser
documented_mode (suc (suc zero)) = first
documented_mode (suc (suc (suc zero))) = last
documented_mode (suc (suc (suc (suc zero)))) = nofail
documented_mode (suc (suc (suc (suc (suc m))))) = first_abs

-- The new flags hold the mode in the bits of EXIT_FLAG_MASK and keep the two identification bits.
abbrev is_selected : ℕ → ℕ → ℕ → Bool
is_selected mode flags f = bit_and f 0x1c == mode * 4 && bit_and f 3 == bit_and flags 3

abbrev flags_after : ℕ → ℕ → ℕ
flags_after mode flags = bit_or (bit_and flags (complement 32 0x1c)) (mode * 2 ^ 2)

select_table :
    for_all_from
      (λ mode. for_all_from (λ flags. is_selected mode flags (flags_after mode flags)) 0 32)
      0
      6
    ≡ true
unfolding for_all_from
select_table = refl

selected :
    (mode flags : ℕ)
    → mode ≤ 5
    → flags < 32
    → is_selected mode flags (flags_after mode flags) ≡ true
selected mode flags le lt =
    let at_mode = λ (m : ℕ). for_all_from (λ f. is_selected m f (flags_after m f)) 0 32 in
    for_all_from-at (λ f. is_selected mode f (flags_after mode f)) 0 32 flags (omega arith)
      (omega arith) (for_all_from-at at_mode 0 6 mode (omega arith) (omega arith) select_table)

exit_mode-mode_of : (mode f : ℕ) → mode ≤ 5 → bit_and f 0x1c ≡ mode * 4 → exit_mode f ≡ mode_of mode
unfolding exit_mode
exit_mode-mode_of zero f le e = rw e
exit_mode-mode_of (suc zero) f le e = rw e
exit_mode-mode_of (suc (suc zero)) f le e = rw e
exit_mode-mode_of (suc (suc (suc zero))) f le e = rw e
exit_mode-mode_of (suc (suc (suc (suc zero)))) f le e = rw e
exit_mode-mode_of (suc (suc (suc (suc (suc zero))))) f le e = rw e
exit_mode-mode_of (suc (suc (suc (suc (suc (suc m)))))) f le e = absurd (omega arith)

-- `-E MODE` for a mode from 0 to 5, over flags with any earlier mode: the master's receiver reads back
-- greatest, least, last, first, no fail and first with signals, in this order, and the two
-- identification bits are as before. For 2 and 3 this contradicts the help text, which calls 2 the
-- first mode and 3 the last.
pub exit_mode-set_exit_mode :
    (mode flags : ℕ)
    → mode ≤ 5
    → flags < 32
    → (f : ℕ) × (set_exit_mode mode flags ≡ some f)
      × (exit_mode f ≡ mode_of mode)
      × (bit_and f 3 ≡ bit_and flags 3)
unfolding set_exit_mode
exit_mode-set_exit_mode mode flags le lt = (
  flags_after mode flags,
  ground arith,
  exit_mode-mode_of mode (flags_after mode flags) le (ground (arith, selected mode flags le lt)),
  ground (arith, selected mode flags le lt),
)
