-- ===== src/Run/Exit.antt =====
-- axiom-run/master.c, the CMD_EXIT branch of `master_receiver`: how the exit statuses of the
-- slaves make the exit status of the master, under the exit mode in the flags (axiom-run.h).
-- A status is the bit pattern of the `int` that `waitpid` gives, and `WIFEXITED` and `WEXITSTATUS`
-- are of the C library: the record `WaitStatus` with the behaviour that POSIX documents for 0.
pub mod Modes
pub mod Laws
pub mod Zeros
pub mod Tests
use axiom_evi_apps.Prelude.{
  ℕ, zero, suc, ◌+◌, ◌-◌, ◌≡◌, bit_and, ◌^◌, Bool, true, false, List, [], ◌∷◌, ltb, ◌==◌, not, ◌&&◌,
  if◌then◌else◌,
}
use axiom_evi_apps.Bits.Words.{complement}

pub record WaitStatus : Type 0 where
  -- WIFEXITED
  pub exited : ℕ → Bool
  -- WEXITSTATUS
  pub exit_code : ℕ → ℕ
  pub zero_exited : exited 0 ≡ true
  pub zero_code : exit_code 0 ≡ 0

-- EXIT_FLAG_MASK, and the modes under it
pub data ExitMode : Type 0 where
  greather lesser last first nofail first_abs other : ExitMode

-- `flags & EXIT_FLAG_MASK` against the six *_EXIT_FLAG values
unfoldable pub exit_mode : ℕ → ExitMode
exit_mode flags =
    let m = bit_and flags 0x1c in
    if m == 0x00
    then greather
    else if m == 0x04
    then lesser
    else if m == 0x08
    then last
    else if m == 0x0c
    then first
    else if m == 0x10
    then nofail
    else if m == 0x14
    then first_abs
    else other

-- The status after a slave that exited, where every earlier one had exited.
pub merge_exited : WaitStatus → ExitMode → ℕ → ℕ → ℕ
merge_exited w greather prev recv = if ltb (w.exit_code prev) (w.exit_code recv) then recv else prev
merge_exited w lesser prev recv = if ltb (w.exit_code recv) (w.exit_code prev) then recv else prev
merge_exited w last prev recv = recv
merge_exited w first prev recv = prev
merge_exited w first_abs prev recv = prev
merge_exited w nofail prev recv = prev
merge_exited w other prev recv = prev

-- The status after a slave that died of a signal, where every earlier one had exited.
pub merge_signaled : ExitMode → ℕ → ℕ → ℕ
merge_signaled first_abs prev recv = prev
merge_signaled greather prev recv = recv
merge_signaled lesser prev recv = recv
merge_signaled last prev recv = recv
merge_signaled first prev recv = recv
merge_signaled nofail prev recv = recv
merge_signaled other prev recv = recv

-- The branch for a master without the exit service.
pub merge : WaitStatus → ExitMode → ℕ → ℕ → ℕ
unfolding merge_exited merge_signaled
merge w mode prev recv =
    if w.exited recv
    then (if w.exited prev then merge_exited w mode prev recv else prev)
    else if w.exited prev
    then merge_signaled mode prev recv
    else prev

-- EXIT_SERVICE, bit 1 of the services
abbrev pub exit_service : ℕ
exit_service = 0x02

pub record Status : Type 0 where
  pub services : ℕ
  pub exit_status : ℕ

abbrev pub has_exit_service : ℕ → Bool
has_exit_service services = not (bit_and services exit_service == 0)

abbrev is_nofail : ExitMode → Bool
is_nofail nofail = true
is_nofail _ = false

-- The whole branch but the counter: the new services and status, and whether CMD_KILL goes to all.
-- `services` is an `int`, here its 32 bits.
pub on_exit : WaitStatus → ℕ → ℕ → Status → Status × Bool
unfolding exit_mode merge
on_exit w flags recv s =
    let kill = has_exit_service s.services in
    let status = if kill then recv else merge w (exit_mode flags) s.exit_status recv in
    let status' = if is_nofail (exit_mode flags) then 0 else status in
    (
      record {
        services = if kill then bit_and s.services (complement 32 exit_service) else s.services;
        exit_status = status';
      },
      kill,
    )

-- How many CMD_KILL broadcasts a run of exit messages makes.
pub kills : WaitStatus → ℕ → List ℕ → Status → ℕ
kills w flags [] s = 0
kills w flags (recv ∷ rest) s =
    (if (on_exit w flags recv s).1 then 1 else 0) + kills w flags rest (on_exit w flags recv s).0

-- All the exit messages of a run.
pub on_exits : WaitStatus → ℕ → List ℕ → Status → Status
on_exits w flags [] s = s
on_exits w flags (recv ∷ rest) s = on_exits w flags rest (on_exit w flags recv s).0
