-- ===== src/Run/Library/Tests.antt =====
-- Calls of the library.
use axiom_evi_apps.Prelude.{
  ℕ, ◌+◌, ◌*◌, ◌-◌, ◌^◌, ◌≡◌, refl, ◌↔◌, arith, true, false, some, ◌==◌, if◌then◌else◌,
}
use axiom_evi_apps.Run.Messages.{Header}
use axiom_evi_apps.Run.Library.{Calls, exchange, axrun_sync, axrun_rpc, answer_size}
use axiom_evi_apps.Run.Library.Names.{HasAnswer, axrun_sync_lem}

abbrev template : ℕ → ℕ → ℕ
template ppid barrier_id = 16 * ppid + barrier_id

abbrev calls : Calls
calls = record { usock = some 9; socket = true; bound = true; sent = true }

abbrev zeros : Header
zeros = record { command = 0; status = 0; barrier_id = 0; function = 0 }

-- The answer is the message that was sent, which one byte leaves as it is.
axrun_sync_lem_example :
    let r = axrun_sync template calls zeros (some (λ h. h)) (λ n. n == 7) 3 in
    (r.opened ≡ r.closed)
    × ((n : ℕ) → r.names n ≡ (if n == template 9 3 then false else n == 7))
    × ((r.ok ≡ true) ↔ (
        ((template 9 3 == 7) ≡ false)
        × (true ≡ true)
        × (true ≡ true)
        × HasAnswer 3 zeros (some (λ h. h))))
axrun_sync_lem_example =
    axrun_sync_lem template calls zeros (some (λ h. h)) (λ n. n == 7) 3 9 (omega arith) refl refl

-- Two threads at one barrier: the second takes the name of the first away.
name_taken :
    let r = axrun_sync template calls zeros (some (λ h. h)) (λ n. n == template 9 3) 3 in
    (r.ok ≡ false) × (r.names (template 9 3) ≡ false)
unfolding axrun_sync exchange
name_taken = (refl, refl)

-- An answer that is shorter than a header.
short_answer : (axrun_rpc 20 template calls 8 (some 4) (λ n. false) 3).1 ≡ some (2 ^ 64 - 16)
unfolding axrun_rpc exchange answer_size
short_answer = refl
