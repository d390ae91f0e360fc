-- ===== src/Run/Library/Names.antt =====
-- What a call leaves behind.
use axiom_evi_apps.Prelude.{
  ℕ, ◌≤◌, ◌≡◌, refl, sym, ap, ◌∙◌, ◌↔◌, arith, Bool, true, false, Option, none, some, ltb, ◌==◌,
  ◌&&◌, not, if◌then◌else◌, Bool-cases, inl, inr,
}
use mathlib.Core.Bool.{false≢true}
use axiom_evi_apps.Run.Messages.{Header}
use axiom_evi_apps.Run.Library.{
  Calls, CallEnd, released, axrun_max_barrier_id, exchange, barrier_answered, axrun_sync,
}

exchange_lem :
    (calls : Calls) (name_of : ℕ → ℕ) (names : ℕ → Bool) (received : Bool) (ppid : ℕ)
    → calls.usock ≡ some ppid
    → calls.socket ≡ true
    → exchange calls name_of names received
      ≡ released
          (not (names (name_of ppid)) && (calls.bound && (calls.sent && received)))
          names
          (name_of ppid)
unfolding exchange
exchange_lem calls name_of names received ppid usock made =
    elim (Bool-cases (names (name_of ppid))) [
      | inl taken ↦ rw (exchange, usock, made, taken) refl
      | inr free ↦ elim (Bool-cases calls.bound) [
        | inr unbound ↦ rw (exchange, usock, made, free, unbound) refl
        | inl bound ↦ elim (Bool-cases calls.sent) [
          | inl sent ↦ rw (exchange, usock, made, free, bound, sent) refl
          | inr lost ↦ rw (exchange, usock, made, free, bound, lost) refl
        ]
      ]
    ]

-- A received answer, where the header then holds CMD_BARRIER and the barrier's own number.
abbrev pub HasAnswer : ℕ → Header → Option (Header → Header) → Type 0
HasAnswer barrier_id rest answer =
    (overwrite : Header → Header) × (answer ≡ some overwrite)
    × ((overwrite (record rest { command = 0x85; barrier_id = barrier_id })).barrier_id
        ≡ barrier_id)
    × ((overwrite (record rest { command = 0x85; barrier_id = barrier_id })).command ≡ 0x85)

barrier_answered-HasAnswer :
    (barrier_id : ℕ) (rest : Header) (answer : Option (Header → Header))
    → barrier_answered barrier_id rest answer ≡ true
    → HasAnswer barrier_id rest answer
barrier_answered-HasAnswer barrier_id rest none e = absurd (false≢true e)
barrier_answered-HasAnswer barrier_id rest (some overwrite) e =
    (overwrite, refl, ground (arith, e), ground (arith, e))

barrier_answered_iff :
    (barrier_id : ℕ) (rest : Header) (answer : Option (Header → Header))
    → (barrier_answered barrier_id rest answer ≡ true) ↔ HasAnswer barrier_id rest answer
barrier_answered_iff barrier_id rest answer = (
  barrier_answered-HasAnswer barrier_id rest answer,
  λ (overwrite, is, same, command).
      ap (barrier_answered barrier_id rest) is ∙ ground (arith, same, command),
)

all_four_iff :
    (taken bound sent answered : Bool)
    → ((not taken && (bound && (sent && answered))) ≡ true)
      ↔ ((taken ≡ false) × (bound ≡ true) × (sent ≡ true) × (answered ≡ true))
all_four_iff taken bound sent answered = ground arith

-- A call of axrun_sync that gets as far as its socket closes it, and afterwards the name of its
-- barrier does not exist, while every other name is as before: a call that finds the name taken, by
-- another thread that waits at the same barrier, takes it away. The call succeeds exactly if the name
-- was free and could be bound, the message was sent whole, recv did not fail, and the header that is
-- then in the buffer, of which a short answer leaves the end as it was sent, is a barrier message
-- with the number of the barrier.
pub axrun_sync_lem :
    (template : ℕ → ℕ → ℕ) (calls : Calls) (rest : Header) (answer : Option (Header → Header))
    (names : ℕ → Bool) (barrier_id ppid : ℕ)
    → barrier_id ≤ axrun_max_barrier_id
    → calls.usock ≡ some ppid
    → calls.socket ≡ true
    → let r = axrun_sync template calls rest answer names barrier_id in
      (r.opened ≡ r.closed)
      × ((n : ℕ) → r.names n ≡ (if n == template ppid barrier_id then false else names n))
      × ((r.ok ≡ true) ↔ (
          (names (template ppid barrier_id) ≡ false)
          × (calls.bound ≡ true)
          × (calls.sent ≡ true)
          × HasAnswer barrier_id rest answer))
unfolding axrun_sync
axrun_sync_lem template calls rest answer names barrier_id ppid small usock made =
    let in_range : ltb axrun_max_barrier_id barrier_id ≡ false = ground arith in
    let runs =
      exchange_lem calls (λ p. template p barrier_id) names
        (barrier_answered barrier_id rest answer) ppid usock made in
    let taken = names (template ppid barrier_id) in
    let answered = barrier_answered barrier_id rest answer in
    let heard = barrier_answered_iff barrier_id rest answer in
    let ok = ap (λ (r : CallEnd). r.ok) runs in
    rw (axrun_sync, in_range)
      (
        ap (λ (r : CallEnd). r.opened) runs ∙ ap (λ (r : CallEnd). r.closed) (sym runs),
        λ n. ap (λ (r : CallEnd). r.names n) runs,
        (
          λ e.
              let four = all_four_iff taken calls.bound calls.sent answered in
              let all = four.0 (sym ok ∙ e) in (all.0, all.1, all.2, heard.0 all.3),
          λ (free, bound, sent, has).
              let four = all_four_iff taken calls.bound calls.sent answered in
              ok ∙ four.1 (free, bound, sent, heard.1 has),
        ),
      )
