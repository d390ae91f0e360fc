-- ===== src/Run/Slave/Drained.antt =====
-- When the reads go on until both pipes are at their end, the child's output is forwarded whole.
use axiom_evi_apps.Prelude.{
  ℕ, zero, suc, ◌<◌, min, ◌≡◌, refl, arith, Bool, true, false, List, [], ◌∷◌, ◌++◌, length,
  length-append, length-take, ◌&&◌, Bool-cases, inl, inr, ◌∙◌, ap, sym,
}
use mathlib.Core.Bool.{true≢false}
use axiom_evi_apps.Run.Slave.Output.{
  gets, taken, left, Wakeup, Sent, send_thread, Draining, drain_read, drain_pipe, Round, ready,
  drain, cmd_out, cmd_err,
}
use axiom_evi_apps.Run.Slave.Forward.{
  payload, payload-append, append_nil, read_split, send_thread-conserves, drain-conserves,
}

and_left : (a b : Bool) → (a && b) ≡ true → a ≡ true
and_left a b e = ground arith

and_right : (a b : Bool) → (a && b) ≡ true → b ≡ true
and_right a b e = ground arith

-- A closed pipe is empty, and an open one holds less than n bytes.
pub record EndsIn (n : ℕ) (d : Draining) : Type 0 where
  pub closed_empty : d.closed ≡ true → d.contents ≡ []
  pub open_short : d.closed ≡ false → length d.contents < n

drain_read-EndsIn :
    (n command : ℕ) (got rest : List ℕ) (d : Draining)
    → got ++ rest ≡ d.contents
    → (got ≡ [] → d.contents ≡ [])
    → length d.contents < suc n
    → d.closed ≡ false
    → EndsIn n (drain_read command got rest d)
unfolding drain_read
drain_read-EndsIn n command [] rest d split at_end short opened = record {
  closed_empty = λ e. at_end refl;
  open_short = λ e. absurd (true≢false e);
}
drain_read-EndsIn n command (x ∷ xs) rest d split at_end short opened = record {
  closed_empty = λ e. absurd (true≢false (sym e ∙ opened));
  open_short = λ e. omega (arith, ap length split, length-append (x ∷ xs) rest);
}

-- A read takes nothing from an empty pipe alone.
taken_none :
    (capacity extra : ℕ) (pipe : List ℕ) → 0 < capacity → taken capacity extra pipe ≡ [] → pipe ≡ []
taken_none zero extra pipe room e = absurd (omega arith)
taken_none (suc c) extra [] room e = refl
taken_none (suc c) extra (x ∷ xs) room e =
    absurd (omega (arith, ap length e, length-take (min (suc extra) (suc c)) (x ∷ xs)))

drain_pipe_closed :
    (capacity command extra : ℕ) (d : Draining)
    → d.closed ≡ true
    → drain_pipe capacity command true (gets extra) d ≡ d
unfolding drain_pipe
drain_pipe_closed capacity command extra d e = rw e refl

drain_pipe_open :
    (capacity command extra : ℕ) (d : Draining)
    → d.closed ≡ false
    → drain_pipe capacity command true (gets extra) d
      ≡ drain_read command (taken capacity extra d.contents) (left capacity extra d.contents) d
unfolding drain_pipe
drain_pipe_open capacity command extra d e = rw e refl

drain_pipe-EndsIn :
    (n capacity command extra : ℕ) (d : Draining)
    → 0 < capacity
    → EndsIn (suc n) d
    → EndsIn n (drain_pipe capacity command true (gets extra) d)
drain_pipe-EndsIn n capacity command extra d room h = elim (Bool-cases d.closed) [
  | inl e ↦
      rw (drain_pipe_closed capacity command extra d e) (record {
        closed_empty = h.closed_empty;
        open_short = λ c. absurd (true≢false (sym e ∙ c));
      })
  | inr e ↦ rw (drain_pipe_open capacity command extra d e) (
      drain_read-EndsIn n command (taken capacity extra d.contents) (left capacity extra d.contents)
        d (read_split capacity extra d.contents) (taken_none capacity extra d.contents room)
        (h.open_short e) e)
]

-- No byte fits in less than none.
EndsIn-zero : (d : Draining) → EndsIn 0 d → d.contents ≡ []
EndsIn-zero d h = elim (Bool-cases d.closed) [
  | inl e ↦ h.closed_empty e
  | inr e ↦ absurd (omega (arith, h.open_short e))
]

-- Rounds in which both pipes are ready.
abbrev pub all_ready : List (ℕ × ℕ) → List Round
all_ready [] = []
all_ready ((extra, extra') ∷ more) = ready true (gets extra) true (gets extra') ∷ all_ready more

pub drain-EndsIn :
    (capacity : ℕ) (extras : List (ℕ × ℕ)) (out err : Draining)
    → 0 < capacity
    → EndsIn (length extras) out
    → EndsIn (length extras) err
    → ((drain capacity (all_ready extras) out err).0.contents ≡ [])
      × ((drain capacity (all_ready extras) out err).1.contents ≡ [])
unfolding drain
drain-EndsIn capacity [] out err room ends ends' = (EndsIn-zero out ends, EndsIn-zero err ends')
drain-EndsIn capacity ((extra, extra') ∷ more) out err room ends ends' =
    let out' = drain_pipe capacity cmd_out true (gets extra) out in
    let err' = drain_pipe capacity cmd_err true (gets extra') err in
    let next = drain_pipe-EndsIn (length more) capacity cmd_out extra out room ends in
    let next' = drain_pipe-EndsIn (length more) capacity cmd_err extra' err room ends' in
    let later = drain-EndsIn capacity more out' err' room next next' in
    elim (Bool-cases (out'.closed && err'.closed)) [
      | inl e ↦ rw e (next.closed_empty (and_left _ _ e), next'.closed_empty (and_right _ _ e))
      | inr e ↦ rw e later
    ]

whole :
    (from : Sent) (last : Draining) (xs : List ℕ)
    → payload from.messages ++ from.pipe ≡ xs
    → payload last.sent ++ last.contents ≡ payload [] ++ from.pipe
    → last.contents ≡ []
    → payload (from.messages ++ last.sent) ≡ xs
unfolding payload
whole from last xs first later empty =
    payload-append from.messages last.sent
    ∙ ap (λ (ys : List ℕ). payload from.messages ++ ys)
        (sym (append_nil (payload last.sent))
          ∙ ap (λ (ys : List ℕ). payload last.sent ++ ys) (sym empty)
          ∙ later)
    ∙ first

-- The two pipes when the loop starts.
abbrev pub opened : List ℕ → Draining
opened xs = record { closed = false; contents = xs; sent = [] }

-- Whatever `send_thread` did with the child's standard output before it ended, and with its
-- standard error: when the last loop then finds both pipes ready in more rounds than either holds
-- bytes, the messages for standard output carry all that the child wrote there, in order, and so
-- for standard error.
pub drain-send_thread_complete :
    (capacity : ℕ) (ws ws' : List Wakeup) (extras : List (ℕ × ℕ)) (out err : List ℕ)
    → 0 < capacity
    → length (send_thread capacity cmd_out ws out).pipe < length extras
    → length (send_thread capacity cmd_err ws' err).pipe < length extras
    → let from_out = send_thread capacity cmd_out ws out in
      let from_err = send_thread capacity cmd_err ws' err in
      let last = drain capacity (all_ready extras) (opened from_out.pipe) (opened from_err.pipe) in
      (payload (from_out.messages ++ last.0.sent) ≡ out)
      × (payload (from_err.messages ++ last.1.sent) ≡ err)
drain-send_thread_complete capacity ws ws' extras out err room enough enough' =
    let from_out = send_thread capacity cmd_out ws out in
    let from_err = send_thread capacity cmd_err ws' err in
    let last = drain capacity (all_ready extras) (opened from_out.pipe) (opened from_err.pipe) in
    let kept =
      drain-conserves capacity (all_ready extras) (opened from_out.pipe) (opened from_err.pipe) in
    let empty =
      drain-EndsIn capacity extras (opened from_out.pipe) (opened from_err.pipe) room
        (record { closed_empty = λ e. absurd (true≢false (sym e)); open_short = λ e. enough })
        (record { closed_empty = λ e. absurd (true≢false (sym e)); open_short = λ e. enough' }) in
    (
      whole from_out last.0 out (send_thread-conserves capacity cmd_out ws out) kept.0 empty.0,
      whole from_err last.1 err (send_thread-conserves capacity cmd_err ws' err) kept.1 empty.1,
    )
