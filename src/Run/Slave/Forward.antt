-- ===== src/Run/Slave/Forward.antt =====
-- No byte of the child's output is lost or reordered between `send_thread` and the last reads.
use axiom_evi_apps.Prelude.{
  ℕ, suc, min, ◌≡◌, refl, Bool, List, [], ◌∷◌, ◌++◌, take-append-drop, ◌&&◌, not, Bool-cases, inl,
  inr, ◌∙◌, ap, sym,
}
use axiom_evi_apps.Run.Slave.Output.{
  Output, Reading, interrupted, failed, gets, taken, left, Wakeup, select_interrupted,
  select_failed, end_request, readable, Sent, send_thread, Draining, send_read, drain_read,
  drain_pipe, Round, failure, timeout, ready, drain, cmd_out, cmd_err,
}

-- The bytes of all the messages, in order.
unfoldable pub payload : List Output → List ℕ
payload [] = []
payload (m ∷ ms) = m.raw ++ payload ms

pub append_assoc : (xs ys zs : List ℕ) → (xs ++ ys) ++ zs ≡ xs ++ (ys ++ zs)
append_assoc [] ys zs = refl
append_assoc (x ∷ xs) ys zs = rw (append_assoc xs ys zs) refl

pub append_nil : (xs : List ℕ) → xs ++ [] ≡ xs
append_nil [] = refl
append_nil (x ∷ xs) = rw (append_nil xs) refl

pub payload-append : (ms ns : List Output) → payload (ms ++ ns) ≡ payload ms ++ payload ns
unfolding payload
payload-append [] ns = refl
payload-append (m ∷ ms) ns =
    rw (payload-append ms ns) (sym (append_assoc m.raw (payload ms) (payload ns)))

-- One read splits the pipe.
pub read_split :
    (capacity extra : ℕ) (pipe : List ℕ)
    → taken capacity extra pipe ++ left capacity extra pipe ≡ pipe
read_split capacity extra pipe = take-append-drop (min (suc extra) capacity) pipe

send_read-conserves :
    (command : ℕ) (got pipe whole : List ℕ) (rest : Sent)
    → got ++ pipe ≡ whole
    → payload rest.messages ++ rest.pipe ≡ pipe
    → payload (send_read command got pipe rest).messages ++ (send_read command got pipe rest).pipe
      ≡ whole
unfolding send_read payload
send_read-conserves command [] pipe whole rest split later = split
send_read-conserves command (x ∷ xs) pipe whole rest split later =
    append_assoc (x ∷ xs) (payload rest.messages) rest.pipe
    ∙ ap (λ (ys : List ℕ). (x ∷ xs) ++ ys) later
    ∙ split

-- Whatever happens to `send_thread`, the bytes of its messages, and behind them those that it left
-- in the pipe, are the bytes of the pipe in order; and every message carries its command.
pub send_thread-conserves :
    (capacity command : ℕ) (ws : List Wakeup) (pipe : List ℕ)
    → payload (send_thread capacity command ws pipe).messages
        ++ (send_thread capacity command ws pipe).pipe
      ≡ pipe
unfolding send_thread payload
send_thread-conserves capacity command [] pipe = refl
send_thread-conserves capacity command (select_interrupted ∷ ws) pipe =
    send_thread-conserves capacity command ws pipe
send_thread-conserves capacity command (select_failed ∷ ws) pipe = refl
send_thread-conserves capacity command (end_request ∷ ws) pipe = refl
send_thread-conserves capacity command (readable interrupted ∷ ws) pipe =
    send_thread-conserves capacity command ws pipe
send_thread-conserves capacity command (readable failed ∷ ws) pipe = refl
send_thread-conserves capacity command (readable (gets extra) ∷ ws) pipe =
    send_read-conserves command (taken capacity extra pipe) (left capacity extra pipe) pipe
      (send_thread capacity command ws (left capacity extra pipe)) (read_split capacity extra pipe)
      (send_thread-conserves capacity command ws (left capacity extra pipe))

-- What a draining pipe has sent and what is in it.
abbrev total : Draining → List ℕ
total d = payload d.sent ++ d.contents

drain_read-conserves :
    (command : ℕ) (got rest : List ℕ) (d : Draining)
    → got ++ rest ≡ d.contents
    → total (drain_read command got rest d) ≡ total d
unfolding drain_read payload
drain_read-conserves command [] rest d split = refl
drain_read-conserves command (x ∷ xs) rest d split =
    rw (payload-append d.sent (record { command = command; raw = x ∷ xs } ∷ [])) (
      append_assoc (payload d.sent) ((x ∷ xs) ++ []) rest
      ∙ ap (λ (ys : List ℕ). payload d.sent ++ (ys ++ rest)) (append_nil (x ∷ xs))
      ∙ ap (λ (ys : List ℕ). payload d.sent ++ ys) split)

pub drain_pipe-conserves :
    (capacity command : ℕ) (reported : Bool) (r : Reading) (d : Draining)
    → total (drain_pipe capacity command reported r d) ≡ total d
unfolding drain_pipe
drain_pipe-conserves capacity command reported interrupted d = refl
drain_pipe-conserves capacity command reported failed d = refl
drain_pipe-conserves capacity command reported (gets extra) d =
    elim (Bool-cases (not d.closed && reported)) [
      | inl e ↦ rw e (drain_read-conserves command _ _ d (read_split capacity extra d.contents))
      | inr e ↦ rw e refl
    ]

-- However the draining loop goes, on both pipes: what it sends, and behind it what is left, are the
-- bytes that were sent before and that the pipe held.
pub drain-conserves :
    (capacity : ℕ) (rs : List Round) (out err : Draining)
    → (total (drain capacity rs out err).0 ≡ total out)
      × (total (drain capacity rs out err).1 ≡ total err)
unfolding drain
drain-conserves capacity [] out err = (refl, refl)
drain-conserves capacity (failure ∷ rs) out err = (refl, refl)
drain-conserves capacity (timeout ∷ rs) out err = (refl, refl)
drain-conserves capacity (ready out_ready r err_ready q ∷ rs) out err =
    let out' = drain_pipe capacity cmd_out out_ready r out in
    let err' = drain_pipe capacity cmd_err err_ready q err in
    let kept = drain_pipe-conserves capacity cmd_out out_ready r out in
    let kept' = drain_pipe-conserves capacity cmd_err err_ready q err in
    let later = drain-conserves capacity rs out' err' in
    elim (Bool-cases (out'.closed && err'.closed)) [
      | inl e ↦ rw e (kept, kept')
      | inr e ↦ rw e (later.0 ∙ kept, later.1 ∙ kept')
    ]
