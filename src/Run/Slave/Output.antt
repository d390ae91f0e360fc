-- ===== src/Run/Slave/Output.antt =====
-- axiom-run/slave.c, `send_thread` and the loop of `manage_slave_services` that reads what is left
-- in the pipes: the child's output on its way to the master.
use axiom_evi_apps.Prelude.{
  ℕ, suc, min, Bool, true, List, [], ◌∷◌, ◌++◌, take, drop, not, ◌&&◌, if◌then◌else◌,
}

-- A message to the master, its command and its raw bytes.
pub record Output : Type 0 where
  pub command : ℕ
  pub raw : List ℕ

-- What `read` does on the pipe: on success it takes one byte more than `extra`, or all that the
-- pipe or the buffer hold when that is less. At the end of the pipe it returns 0.
pub data Reading : Type 0 where
  interrupted failed : Reading
  gets : ℕ → Reading

-- The bytes that `read` takes into a buffer of `capacity` bytes, and those that it leaves.
abbrev pub taken : ℕ → ℕ → List ℕ → List ℕ
taken capacity extra pipe = take (min (suc extra) capacity) pipe

abbrev pub left : ℕ → ℕ → List ℕ → List ℕ
left capacity extra pipe = drop (min (suc extra) capacity) pipe

-- One round of `send_thread`: how its `select` ends, and its `read`.
pub data Wakeup : Type 0 where
  select_interrupted select_failed end_request : Wakeup
  readable : Reading → Wakeup

-- What a loop sent, and the pipe that it leaves.
pub record Sent : Type 0 where
  pub messages : List Output
  pub pipe : List ℕ

-- After a read: an empty one ends the loop, and the bytes of another are sent.
unfoldable pub send_read : ℕ → List ℕ → List ℕ → Sent → Sent
send_read command [] pipe rest = record { messages = []; pipe = pipe }
send_read command (x ∷ xs) pipe rest = record {
  messages = record { command = command; raw = x ∷ xs } ∷ rest.messages;
  pipe = rest.pipe;
}

-- The loop of `send_thread` for one command. An empty script is a thread that waits.
unfoldable pub send_thread : ℕ → ℕ → List Wakeup → List ℕ → Sent
unfolding send_read
send_thread capacity command [] pipe = record { messages = []; pipe = pipe }
send_thread capacity command (select_interrupted ∷ ws) pipe = send_thread capacity command ws pipe
send_thread capacity command (select_failed ∷ ws) pipe = record { messages = []; pipe = pipe }
send_thread capacity command (end_request ∷ ws) pipe = record { messages = []; pipe = pipe }
send_thread capacity command (readable interrupted ∷ ws) pipe = send_thread capacity command ws pipe
send_thread capacity command (readable failed ∷ ws) pipe = record { messages = []; pipe = pipe }
send_thread capacity command (readable (gets extra) ∷ ws) pipe =
    send_read command (taken capacity extra pipe) (left capacity extra pipe)
      (send_thread capacity command ws (left capacity extra pipe))

-- A pipe in the loop that drains both: `closedout` or `closederr`, what is in it, what was sent.
pub record Draining : Type 0 where
  pub closed : Bool
  pub contents : List ℕ
  pub sent : List Output

-- After a read of the drain loop.
unfoldable pub drain_read : ℕ → List ℕ → List ℕ → Draining → Draining
drain_read command [] rest d = record d { closed = true }
drain_read command (x ∷ xs) rest d = record d {
  contents = rest;
  sent = d.sent ++ (record { command = command; raw = x ∷ xs } ∷ []);
}

-- The descriptor of a closed pipe is not in the set. `ready` says whether `select` reports it.
unfoldable pub drain_pipe : ℕ → ℕ → Bool → Reading → Draining → Draining
unfolding drain_read
drain_pipe capacity command ready interrupted d = d
drain_pipe capacity command ready failed d = d
drain_pipe capacity command ready (gets extra) d =
    if not d.closed && ready
    then drain_read command (taken capacity extra d.contents) (left capacity extra d.contents) d
    else d

-- One `select` of that loop.
pub data Round : Type 0 where
  failure timeout : Round
  ready : (out_ready : Bool) → Reading → (err_ready : Bool) → Reading → Round

abbrev pub cmd_out : ℕ
cmd_out = 0x82

abbrev pub cmd_err : ℕ
cmd_err = 0x83

-- The loop, over standard output and standard error.
unfoldable pub drain : ℕ → List Round → Draining → Draining → Draining × Draining
unfolding drain_pipe
drain capacity [] out err = (out, err)
drain capacity (failure ∷ rs) out err = (out, err)
drain capacity (timeout ∷ rs) out err = (out, err)
drain capacity (ready out_ready r err_ready q ∷ rs) out err =
    let out' = drain_pipe capacity cmd_out out_ready r out in
    let err' = drain_pipe capacity cmd_err err_ready q err in
    let rest = drain capacity rs out' err' in
    if out'.closed && err'.closed then (out', err') else rest
