-- ===== src/Run/Slave/Receive.antt =====
-- axiom-run/slave.c, `output` and `recv_thread`: the messages of the master on their way to the
-- child. `write` and `kill` are of the system: their results are a script and a function.
use axiom_evi_apps.Prelude.{
  ℕ, Bool, true, false, List, [], ◌∷◌, ◌++◌, take, drop, length, Option, none, some, ◌==◌, ◌||◌,
  ◌+◌, if◌then◌else◌,
}
use axiom_evi_apps.Run.Messages.{
  Message, cmd_kill, cmd_recv_from_stdin, cmd_barrier, cmd_rpc, has_service, barrier_service,
  redirect_service, rpc_service_bit,
}
use axiom_evi_apps.Run.Exit.{exit_service}

-- KILL_SERVICE
abbrev pub kill_service : ℕ
kill_service = 0x20

-- A result of `write`: EINTR, another error, or the count of the bytes.
pub data Writing : Type 0 where
  interrupted failed : Writing
  wrote : ℕ → Writing

-- The bytes that reach the child's standard input, and those that do not. A write of no byte is
-- tried again.
unfoldable pub write_stdin : List Writing → List ℕ → List ℕ × List ℕ
write_stdin ws [] = ([], [])
write_stdin [] (x ∷ xs) = ([], x ∷ xs)
write_stdin (interrupted ∷ ws) (x ∷ xs) = write_stdin ws (x ∷ xs)
write_stdin (failed ∷ ws) (x ∷ xs) = ([], x ∷ xs)
write_stdin (wrote sz ∷ ws) (x ∷ xs) =
    let rest = write_stdin ws (drop sz (x ∷ xs)) in (take sz (x ∷ xs) ++ rest.0, rest.1)

-- ESRCH and SIGKILL
abbrev pub esrch : ℕ
esrch = 3

abbrev pub sigkill : ℕ
sigkill = 9

-- What the thread does to the child.
pub data Action : Type 0 where
  -- bytes written to its standard input
  feed : List ℕ → Action
  signal : ℕ → Action
  -- a datagram to the socket of a barrier or of an RPC, with the size that `sendto` is given
  barrier_datagram rpc_datagram : ℕ → ℕ → Action

-- `thread_info_t` as far as the thread reads it, and `kill` on the child: the errno, or `none`.
pub record Info : Type 0 where
  pub services : ℕ
  pub termmode : ℕ
  pub kill : ℕ → Option ℕ

-- The size of `header_t`.
abbrev pub header_size : ℕ
header_size = 20

unfoldable pub on_kill : Info → List Action
on_kill info = elim (info.kill info.termmode) [
  | none ↦ signal info.termmode ∷ []
  | some errno ↦
      if errno == esrch
      then signal info.termmode ∷ []
      else signal info.termmode ∷ signal sigkill ∷ []
]

-- One message, the id of an RPC beside it, and what `select` had returned: the branches by the
-- command. The result is whether `my_sigterm` is set, and the actions.
unfoldable pub on_message : Info → ℕ → List Writing → ℕ → Message → Bool × List Action
unfolding write_stdin on_kill
on_message info res ws rpc_id m =
    let command = m.header.command in
    if command == cmd_recv_from_stdin
    then (if has_service info.services redirect_service
        then (false, feed (write_stdin ws m.raw).0 ∷ [])
        else (false, []))
    else if command == cmd_kill
    then (if has_service info.services exit_service || has_service info.services kill_service
        then (true, on_kill info)
        else (false, []))
    else if command == cmd_barrier
    then (if has_service info.services barrier_service
        then (false, barrier_datagram m.header.barrier_id res ∷ [])
        else (false, []))
    else if command == cmd_rpc
    then (if has_service info.services rpc_service_bit
        then (false, rpc_datagram rpc_id (header_size + length m.raw) ∷ [])
        else (false, []))
    else (false, [])

-- One round: how `select` ends and what is received. `arrived` holds the result of `select`, the
-- results of the writes, the id of an RPC and the message.
pub data Arrival : Type 0 where
  select_interrupted select_failed end_request receive_failed : Arrival
  arrived : ℕ → List Writing → ℕ → Message → Arrival

-- The loop, from a value of `my_sigterm`.
unfoldable pub recv_thread : Info → List Arrival → Bool → Bool × List Action
unfolding on_message
recv_thread info [] sigterm = (sigterm, [])
recv_thread info (select_interrupted ∷ more) sigterm = recv_thread info more sigterm
recv_thread info (select_failed ∷ more) sigterm = (sigterm, [])
recv_thread info (end_request ∷ more) sigterm = (sigterm, [])
recv_thread info (receive_failed ∷ more) sigterm = recv_thread info more sigterm
recv_thread info (arrived res ws rpc_id m ∷ more) sigterm =
    let step = on_message info res ws rpc_id m in
    let rest = recv_thread info more (sigterm || step.0) in (rest.0, step.1 ++ rest.1)
