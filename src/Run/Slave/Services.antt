-- ===== src/Run/Slave/Services.antt =====
-- axiom-run/slave.c, `sock_thread`, `myexit` and `manage_slave_services`: the threads of the
-- services, the wait for the child, and the exit status that the master is told.
use axiom_evi_apps.Prelude.{
  ℕ, ◌%◌, ◌^◌, Bool, true, false, List, [], ◌∷◌, ◌++◌, Outcome, done, undefined, ◌==◌, ◌&&◌, ◌||◌,
  if◌then◌else◌,
}
use axiom_evi_apps.Run.Messages.{has_service, barrier_service, redirect_service, rpc_service_bit}
use axiom_evi_apps.Run.Exit.{exit_service}
use axiom_evi_apps.Run.Slave.Output.{Output, Wakeup, Round, send_thread, drain, cmd_out, cmd_err}
use axiom_evi_apps.Run.Slave.Receive.{Info, Action, Arrival, recv_thread, kill_service}

pub data Thread : Type 0 where
  send_stdout send_stderr receive socket : Thread

-- The threads for the output, the one for the master's messages, the one for the child's requests.
abbrev pub plan : Bool → Bool → Bool → List Thread
plan output commands child =
    (if output then send_stdout ∷ send_stderr ∷ [] else [])
    ++ ((if commands then receive ∷ [] else []) ++ (if child then socket ∷ [] else []))

-- The threads that are started for the services, in order; they are ended in the same order.
unfoldable pub threads : ℕ → List Thread
threads services =
    let redirect = has_service services redirect_service in
    plan redirect
      (redirect || (has_service services exit_service || has_service services kill_service))
      (has_service services barrier_service || has_service services rpc_service_bit)

unfoldable pub runs : Thread → List Thread → Bool
runs t [] = false
runs t (u ∷ us) = same t u || runs t us
  where
    same : Thread → Thread → Bool
    same send_stdout send_stdout = true
    same send_stderr send_stderr = true
    same receive receive = true
    same socket socket = true
    same _ _ = false

-- One round of `sock_thread`: how `select` or `recv` fail, or the datagram of the child.
pub data Request : Type 0 where
  select_interrupted select_failed end_request try_again receive_failed : Request
  datagram : List ℕ → Request

-- The requests of the child that go on to the master.
unfoldable pub sock_thread : List Request → List (List ℕ)
sock_thread [] = []
sock_thread (select_interrupted ∷ more) = sock_thread more
sock_thread (select_failed ∷ more) = []
sock_thread (end_request ∷ more) = []
sock_thread (try_again ∷ more) = sock_thread more
sock_thread (receive_failed ∷ more) = sock_thread more
sock_thread (datagram bytes ∷ more) = bytes ∷ sock_thread more

-- The loop around `waitpid`: EINTR, another error, or the status of the child.
pub data Waits : Type 0 where
  interrupted : Waits → Waits
  failed : Waits
  ended : ℕ → Waits

unfoldable pub wait_child : Waits → ℕ
wait_child (interrupted more) = wait_child more
wait_child failed = 0
wait_child (ended status) = status

-- WIFSIGNALED and WTERMSIG, of the C library.
pub record Signals : Type 0 where
  pub signaled : ℕ → Bool
  pub term_signal : ℕ → ℕ

-- The status is reset when the child died of the signal that this slave sent.
unfoldable pub reported : Signals → Bool → ℕ → ℕ → ℕ
reported signals my_sigterm termmode status =
    if my_sigterm
    then (if signals.signaled status && signals.term_signal status == termmode then 0 else status)
    else status

-- What the system does, each thread its script; the receiver's has what arrives before the child is
-- waited for, and what arrives later.
pub record Answers : Type 0 where
  pub capacity : ℕ
  pub signals : Signals
  pub out_wakeups : List Wakeup
  pub err_wakeups : List Wakeup
  pub arrivals : List Arrival
  pub late : List Arrival
  pub requests : List Request
  pub waits : Waits
  pub rounds : List Round

-- What a slave did: by each thread, then in the last loop, then the status of CMD_EXIT, which is
-- also what is returned.
pub record Served : Type 0 where
  pub from_out : List Output
  pub from_err : List Output
  pub to_child : List Action
  pub to_master : List (List ℕ)
  pub last_out : List Output
  pub last_err : List Output
  pub status : ℕ

-- `started` is `_pid > 0`; without a child the status is sent uninitialised. `out` and `err` are
-- what the child writes.
unfoldable pub manage_slave_services : Answers → Info → Bool → List ℕ → List ℕ → Outcome Served
unfolding threads runs sock_thread wait_child reported
manage_slave_services answers info started out err =
    let plan = threads info.services in
    let from_out =
      send_thread answers.capacity cmd_out
        (if runs send_stdout plan then answers.out_wakeups else []) out in
    let from_err =
      send_thread answers.capacity cmd_err
        (if runs send_stderr plan then answers.err_wakeups else []) err in
    let received = runs receive plan in
    let early = recv_thread info (if received then answers.arrivals else []) false in
    let whole =
      recv_thread info (if received then answers.arrivals ++ answers.late else []) false in
    let to_master = sock_thread (if runs socket plan then answers.requests else []) in
    let status = reported answers.signals early.0 info.termmode (wait_child answers.waits) in
    let (last_out, last_err) =
      drain answers.capacity
        (if has_service info.services redirect_service then answers.rounds else [])
        (record { closed = false; contents = from_out.pipe; sent = [] })
        (record { closed = false; contents = from_err.pipe; sent = [] }) in
    if started
    then done (record {
      from_out = from_out.messages;
      from_err = from_err.messages;
      to_child = whole.1;
      to_master = to_master;
      last_out = last_out.sent;
      last_err = last_err.sent;
      status = status;
    })
    else undefined

-- The handler of the exit signals: the signal to a child that is there, the unlinked socket, and
-- CMD_EXIT with the signal's low 7 bits when the device is open.
pub data Farewell : Type 0 where
  kill_child : ℕ → Farewell
  unlink_socket exit_process : Farewell
  send_exit : ℕ → Farewell

unfoldable pub myexit : Bool → Bool → ℕ → List Farewell
myexit has_child has_device sig =
    (if has_child then kill_child sig ∷ [] else [])
    ++ (unlink_socket
        ∷ ((if has_device then send_exit (sig % 2 ^ 7) ∷ [] else []) ++ (exit_process ∷ [])))
