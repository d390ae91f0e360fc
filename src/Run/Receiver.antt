-- ===== src/Run/Receiver.antt =====
-- axiom-run/master.c, `master_receiver`: the thread that serves the slaves' messages, one step for
-- each message that `axiom_recv_raw` delivers (a failed receive is logged and tried again). What
-- the libraries decide is in `Env`; logging, scheduling parameters and the allocation of the
-- buffers are left out. The counters are `int`s, here their 32 bits.
pub mod Barrier
pub mod Ends
pub mod Ready
pub mod Tests
use axiom_evi_apps.Prelude.{
  ℕ, ◌+◌, ◌-◌, ◌%◌, ◌^◌, Bool, true, false, List, [], ◌∷◌, ◌++◌, map, Option, none, some, Outcome,
  done, aborted, undefined, ◌>>=◌, leb, ◌==◌, if◌then◌else◌, get_or, set,
}
use axiom_evi_apps.Run.Nodes.{send_raw}
use axiom_evi_apps.Run.Exit.{WaitStatus, Status, on_exit}
use axiom_evi_apps.Run.Emit.{Item, emit, flush}
use axiom_evi_apps.Run.Messages.{
  Header, Message, Effect, to_stdout, to_stderr, send, cmd_exit, cmd_kill, cmd_send_to_stdout,
  cmd_send_to_stderr, cmd_barrier, cmd_rpc, has_service, barrier_service, redirect_service,
  rpc_service_bit,
}
use axiom_evi_apps.Run.Rpc.{Allocator, Pending, rpc_service}

pub record Env : Type 0 where
  pub wait : WaitStatus
  pub allocator : Allocator
  pub fwrite : List ℕ → ℕ
  pub accepts : ℕ → Bool
  pub max_buffer : ℕ
  pub slave_port : ℕ

-- `thread_info_t` and the variables of the thread; `exit_status` is static in the source.
pub record Master : Type 0 where
  pub nodes : ℕ
  pub nnodes : ℕ
  pub flags : ℕ
  pub services : ℕ
  pub exit_status : ℕ
  pub exit_counter : ℕ
  -- one counter for each barrier from 0 to AXRUN_MAX_BARRIER_ID
  pub barrier : List ℕ
  pub infoout : List (List ℕ)
  pub infoerr : List (List ℕ)
  pub rpc : Pending

-- x - 1 in 32 bits
abbrev pub decrement : ℕ → ℕ
decrement x = (x + 2 ^ 32 - 1) % 2 ^ 32

abbrev pub max_barrier_id : ℕ
max_barrier_id = 15

-- The commands that the receiver tells apart.
pub data Kind : Type 0 where
  stderr stdout exit barrier rpc unknown : Kind

module _ (env : Env) where
  -- The same header to all the nodes of the mask.
  pub broadcast : ℕ → Header → Outcome (List Effect)
  broadcast nodes header = elim (send_raw env.accepts nodes) [
    | none ↦ undefined
    | some s ↦ done (map (λ (n : ℕ). send n env.slave_port header []) s.tried)
  ]

  -- The counter of a barrier after one more message, and whether the barrier opens.
  pub reach_barrier : ℕ → ℕ → ℕ × Bool
  reach_barrier nnodes counter =
      let started = if counter == 0 then nnodes else counter in
      let counter' = decrement started in (counter', counter' == 0)

  pub on_barrier : Message → Master → Outcome (Master × List Effect)
  unfolding reach_barrier broadcast
  on_barrier m s =
      let id = m.header.barrier_id in
      let (counter, opens) = reach_barrier s.nnodes (get_or s.barrier id 0) in
      let s' = record s { barrier = set s.barrier id counter } in
      if leb id max_barrier_id
      then (if opens
          then (broadcast s.nodes m.header >>= λ (es : List Effect). done (s', es))
          else done (s', []))
      else done (s, [])

  pub on_exit_message : Message → Master → Outcome (Master × List Effect)
  unfolding broadcast
  on_exit_message m s =
      let (status, kill) =
        on_exit env.wait s.flags m.header.status
          (record { services = s.services; exit_status = s.exit_status }) in
      let s' = record s {
        services = status.services;
        exit_status = status.exit_status;
        exit_counter = decrement s.exit_counter;
      } in
      if kill
      then (broadcast s.nodes (record (m.header) { command = cmd_kill }) >>= λ (es : List Effect).
          done (s', es))
      else done (s', [])

  pub on_stdout : Message → Master → Outcome (Master × List Effect)
  on_stdout m s =
      emit env.fwrite env.max_buffer s.flags m.node m.raw s.infoout
      >>= λ (r : List Item × List (List ℕ)). done (record s { infoout = r.1 }, to_stdout r.0 ∷ [])

  pub on_stderr : Message → Master → Outcome (Master × List Effect)
  on_stderr m s =
      emit env.fwrite env.max_buffer s.flags m.node m.raw s.infoerr
      >>= λ (r : List Item × List (List ℕ)). done (record s { infoerr = r.1 }, to_stderr r.0 ∷ [])

  pub on_rpc : Message → Master → Master × List Effect
  on_rpc m s =
      let (p, es) = rpc_service env.allocator env.slave_port m s.rpc in (record s { rpc = p }, es)

  pub kind : ℕ → Kind
  kind command =
      if command == cmd_send_to_stderr
      then stderr
      else if command == cmd_send_to_stdout
      then stdout
      else if command == cmd_exit
      then exit
      else if command == cmd_barrier
      then barrier
      else if command == cmd_rpc
      then rpc
      else if command == env.allocator.alloc_reply_command
      then rpc
      else unknown

  -- The branches by the command, each behind its service.
  pub dispatch : Kind → Message → Master → Outcome (Master × List Effect)
  unfolding on_stdout on_stderr on_exit_message on_barrier on_rpc
  dispatch stderr m s =
      if has_service s.services redirect_service then on_stderr m s else done (s, [])
  dispatch stdout m s =
      if has_service s.services redirect_service then on_stdout m s else done (s, [])
  dispatch exit m s = on_exit_message m s
  dispatch barrier m s =
      if has_service s.services barrier_service then on_barrier m s else done (s, [])
  dispatch rpc m s =
      if has_service s.services rpc_service_bit then done (on_rpc m s) else done (s, [])
  dispatch unknown m s = done (s, [])

  -- `break` follows an exit message that takes the counter to 0.
  abbrev leaves : Kind → Master → Bool
  leaves exit s = s.exit_counter == 0
  leaves _ s = false

  -- The thread over the messages that arrive: what it did, the state, and whether it left its loop;
  -- on leaving, the partial lines are flushed, and later messages are not read.
  pub receive_all : List Message → Master → Outcome (Master × List Effect × Bool)
  receive_all [] s = done (s, [], false)
  receive_all (m ∷ ms) s = dispatch (kind m.header.command) m s >>= λ (r : Master × List Effect).
      let rest = receive_all ms r.0 in
      if leaves (kind m.header.command) r.0
      then (let (out, infoout) = flush env.fwrite r.0.flags r.0.infoout in
          let (err, infoerr) = flush env.fwrite r.0.flags r.0.infoerr in
          done (
            record (r.0) { infoout = infoout; infoerr = infoerr },
            r.1 ++ to_stdout out ∷ to_stderr err ∷ [],
            true,
          ))
      else (rest >>= λ (q : Master × List Effect × Bool). done (q.0, r.1 ++ q.1, q.2))
