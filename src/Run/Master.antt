-- ===== src/Run/Master.antt =====
-- axiom-run/master.c: `manage_master_services`, which starts the threads of the master and waits for
-- them. The eventfd, pthreads and rpc_init are parameters, as are the buffers of the RPC before the
-- first request. terminate_thread makes the sender end: by the eventfd, or else it is cancelled.
pub mod Waiting
mod Tests
use axiom_evi_apps.Prelude.{
  ℕ, Bool, true, false, List, [], ◌++◌, Option, none, some, Outcome, done, undefined, ◌>>=◌, not,
  ◌&&◌, if◌then◌else◌, replicate,
}
use axiom_evi_apps.Run.Nodes.{count_nodes}
use axiom_evi_apps.Run.Messages.{Header, Message, Effect, has_service, redirect_service}
use axiom_evi_apps.Run.Rpc.{Pending}
use axiom_evi_apps.Run.Receiver.{Env, Master, receive_all}
use axiom_evi_apps.Run.Sender.{StdinRound, Link, master_sender}

-- What the calls give.
pub record Calls : Type 0 where
  pub eventfd : Bool
  pub receiver_created : Bool
  pub sender_created : Bool
  pub rpc_init : Bool
  pub receiver_joined : Bool

-- The arguments.
pub record Services : Type 0 where
  pub services : ℕ
  pub nodes : ℕ
  pub flags : ℕ

-- The start of master_receiver, for the count of the slaves. `exit_status` is 0.
unfoldable pub receiver_start : Services → ℕ → Pending → Master
receiver_start sv nnodes rpc = record {
  nodes = sv.nodes;
  nnodes = nnodes;
  flags = sv.flags;
  services = sv.services;
  exit_status = 0;
  exit_counter = nnodes;
  barrier = replicate 16 0;
  infoout = replicate 63 [];
  infoerr = replicate 63 [];
  rpc = rpc;
}

pub data MasterEnd : Type 0 where
  -- exit (EXIT_FAILURE)
  exit_failure : MasterEnd
  -- pthread_join of the receiver does not return
  waits : MasterEnd
  returned : ℕ → MasterEnd

-- The end, what the receiver does and what the sender sends; the two run at the same time.
pub record MasterRun : Type 0 where
  pub end : MasterEnd
  pub receiver_effects : List Effect
  pub sender_effects : List Effect

abbrev pub fails : MasterRun
fails = record { end = exit_failure; receiver_effects = []; sender_effects = [] }

-- From the threads on.
unfoldable pub join_threads :
    Bool → Outcome (Master × List Effect × Bool) → Outcome (List Effect × Bool) → Outcome MasterRun
join_threads joined received sent = received >>= λ (r : Master × List Effect × Bool).
    sent >>= λ (q : List Effect × Bool). done (record {
      end = if not r.2 then waits else if joined then returned r.0.exit_status else exit_failure;
      receiver_effects = r.1;
      sender_effects = q.0;
    })

unfoldable pub manage_master_services :
    Env → Header → Pending → Calls → Services → List Message → List StdinRound → Outcome MasterRun
manage_master_services env stale rpc calls sv messages rounds =
    let redirect = has_service sv.services redirect_service in
    let link : Link = record {
      accepts = env.accepts;
      nodes = sv.nodes;
      slave_port = env.slave_port;
      stale = stale;
    } in
    elim (count_nodes sv.nodes) [
      | none ↦ undefined
      | some nnodes ↦
          let received = receive_all env messages (receiver_start sv nnodes rpc) in
          let sent = if redirect then master_sender link rounds else done ([], true) in
          if not (calls.eventfd && calls.receiver_created && calls.rpc_init)
          then done fails
          else if redirect && not (calls.sender_created)
          then done fails
          else join_threads calls.receiver_joined received sent
    ]
