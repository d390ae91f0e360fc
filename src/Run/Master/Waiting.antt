-- ===== src/Run/Master/Waiting.antt =====
-- How long the master waits.
use axiom_evi_apps.Prelude.{
  ℕ, zero, suc, ◌+◌, ◌/◌, ◌^◌, ◌≤◌, ◌<◌, ◌≡◌, refl, sym, arith, ◌∙◌, Bool, true, false, List, [],
  some, done, not, ◌&&◌, if◌then◌else◌, All, length, replicate, length-replicate, get_or-replicate,
  ◌↔◌,
}
use axiom_evi_apps.Run.Nodes.{count_nodes}
use axiom_evi_apps.Run.Nodes.Laws.{targets, count_nodes-targets}
use axiom_evi_apps.Run.Messages.{Header, Message, Effect, has_service, redirect_service}
use axiom_evi_apps.Run.Rpc.{Pending}
use axiom_evi_apps.Run.Emit.{memchr}
use axiom_evi_apps.Run.Emit.Output.{IsProgress}
use axiom_evi_apps.Run.Emit.Text.{IsBuffered}
use axiom_evi_apps.Run.Receiver.{Env, Master, receive_all}
use axiom_evi_apps.Run.Receiver.Ends.{exits}
use axiom_evi_apps.Run.Receiver.Ready.{IsReady, IsMessage, receive_all-leaves}
use axiom_evi_apps.Run.Sender.{StdinRound, Link, master_sender}
use axiom_evi_apps.Run.Sender.Stdin.{master_sender-returns}
use axiom_evi_apps.Run.Master.{
  Calls, Services, receiver_start, MasterEnd, exit_failure, waits, returned, MasterRun,
  join_threads, manage_master_services,
}

length-targets_le : (w node nodes : ℕ) → length (targets w node nodes) ≤ w
unfolding targets
length-targets_le zero node nodes = omega arith
length-targets_le (suc w) node nodes = ground (arith, length-targets_le w (node + 1) (nodes / 2))

length-targets_pos :
    (w node nodes : ℕ) → nodes < 2 ^ w → 0 < nodes → 0 < length (targets w node nodes)
unfolding targets
length-targets_pos zero node nodes fits pos = absurd (omega (arith, fits, pos))
length-targets_pos (suc w) node nodes fits pos =
    ground (arith, length-targets_pos w (node + 1) (nodes / 2))

no_bytes-IsBuffered : (max_buffer : ℕ) → IsBuffered max_buffer (replicate 63 [])
no_bytes-IsBuffered max_buffer = record {
  nodes = length-replicate {A = List ℕ} 63 [];
  small = λ n. rw (get_or-replicate {A = List ℕ} 63 n []) (omega arith);
  lines = λ n. rw (get_or-replicate {A = List ℕ} 63 n []) (unfold memchr in refl);
}

receiver_start-IsReady :
    (env : Env) (sv : Services) (nnodes : ℕ) (rpc : Pending)
    → sv.nodes < 2 ^ 64
    → IsReady env (receiver_start sv nnodes rpc)
unfolding receiver_start
receiver_start-IsReady env sv nnodes rpc fits = record {
  out_buffered = no_bytes-IsBuffered env.max_buffer;
  err_buffered = no_bytes-IsBuffered env.max_buffer;
  mask = fits;
}

-- Whether the function returns.
unfoldable pub returns : MasterEnd → Bool
returns exit_failure = false
returns waits = false
returns (returned status) = true

abbrev pub all_succeed : Calls
all_succeed = record {
  eventfd = true;
  receiver_created = true;
  sender_created = true;
  rpc_init = true;
  receiver_joined = true;
}

returns_lem :
    (left : Bool) (status : ℕ) → returns (if not left then waits else returned status) ≡ left
unfolding returns
returns_lem true status = refl
returns_lem false status = refl

sender_returns :
    (redirect : Bool) (link : Link) (rounds : List StdinRound)
    → link.nodes < 2 ^ 64
    → (q : List Effect × Bool) × ((if redirect then master_sender link rounds else done ([], true))
        ≡ done q)
sender_returns true link rounds fits = master_sender-returns link rounds fits
sender_returns false link rounds fits = (([], true), refl)

abbrev link_of : Env → Header → Services → Link
link_of env stale sv = record {
  accepts = env.accepts;
  nodes = sv.nodes;
  slave_port = env.slave_port;
  stale = stale;
}

abbrev joined_run : Master × List Effect × Bool → List Effect × Bool → MasterRun
joined_run r q = record {
  end = if not r.2 then waits else returned r.0.exit_status;
  receiver_effects = r.1;
  sender_effects = q.0;
}

manage-joined :
    (env : Env) (stale : Header) (rpc : Pending) (sv : Services) (ms : List Message)
    (rounds : List StdinRound) (n : ℕ) (r : Master × List Effect × Bool) (q : List Effect × Bool)
    → count_nodes sv.nodes ≡ some n
    → receive_all env ms (receiver_start sv n rpc) ≡ done r
    → (if has_service sv.services redirect_service
        then master_sender (link_of env stale sv) rounds
        else done ([], true))
      ≡ done q
    → manage_master_services env stale rpc all_succeed sv ms rounds ≡ done (joined_run r q)
unfolding manage_master_services join_threads
manage-joined env stale rpc sv ms rounds n r q counted received sent =
    let redirect = has_service sv.services redirect_service in
    let started : (redirect && false) ≡ false = ground arith in
    rw (manage_master_services, counted, started, received, sent, join_threads) refl

-- On a mask of 64 bits that is not empty, when the calls succeed, for any messages of the 63 nodes whose
-- bytes fit the buffers, and whatever happens to the sender: with n the count of the slaves, which the
-- function finds, it returns if n or more of the messages are exit messages, and else it waits on.
pub manage_master_services-returns :
    (env : Env) (stale : Header) (rpc : Pending) (sv : Services) (ms : List Message)
    (rounds : List StdinRound)
    → IsProgress env.fwrite
    → All (IsMessage env) ms
    → 0 < sv.nodes
    → sv.nodes < 2 ^ 64
    → (n : ℕ) × (m : MasterRun) × (count_nodes sv.nodes ≡ some n)
      × (manage_master_services env stale rpc all_succeed sv ms rounds ≡ done m)
      × ((returns m.end ≡ true) ↔ (n ≤ exits env ms))
unfolding receiver_start
manage_master_services-returns env stale rpc sv ms rounds moves all pos fits =
    let n = length (targets 64 0 sv.nodes) in
    let some_ = length-targets_pos 64 0 sv.nodes fits pos in
    let few = length-targets_le 64 0 sv.nodes in
    let s = receiver_start sv n rpc in
    let ready = receiver_start-IsReady env sv n rpc fits in
    let (r, received, left) =
      receive_all-leaves env ms s moves all ready some_ (omega (arith, few)) in
    let redirect = has_service sv.services redirect_service in
    let (q, sent) = sender_returns redirect (link_of env stale sv) rounds fits in
    let m = joined_run r q in
    let same = returns_lem r.2 r.0.exit_status in
    let counted = count_nodes-targets sv.nodes fits in
    (
      n,
      m,
      counted,
      manage-joined env stale rpc sv ms rounds n r q counted received sent,
      (λ e. left.0 (sym same ∙ e), λ enough. same ∙ left.1 enough),
    )
