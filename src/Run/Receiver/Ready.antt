-- ===== src/Run/Receiver/Ready.antt =====
-- No message from a slave makes the receiver fail.
use axiom_evi_apps.Prelude.{
  ◌^◌, ◌≤◌, ◌<◌, ◌≡◌, refl, Bool, true, false, List, [], ◌∷◌, ◌++◌, if◌then◌else◌, Outcome, done,
  Bool-cases, inl, inr, All, leb, ◌↔◌, length, get_or, set,
}
use axiom_evi_apps.Run.Messages.{
  Message, Effect, has_service, barrier_service, redirect_service, rpc_service_bit, cmd_kill,
  to_stdout, to_stderr,
}
use axiom_evi_apps.Run.Emit.{flush}
use axiom_evi_apps.Run.Emit.Output.{IsProgress}
use axiom_evi_apps.Run.Emit.Text.{IsBuffered, emit-keeps_bytes}
use axiom_evi_apps.Run.Exit.{on_exit}
use axiom_evi_apps.Run.Receiver.{
  Env, Master, Kind, kind, dispatch, leaves, receive_all, on_barrier, on_exit_message, on_stdout,
  on_stderr, on_rpc, reach_barrier, max_barrier_id, decrement,
}
use axiom_evi_apps.Run.Receiver.Barrier.{broadcast_lem}
use axiom_evi_apps.Run.Receiver.Ends.{exits, receive_all-leaves_iff}

-- The output buffers of all the nodes are in order, and the mask is one of 64 bits.
pub record IsReady (env : Env) (s : Master) : Type 0 where
  pub out_buffered : IsBuffered env.max_buffer s.infoout
  pub err_buffered : IsBuffered env.max_buffer s.infoerr
  pub mask : s.nodes < 2 ^ 64

-- A message of one of the 63 nodes, whose bytes fit the buffers.
pub record IsMessage (env : Env) (m : Message) : Type 0 where
  pub from_node : m.node < 63
  pub fits : length m.raw ≤ env.max_buffer

module _ (env : Env) (m : Message) (s : Master) (ready : IsReady env s) where
  abbrev Serves : Outcome (Master × List Effect) → Type 0
  Serves result = (r : Master × List Effect) × (result ≡ done r) × IsReady env r.0

  nothing_done : Serves (done (s, []))
  nothing_done = ((s, []), refl, ready)

  on_stdout-Serves : IsProgress env.fwrite → IsMessage env m → Serves (on_stdout env m s)
  unfolding on_stdout
  on_stdout-Serves moves ok =
      let (items, info, ends, _, _, buffered) =
        emit-keeps_bytes env.fwrite env.max_buffer s.flags m.node m.raw s.infoout moves ok.from_node
          ok.fits ready.out_buffered in
      (
        (record s { infoout = info }, to_stdout items ∷ []),
        rw ends refl,
        record { out_buffered = buffered; err_buffered = ready.err_buffered; mask = ready.mask },
      )

  on_stderr-Serves : IsProgress env.fwrite → IsMessage env m → Serves (on_stderr env m s)
  unfolding on_stderr
  on_stderr-Serves moves ok =
      let (items, info, ends, _, _, buffered) =
        emit-keeps_bytes env.fwrite env.max_buffer s.flags m.node m.raw s.infoerr moves ok.from_node
          ok.fits ready.err_buffered in
      (
        (record s { infoerr = info }, to_stderr items ∷ []),
        rw ends refl,
        record { out_buffered = ready.out_buffered; err_buffered = buffered; mask = ready.mask },
      )

  -- The same buffers and the same mask.
  still-IsReady :
      (s' : Master)
      → s'.infoout ≡ s.infoout
      → s'.infoerr ≡ s.infoerr
      → s'.nodes ≡ s.nodes
      → IsReady env s'
  still-IsReady s' out err nodes = record {
    out_buffered = rw out ready.out_buffered;
    err_buffered = rw err ready.err_buffered;
    mask = rw nodes ready.mask;
  }

  on_exit_message-Serves : Serves (on_exit_message env m s)
  unfolding on_exit_message
  on_exit_message-Serves =
      let (status, kill) =
        on_exit env.wait s.flags m.header.status
          (record { services = s.services; exit_status = s.exit_status }) in
      let s' = record s {
        services = status.services;
        exit_status = status.exit_status;
        exit_counter = decrement s.exit_counter;
      } in
      let (es, sent, _) =
        broadcast_lem env s.nodes (record (m.header) { command = cmd_kill }) ready.mask in
      elim (Bool-cases kill) [
        | inl kills ↦ ((s', es), rw (kills, sent) refl, still-IsReady s' refl refl refl)
        | inr spares ↦ ((s', []), rw spares refl, still-IsReady s' refl refl refl)
      ]

  on_barrier-Serves : Serves (on_barrier env m s)
  unfolding on_barrier
  on_barrier-Serves =
      let id = m.header.barrier_id in
      let (counter, opens) = reach_barrier env s.nnodes (get_or s.barrier id 0) in
      let s' = record s { barrier = set s.barrier id counter } in
      let (es, sent, _) = broadcast_lem env s.nodes m.header ready.mask in
      elim (Bool-cases (leb id max_barrier_id)) [
        | inl served ↦ (elim (Bool-cases opens) [
          | inl opened ↦ ((s', es), rw (served, opened, sent) refl, still-IsReady s' refl refl refl)
          | inr waits ↦ ((s', []), rw (served, waits) refl, still-IsReady s' refl refl refl)
        ])
        | inr ignored ↦ ((s, []), rw ignored refl, ready)
      ]

  -- A branch behind its service.
  guarded :
      (service : Bool) (served : Outcome (Master × List Effect))
      → Serves served
      → Serves (if service then served else done (s, []))
  guarded true served h = h
  guarded false served h = nothing_done

  dispatch-Serves :
      (k : Kind) → IsProgress env.fwrite → IsMessage env m → Serves (dispatch env k m s)
  unfolding dispatch
  dispatch-Serves Kind.stderr moves ok =
      guarded (has_service s.services redirect_service) (on_stderr env m s)
        (on_stderr-Serves moves ok)
  dispatch-Serves Kind.stdout moves ok =
      guarded (has_service s.services redirect_service) (on_stdout env m s)
        (on_stdout-Serves moves ok)
  dispatch-Serves Kind.exit moves ok = on_exit_message-Serves
  dispatch-Serves Kind.barrier moves ok =
      guarded (has_service s.services barrier_service) (on_barrier env m s) on_barrier-Serves
  dispatch-Serves Kind.rpc moves ok =
      guarded (has_service s.services rpc_service_bit) (done (on_rpc env m s))
        (on_rpc env m s, refl, unfold on_rpc in still-IsReady _ refl refl refl)
  dispatch-Serves Kind.unknown moves ok = nothing_done

receive_all-returns :
    (env : Env) (ms : List Message) (s : Master)
    → IsProgress env.fwrite
    → All (IsMessage env) ms
    → IsReady env s
    → (r : Master × List Effect × Bool) × (receive_all env ms s ≡ done r)
unfolding receive_all
receive_all-returns env [] s moves all ready = ((s, [], false), refl)
receive_all-returns env (m ∷ ms) s moves all ready =
    let k = kind env m.header.command in
    let (q, ends, ready') = dispatch-Serves env m s ready k moves all.0 in
    let (t, goes_on) = receive_all-returns env ms q.0 moves all.1 ready' in
    elim (Bool-cases (leaves env k q.0)) [
      | inl left ↦
          let (out, infoout) = flush env.fwrite q.0.flags q.0.infoout in
          let (err, infoerr) = flush env.fwrite q.0.flags q.0.infoerr in
          (
            (
              record (q.0) { infoout = infoout; infoerr = infoerr },
              q.1 ++ to_stdout out ∷ to_stderr err ∷ [],
              true,
            ),
            rw (ends, left, receive_all) refl,
          )
      | inr stays ↦ ((t.0, q.1 ++ t.1, t.2), rw (ends, stays, goes_on, receive_all) refl)
    ]

-- From ready buffers and a mask of 64 bits, with n > 0 slaves that have not ended, the receiver
-- returns on any messages of the 63 nodes whose bytes fit the buffers, and it has left its loop
-- exactly if n or more of them are exit messages.
pub receive_all-leaves :
    (env : Env) (ms : List Message) (s : Master)
    → IsProgress env.fwrite
    → All (IsMessage env) ms
    → IsReady env s
    → 0 < s.exit_counter
    → s.exit_counter < 2 ^ 32
    → (r : Master × List Effect × Bool) × (receive_all env ms s ≡ done r)
      × ((r.2 ≡ true) ↔ (s.exit_counter ≤ exits env ms))
receive_all-leaves env ms s moves all ready pos small =
    let (r, ends) = receive_all-returns env ms s moves all ready in
    (r, ends, receive_all-leaves_iff env ms s r ends pos small)
