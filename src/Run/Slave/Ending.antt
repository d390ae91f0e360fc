-- ===== src/Run/Slave/Ending.antt =====
-- What a slave leaves to the master: the output in full and the exit status.
use axiom_evi_apps.Prelude.{
  ℕ, ◌<◌, ◌≡◌, refl, ◌≢◌, arith, Bool, true, false, List, [], ◌∷◌, ◌++◌, map, length, done, ◌||◌,
  All,
}
use axiom_evi_apps.Run.Messages.{has_service, barrier_service, redirect_service, rpc_service_bit}
use axiom_evi_apps.Run.Exit.{
  WaitStatus, nofail, lesser, last, exit_mode, exit_service, Status, has_exit_service, on_exits,
}
use axiom_evi_apps.Run.Exit.Zeros.{on_exits-zeros}
use axiom_evi_apps.Run.Slave.Output.{send_thread, cmd_out, cmd_err}
use axiom_evi_apps.Run.Slave.Forward.{payload}
use axiom_evi_apps.Run.Slave.Drained.{all_ready, drain-send_thread_complete}
use axiom_evi_apps.Run.Slave.Receive.{Info, kill_service}
use axiom_evi_apps.Run.Slave.Services.{
  plan, send_stdout, send_stderr, receive, socket, threads, runs, Signals, reported, Answers,
  Served, manage_slave_services,
}

runs-plan :
    (output commands child : Bool)
    → (runs send_stdout (plan output commands child) ≡ output)
      × (runs send_stderr (plan output commands child) ≡ output)
      × (runs receive (plan output commands child) ≡ commands)
      × (runs socket (plan output commands child) ≡ child)
unfolding runs
runs-plan true true true = (refl, refl, refl, refl)
runs-plan true true false = (refl, refl, refl, refl)
runs-plan true false true = (refl, refl, refl, refl)
runs-plan true false false = (refl, refl, refl, refl)
runs-plan false true true = (refl, refl, refl, refl)
runs-plan false true false = (refl, refl, refl, refl)
runs-plan false false true = (refl, refl, refl, refl)
runs-plan false false false = (refl, refl, refl, refl)

-- Which threads run: the two for the output with the redirect service, the receiver with the
-- redirect, exit or kill service, the one for the child's socket with the barrier or RPC service.
-- So with the barrier or RPC service alone the child's requests go to the master, and nobody
-- receives the answers.
pub runs-threads :
    (services : ℕ)
    → (runs send_stdout (threads services) ≡ has_service services redirect_service)
      × (runs send_stderr (threads services) ≡ has_service services redirect_service)
      × (runs receive (threads services) ≡ (
          has_service services redirect_service
          || (has_service services exit_service || has_service services kill_service)))
      × (runs socket (threads services)
          ≡ (has_service services barrier_service || has_service services rpc_service_bit))
unfolding threads
runs-threads services = runs-plan _ _ _

-- A redirecting slave whose child was started ends with all of the child's output on its way to the
-- master, in order, when the last loop finds both pipes ready in more rounds than either holds
-- bytes then.
pub manage_slave_services-output :
    (answers : Answers) (info : Info) (extras : List (ℕ × ℕ)) (out err : List ℕ)
    → has_service info.services redirect_service ≡ true
    → answers.rounds ≡ all_ready extras
    → 0 < answers.capacity
    → length (send_thread answers.capacity cmd_out answers.out_wakeups out).pipe < length extras
    → length (send_thread answers.capacity cmd_err answers.err_wakeups err).pipe < length extras
    → (served : Served) × (manage_slave_services answers info true out err ≡ done served)
      × (payload (served.from_out ++ served.last_out) ≡ out)
      × (payload (served.from_err ++ served.last_err) ≡ err)
unfolding manage_slave_services
manage_slave_services-output answers info extras out err redirect ready room enough enough' =
    let started = runs-threads info.services in
    let complete =
      drain-send_thread_complete answers.capacity answers.out_wakeups answers.err_wakeups extras out
        err room enough enough' in
    (
      _,
      refl,
      rw (started.0, redirect, ready) complete.0,
      rw (started.1, redirect, ready) complete.1,
    )

reported-zero :
    (signals : Signals) (termmode : ℕ) (statuses : List ℕ)
    → All (λ st. (signals.signaled st ≡ true) × (signals.term_signal st ≡ termmode)) statuses
    → All (λ st. st ≡ 0) (map (reported signals true termmode) statuses)
unfolding reported
reported-zero signals termmode [] all = tt
reported-zero signals termmode (st ∷ sts) all =
    (ground (arith, all.0), reported-zero signals termmode sts all.1)

-- The exit service as a whole: the first child to exit decides. The master's exit code is that of
-- the first exit message, when the other slaves kill their children on the master's command and
-- these die of the signal that was chosen, in every mode but no-fail, the least and the last.
pub on_exits-killed :
    (w : WaitStatus) (signals : Signals) (flags termmode r : ℕ) (statuses : List ℕ) (s : Status)
    → exit_mode flags ≢ nofail
    → exit_mode flags ≢ lesser
    → exit_mode flags ≢ last
    → has_exit_service s.services ≡ true
    → w.exited r ≡ true
    → All (λ st. (signals.signaled st ≡ true) × (signals.term_signal st ≡ termmode)) statuses
    → w.exit_code
        (on_exits w flags (r ∷ map (reported signals true termmode) statuses) s).exit_status
      ≡ w.exit_code r
on_exits-killed w signals flags termmode r statuses s fails low back on ex killed =
    on_exits-zeros w flags r (map (reported signals true termmode) statuses) s fails low back on ex
      (reported-zero signals termmode statuses killed)
