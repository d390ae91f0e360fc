-- ===== src/Run/Slave/Tests.antt =====
-- Runs of a slave.
use axiom_evi_apps.Prelude.{
  ℕ, ◌%◌, ◌≡◌, refl, arith, true, false, List, [], ◌∷◌, ◌++◌, map, none, some, done, ◌==◌, not,
  ◌&&◌,
}
use axiom_evi_apps.Run.Messages.{Message}
use axiom_evi_apps.Run.Exit.{on_exits, exit_mode}
use axiom_evi_apps.Run.Exit.Tests.{linux}
use axiom_evi_apps.Run.Slave.Output.{
  select_interrupted, end_request, readable, gets, interrupted, send_thread,
}
use axiom_evi_apps.Run.Slave.Forward.{payload}
use axiom_evi_apps.Run.Slave.Drained.{all_ready}
use axiom_evi_apps.Run.Slave.Receive.{
  Writing, wrote, write_stdin, Info, Arrival, arrived, end_request, receive_failed, recv_thread,
  on_message, on_kill, signal, barrier_datagram,
}
use axiom_evi_apps.Run.Slave.Stdin.{fed}
use axiom_evi_apps.Run.Slave.Services.{
  Signals, reported, ended, Answers, Served, manage_slave_services,
}
use axiom_evi_apps.Run.Slave.Ending.{manage_slave_services-output, on_exits-killed}

abbrev signals : Signals
signals = record {
  signaled = λ s. not (s % 128 == 0) && not (s % 128 == 127);
  term_signal = λ s. s % 128;
}

abbrev info : Info
info = record { services = 0x26; termmode = 15; kill = λ sig. none }

abbrev command : ℕ → List ℕ → Message
command c raw = record {
  node = 1;
  header = record { command = c; status = 0; barrier_id = 2; function = 0 };
  raw = raw;
}

-- Two messages for the standard input, written in three pieces, and one to kill.
abbrev arrivals : List Arrival
arrivals =
    arrived 1 (wrote 2 ∷ Writing.interrupted ∷ wrote 0 ∷ wrote 1 ∷ []) 0
      (command 0x84 (5 ∷ 6 ∷ 7 ∷ []))
    ∷ receive_failed
    ∷ arrived 1 [] 0 (command 0x81 [])
    ∷ arrived 1 (wrote 1 ∷ []) 0 (command 0x84 (8 ∷ []))
    ∷ []

fed_bytes : fed (recv_thread info arrivals false).1 ≡ 5 ∷ 6 ∷ 7 ∷ 8 ∷ []
unfolding fed recv_thread on_message on_kill write_stdin
fed_bytes = refl

-- When `kill` fails for another reason than a missing process, SIGKILL follows.
refused_kill : on_kill (record info { kill = λ sig. some 1 }) ≡ signal 15 ∷ signal 9 ∷ []
unfolding on_kill
refused_kill = refl

-- `select` reports one descriptor, and one byte of the barrier message goes on.
short_datagram :
    on_message (record info { services = 0x01 }) 1 [] 0 (command 0x85 [])
    ≡ (false, barrier_datagram 2 1 ∷ [])
unfolding on_message
short_datagram = refl

abbrev answers : Answers
answers = record {
  capacity = 4;
  signals = signals;
  out_wakeups = readable (gets 1) ∷ select_interrupted ∷ readable interrupted ∷ end_request ∷ [];
  err_wakeups = end_request ∷ [];
  arrivals = arrivals;
  late = [];
  requests = [];
  waits = ended 15;
  rounds = all_ready ((0, 0) ∷ (1, 0) ∷ (0, 0) ∷ (7, 7) ∷ []);
}

manage_slave_services-output_example :
    (served : Served) × (manage_slave_services answers info true (1 ∷ 2 ∷ 3 ∷ 4 ∷ 5 ∷ []) (9 ∷ [])
      ≡ done served)
    × (payload (served.from_out ++ served.last_out) ≡ 1 ∷ 2 ∷ 3 ∷ 4 ∷ 5 ∷ [])
    × (payload (served.from_err ++ served.last_err) ≡ 9 ∷ [])
manage_slave_services-output_example =
    manage_slave_services-output answers info ((0, 0) ∷ (1, 0) ∷ (0, 0) ∷ (7, 7) ∷ [])
      (1 ∷ 2 ∷ 3 ∷ 4 ∷ 5 ∷ []) (9 ∷ []) refl refl (omega arith) (unfold send_thread in omega arith)
      (unfold send_thread in omega arith)

on_exits-killed_example :
    linux.exit_code
      (on_exits linux 0x00
        (768 ∷ map (reported signals true 15) (15 ∷ 15 ∷ []))
        (record { services = 0x2e; exit_status = 0 })).exit_status
    ≡ linux.exit_code 768
on_exits-killed_example =
    on_exits-killed linux signals 0x00 15 768 (15 ∷ 15 ∷ [])
      (record { services = 0x2e; exit_status = 0 }) (unfold exit_mode in ground arith)
      (unfold exit_mode in ground arith) (unfold exit_mode in ground arith) refl refl
      ((refl, refl), ((refl, refl), tt))
