-- ===== src/Run/Sender/Tests.antt =====
-- Two reads that are sent to nodes 1 and 3.
use axiom_evi_apps.Prelude.{ℕ, ◌≡◌, refl, arith, Bool, true, false, List, [], ◌∷◌, none, done}
use axiom_evi_apps.Bits.{test_bit}
use axiom_evi_apps.Run.Nodes.{send_raw, send_loop}
use axiom_evi_apps.Run.Messages.{Message, Header, Effect, send, cmd_kill}
use axiom_evi_apps.Run.Slave.Receive.{wrote, Info, Arrival, arrived, receive_failed, recv_thread}
use axiom_evi_apps.Run.Slave.Stdin.{fed, Takes, AllTake}
use axiom_evi_apps.Run.Sender.{
  StdinRound, woken, end_asked, read_again, got, Link, send_to_slaves, master_sender, myexit,
}
use axiom_evi_apps.Run.Sender.Stdin.{
  read_bytes, stdin_to, stdin_messages, master_sender-recv_thread,
}

abbrev unset : Header
unset = record { command = 0; status = 77; barrier_id = 2; function = 3 }

abbrev link : Link
link = record { accepts = λ n. true; nodes = 0b1010; slave_port = 4; stale = unset }

abbrev rounds : List StdinRound
rounds = got (5 ∷ 6 ∷ []) ∷ (woken ∷ (got [] ∷ (read_again ∷ (got (7 ∷ []) ∷ (end_asked ∷ [])))))

abbrev info : Info
info = record { services = 0x26; termmode = 15; kill = λ sig. none }

abbrev to_child : ℕ → List ℕ → Message
to_child c raw = record { node = 0; header = record unset { command = c }; raw = raw }

abbrev arrivals : List Arrival
arrivals =
    arrived 1 (wrote 1 ∷ wrote 1 ∷ []) 0 (to_child 0x84 (5 ∷ 6 ∷ []))
    ∷ (receive_failed
        ∷ (arrived 1 [] 0 (to_child 0x85 [])
            ∷ (arrived 1 (wrote 1 ∷ []) 0 (to_child 0x84 (7 ∷ [])) ∷ [])))

master_sender-recv_thread_example :
    ((r : List Effect × Bool) × (master_sender link rounds ≡ done r))
    × (fed (recv_thread info arrivals false).1 ≡ 5 ∷ 6 ∷ 7 ∷ [])
unfolding test_bit read_bytes stdin_to stdin_messages master_sender send_to_slaves send_raw
    send_loop AllTake Takes
master_sender-recv_thread_example =
    master_sender-recv_thread 3 link rounds info arrivals false (omega arith) refl refl
      (tt, (tt, (tt, tt))) refl

killed :
    myexit link true true 0x8f
    ≡ done (
        send 1 4 (record unset { command = cmd_kill; status = 15 }) []
        ∷ (send 3 4 (record unset { command = cmd_kill; status = 15 }) [] ∷ []))
unfolding myexit send_to_slaves send_raw send_loop
killed = refl

spared : myexit link true false 2 ≡ done []
unfolding myexit
spared = refl

-- At the end of the file nothing is sent, and the thread reads again.
end_of_file : master_sender link (got [] ∷ (got [] ∷ [])) ≡ done ([], false)
unfolding master_sender
end_of_file = refl
