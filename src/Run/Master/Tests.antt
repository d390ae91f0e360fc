-- ===== src/Run/Master/Tests.antt =====
-- A run with two slaves.
use axiom_evi_apps.Prelude.{ℕ, ◌≤◌, ◌≡◌, refl, arith, true, false, List, [], ◌∷◌, some, done, ◌↔◌}
use axiom_evi_apps.Run.Nodes.{count_nodes, count_loop}
use axiom_evi_apps.Run.Rpc.{Pending}
use axiom_evi_apps.Run.Emit.Tests.{one_byte-IsProgress}
use axiom_evi_apps.Run.Receiver.Tests.{env, header, message-IsMessage, series}
use axiom_evi_apps.Run.Receiver.Ends.{exits}
use axiom_evi_apps.Run.Sender.{StdinRound, got, end_asked}
use axiom_evi_apps.Run.Master.{Services, MasterRun, manage_master_services, fails}
use axiom_evi_apps.Run.Master.Waiting.{returns, all_succeed, manage_master_services-returns}

abbrev unset : Pending
unset = record { reply_node = 0; reply_port = 0; reply_hdr = header 0 0 }

abbrev services : Services
services = record { services = 0x0f; nodes = 0b110; flags = 0x01 }

abbrev rounds : List StdinRound
rounds = got (5 ∷ []) ∷ (end_asked ∷ [])

manage_master_services-returns_example :
    (n : ℕ) × (m : MasterRun) × (count_nodes 0b110 ≡ some n)
    × (manage_master_services env (header 0 0) unset all_succeed services series rounds ≡ done m)
    × ((returns m.end ≡ true) ↔ (n ≤ exits env series))
manage_master_services-returns_example =
    manage_master_services-returns env (header 0 0) unset services series rounds one_byte-IsProgress
      (
        message-IsMessage 1 0x85 (omega arith),
        (message-IsMessage 1 0x80 (omega arith), (message-IsMessage 2 0x80 (omega arith), tt)),
      )
      (omega arith) (omega arith)

-- Without the eventfd nothing is started.
no_eventfd :
    manage_master_services env
      (header 0 0)
      unset
      (record all_succeed { eventfd = false })
      services
      series
      rounds
    ≡ done fails
unfolding manage_master_services count_nodes count_loop
no_eventfd = refl
