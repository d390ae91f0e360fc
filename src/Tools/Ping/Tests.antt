-- ===== src/Tools/Ping/Tests.antt =====
-- Two messages to node 5, with another run's answer in between.
use axiom_evi_apps.Prelude.{ℕ, ◌^◌, ◌≡◌, refl, arith, true, false, List, [], ◌∷◌, map, none, some}
use axiom_evi_apps.Init.Replies.{Command, ping, pong, Ping, axiom_pong}
use axiom_evi_apps.Tools.Ping.{
  PingOption, dest, interval, count, verbose, ping_options, quits, not_reachable, sender_body,
  Reception, receive_pings,
}
use axiom_evi_apps.Tools.Ping.Report.{
  Device, reported, waiting, report, run_threads, join_sender, ping_main,
}
use axiom_evi_apps.Tools.Ping.Sending.{calm, requests}
use axiom_evi_apps.Tools.Ping.Hearing.{nothing_more, foreign, answer, hears, printed}
use axiom_evi_apps.Tools.Ping.Times.{total, least_of, greatest_of}
use axiom_evi_apps.Tools.Ping.Answers.{ping_main-Answered}

abbrev message_at : Command → ℕ → ℕ → ℕ → Ping
message_at c id seq t = record { command = c; unique_id = id; seq_num = seq; timestamp = t }

abbrev receptions : List Reception
receptions =
    hears 5 (message_at pong 7 1 10) 17
    ∷ (hears 5 (message_at pong 9 2 11) 18 ∷ (hears 5 (message_at pong 7 2 30) 35 ∷ []))

abbrev dev : Device
dev = record {
  node = some 1;
  bound = true;
  unique_id = 7;
  created = true;
  joined = true;
  signal_early = false;
  rounds = map calm (10 ∷ 30 ∷ []);
  received = λ dst ps. receptions;
}

abbrev options : List PingOption
options = dest (some 5) ∷ interval true ∷ count (some 2) ∷ []

ping_main-Answered_example : ping_main 16 dev options ≡ record {
  lines = (5, (1, 7)) ∷ (5, (2, 5)) ∷ [];
  end = reported (record { sent_packets = 2; recv_packets = 2; rtt = some (5, (12, 7)) });
}
unfolding requests printed total least_of greatest_of
ping_main-Answered_example =
    ping_main-Answered 16 5 7 (5 ∷ []) (10 ∷ 30 ∷ []) dev options {here = 1}
      (unfold ping_options in refl) refl refl refl refl refl refl (omega arith) (omega arith)
      (answer {p = message_at ping 7 1 10} {m = message_at pong 7 1 10} {now = 17}
        (unfold axiom_pong in refl) (omega arith) (omega arith)
        (foreign refl (
          answer {p = message_at ping 7 2 30} {m = message_at pong 7 2 30} {now = 35}
            (unfold axiom_pong in refl) (omega arith) (omega arith) nothing_more)))

-- A count that does not fit an int is negative for the sender: it sends nothing.
negative_count :
    run_threads 16 (record dev { received = λ dst ps. [] }) 5 (some (2 ^ 31))
    ≡ record { lines = []; end = waiting }
unfolding run_threads sender_body receive_pings join_sender
negative_count = refl

-- A message that cannot be sent is add_time, and its answer is awaited.
unreachable :
    run_threads 16
      (record dev {
        rounds = record { interrupted = false; clock = some 3; result = not_reachable } ∷ [];
        received = λ dst ps. [];
      })
      5
      (some 1)
    ≡ record { lines = []; end = waiting }
unfolding run_threads sender_body receive_pings join_sender
unreachable = refl

-- A count of 0: nothing is sent, so the loss is 0 divided by 0.
no_count : run_threads 16 dev 5 (some 0) ≡ record {
  lines = [];
  end = reported (record { sent_packets = 0; recv_packets = 0; rtt = none });
}
unfolding run_threads sender_body receive_pings join_sender report
no_count = refl

out_of_range : ping_options (dest (some 255) ∷ verbose ∷ []) none none ≡ quits false
unfolding ping_options
out_of_range = refl
