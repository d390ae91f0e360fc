-- ===== src/Tools/Netperf/Tests.antt =====
-- Runs of a throughput test.
use axiom_evi_apps.Prelude.{
  ◌%◌, ◌≤◌, ◌<◌, ◌≡◌, refl, arith, true, false, [], ◌∷◌, map, none, some, All,
}
use axiom_evi_apps.Tools.Netperf.{
  Sending, raw_long, raw_long_loop, begin, packet, Server, netperf_server, rdma_failed, rdma_end,
  daemon_reply, rdma_end, daemon_reply,
}
use axiom_evi_apps.Tools.Netperf.Counting.{netperf_server-raw_long}
use axiom_evi_apps.Tools.Netperf.Checks.{daemon_reply-filled}

abbrev idle : Server
idle = record { expected_bytes = 4; received_bytes = 9; reply_port = 0 }

-- Three packets, of which the last is cut.
three_packets :
    raw_long (λ n. true) 6 4 10
    ≡ some (record {
      client = record { total_bytes = 10; sent_bytes = 10; total_packets = 3 };
      sizes = 4 ∷ 4 ∷ 2 ∷ [];
      complete = true;
    })
unfolding raw_long raw_long_loop
three_packets = refl

-- The first packet is refused: it counts twice.
refused :
    raw_long (λ n. false) 6 4 10
    ≡ some (record {
      client = record { total_bytes = 10; sent_bytes = 8; total_packets = 2 };
      sizes = [];
      complete = false;
    })
unfolding raw_long raw_long_loop
refused = refl

netperf_server-raw_long_example :
    (r : Sending) × (raw_long (λ n. true) 11 4 10 ≡ some r)
    × (r.complete ≡ true)
    × (r.client.sent_bytes ≡ 10)
    × All (λ n. (0 < n) × (n ≤ 4)) r.sizes
    × ((netperf_server none (begin 10 7 ∷ map packet r.sizes) idle).1
        ≡ record { total_bytes = 10; error = false; port = 7 } ∷ [])
netperf_server-raw_long_example =
    netperf_server-raw_long (λ n. true) 4 10 7 none idle (λ n. refl) (omega arith) (omega arith)
      (omega arith)

daemon_reply-filled_example :
    (rdma_failed 8 (some (λ i. i % 8)) (λ k. k % 8) 16 ≡ false)
    × ((daemon_reply 5
          (some (λ i. i % 8))
          (rdma_end 16 (λ k. k % 8))
          (record { expected_bytes = 16; received_bytes = 0 })).1
        ≡ record { total_bytes = 16; error = true; port = 5 } ∷ [])
daemon_reply-filled_example =
    daemon_reply-filled (λ i. i % 8) (λ k. k % 8) 16 (λ i below. omega arith) 0 5
      (record { expected_bytes = 16; received_bytes = 0 }) (omega arith) (omega arith) (omega arith)
      (omega arith)
