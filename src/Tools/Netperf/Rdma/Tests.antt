-- ===== src/Tools/Netperf/Rdma/Tests.antt =====
-- Two RDMA tests, of two words and of a word and a half.
use axiom_evi_apps.Prelude.{
  ℕ, ◌+◌, ◌%◌, ltb, if◌then◌else◌, none, ◌≡◌, refl, arith, true, false, [], ◌∷◌, some, ◌==◌, not,
}
use axiom_evi_apps.Tools.Netperf.{payload_init, Server, netperf_server}
use axiom_evi_apps.Tools.Netperf.Rdma.{
  rdma_init, RdmaTest, delivered, rdma_client, rdma_loop, rdma_sync, rdma_rest, rdma_async,
  after_async, arrived, unwaited, write, wait,
}
use axiom_evi_apps.Tools.Netperf.Rdma.Transfer.{whole_client}
use axiom_evi_apps.Tools.Netperf.Rdma.Passed.{
  netperf_server-rdma_client, netperf_server-partial_word,
}

abbrev idle : Server
idle = record { expected_bytes = 4; received_bytes = 9; reply_port = 0 }

netperf_server-rdma_client_example :
    (t : RdmaTest) × (rdma_client false
        (λ n. true)
        (λ a. true)
        (λ m. true)
        16
        7
        (λ k. k + 3)
        (rdma_init 8 64 0 16 (λ k. k + 3) (some (32, λ a. 0)))
      ≡ some t)
    × (t.passed ≡ true)
    × ((a : ℕ) → delivered t.zone (λ a. 1) [] t.events a ≡ (if ltb a 16 then a % 8 + 3 else 1))
    × ((netperf_server (some (delivered t.zone (λ a. 1) [] t.events)) t.messages idle).1
        ≡ record { total_bytes = 16; error = false; port = 7 } ∷ [])
netperf_server-rdma_client_example =
    netperf_server-rdma_client 8 64 0 32 16 7 (λ k. k + 3) (λ a. 0) (λ a. 1) (λ n. true) (λ a. true)
      (λ m. true) idle {size = 8} (λ n. refl) (λ n. refl) (λ m. refl) (unfold payload_init in refl)
      (omega arith) (omega arith) false refl

netperf_server-partial_word_example :
    (t : RdmaTest) × (rdma_client true
        (λ n. true)
        (λ a. true)
        (λ m. true)
        12
        7
        (λ k. k + 3)
        (rdma_init 8 64 0 12 (λ k. k + 3) (some (32, λ a. 0)))
      ≡ some t)
    × (t.passed ≡ true)
    × ((a : ℕ) → delivered t.zone (λ a. 1) [] t.events a ≡ (if ltb a 12 then a % 8 + 3 else 1))
    × ((netperf_server (some (delivered t.zone (λ a. 1) [] t.events)) t.messages idle).1
        ≡ record { total_bytes = 12; error = true; port = 7 } ∷ [])
netperf_server-partial_word_example =
    netperf_server-partial_word 8 64 0 32 12 7 (λ k. k + 3) (λ a. 0) (λ a. 1) (λ n. true)
      (λ a. true) (λ m. true) idle {size = 8} (λ n. refl) (λ n. refl) (λ m. refl)
      (unfold payload_init in refl) (omega arith) (omega arith) true (omega arith) (omega arith)

-- A write that fails is counted down again.
taken_back :
    rdma_sync (λ a. not (a == 8)) 17 8 (whole_client 16)
    ≡ some (record {
      client = record { total_bytes = 16; sent_bytes = 8; total_packets = 1 };
      events = write 0 8 none ∷ [];
      token = 0;
      ok = false;
    })
unfolding rdma_sync rdma_loop rdma_rest
taken_back = refl

-- A write with a token is not sure to have arrived without a wait.
on_the_way : delivered (λ a. 5) (λ a. 1) [] (write 0 8 (some 0) ∷ []) 3 ≡ 1
unfolding delivered
on_the_way = refl

waited_for : delivered (λ a. 5) (λ a. 1) [] (write 0 8 (some 0) ∷ (wait 1 ∷ [])) 3 ≡ 5
unfolding delivered arrived unwaited
waited_for = refl

-- The result of the last wait is the client's.
last_wait_fails :
    rdma_async (λ n. false) (λ a. true) 9 8 (whole_client 8)
    ≡ some (record {
      client = record { total_bytes = 8; sent_bytes = 8; total_packets = 1 };
      events = write 0 8 (some 0) ∷ (wait 1 ∷ []);
      token = 1;
      ok = false;
    })
unfolding rdma_async rdma_loop rdma_rest after_async
last_wait_fails = refl
