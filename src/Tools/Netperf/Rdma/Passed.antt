-- ===== src/Tools/Netperf/Rdma/Passed.antt =====
-- An RDMA test from the client's zone to the server's answer.
use axiom_evi_apps.Prelude.{
  ℕ, suc, ◌-◌, ◌%◌, ◌^◌, ◌≤◌, ◌<◌, ◌≡◌, ◌≢◌, refl, sym, arith, ap, ◌∙◌, Bool, true, false, List, [],
  ◌∷◌, some, ltb, if◌then◌else◌, Bool-cases, inl, inr,
}
use axiom_evi_apps.Tools.Netperf.{
  payload_init, NetMessage, begin, rdma_end, Server, rdma_failed, reply_to_message, server_reply,
  netperf_server,
}
use axiom_evi_apps.Tools.Netperf.Checks.{filled_passes, partial_word_fails}
use axiom_evi_apps.Tools.Netperf.Rdma.{
  fill, rdma_init, Writing, RdmaTest, delivered, rdma_sync, rdma_async, axnetperf_rdma, rdma_client,
}
use axiom_evi_apps.Tools.Netperf.Rdma.Filled.{fill_lem}
use axiom_evi_apps.Tools.Netperf.Rdma.Transfer.{
  Delivers, whole_client, rdma_sync-Delivers, rdma_async-Delivers,
}

answer :
    (region : ℕ → ℕ) (magic : ℕ → ℕ) (total port : ℕ) (before : Server)
    → (netperf_server (some region) (begin total port ∷ rdma_end total magic ∷ []) before).1
      ≡ record { total_bytes = total; error = rdma_failed 8 (some region) magic total; port = port }
        ∷ []
unfolding netperf_server server_reply reply_to_message
answer region magic total port before = refl

payload_init_pos :
    (default max_size payload_size size : ℕ)
    → payload_init default max_size payload_size ≡ some size
    → 0 < size
unfolding payload_init
payload_init_pos default max_size payload_size size e = ground arith

module _ (waited accepts : ℕ → Bool) (wait_ends : (n : ℕ) → waited n ≡ true)
    (all : (n : ℕ) → accepts n ≡ true) (sends : NetMessage → Bool)
    (sent : (m : NetMessage) → sends m ≡ true) (size total port : ℕ) (magic zone : ℕ → ℕ)
    (pos : 0 < size) (fits : total < 2 ^ 64) where
  transferred :
      (sync : Bool)
      → (r : Writing) × ((if sync
            then rdma_sync accepts (suc total) size (whole_client total)
            else rdma_async waited accepts (suc total) size (whole_client total))
          ≡ some r)
        × (r.ok ≡ true)
        × (r.client.sent_bytes ≡ total)
        × Delivers zone total r.events
  transferred true = rdma_sync-Delivers accepts all size total pos fits zone
  transferred false = rdma_async-Delivers accepts all size total pos fits zone waited wait_ends

  rdma_client_lem :
      (sync : Bool)
      → (t : RdmaTest) × (rdma_client sync waited accepts sends total port magic (some (size, zone))
          ≡ some t)
        × (t.passed ≡ true)
        × (t.messages ≡ begin total port ∷ rdma_end total magic ∷ [])
        × (t.zone ≡ zone)
        × Delivers zone total t.events
  unfolding rdma_client axnetperf_rdma
  rdma_client_lem sync =
      let (r, runs, whole, all_sent, delivers) = transferred sync in
      (
        record {
          events = r.events;
          zone = zone;
          messages = begin total port ∷ rdma_end total magic ∷ [];
          passed = true;
        },
        rw (sent (begin total port), runs, whole, all_sent, sent (rdma_end total magic)) refl,
        refl,
        refl,
        refl,
        delivers,
      )

  -- What the server answers, by its zone after the transfer.
  answered :
      (sync : Bool) (remote : ℕ → ℕ) (before : Server) (failed : Bool)
      → ((region : ℕ → ℕ)
          → ((a : ℕ) → region a ≡ (if ltb a total then zone a else remote a))
          → rdma_failed 8 (some region) magic total ≡ failed)
      → (t : RdmaTest) × (rdma_client sync waited accepts sends total port magic (some (size, zone))
          ≡ some t)
        × (t.passed ≡ true)
        × ((netperf_server (some (delivered t.zone remote [] t.events)) t.messages before).1
            ≡ record { total_bytes = total; error = failed; port = port } ∷ [])
        × ((a : ℕ)
            → delivered t.zone remote [] t.events a ≡ (if ltb a total then zone a else remote a))
  unfolding Delivers
  answered sync remote before failed check =
      let (t, runs, passed, messages, same, delivers) = rdma_client_lem sync in
      let region = delivered t.zone remote [] t.events in
      let zones =
        λ (a : ℕ). ap (λ (z : ℕ → ℕ). delivered z remote [] t.events a) same ∙ delivers remote a in
      (
        t,
        runs,
        passed,
        ap (λ (ms : List NetMessage). (netperf_server (some region) ms before).1) messages
            ∙ answer region magic total port before
            ∙ ap (λ (b : Bool). record { total_bytes = total; error = b; port = port } ∷ [])
                (check region zones),
        zones,
      )

module _ (default max_size payload_size rdma_size total port : ℕ) (magic zone remote : ℕ → ℕ)
    (waited accepts : ℕ → Bool) (sends : NetMessage → Bool) (before : Server) {size : ℕ}
    (wait_ends : (n : ℕ) → waited n ≡ true) (all : (n : ℕ) → accepts n ≡ true)
    (sent : (m : NetMessage) → sends m ≡ true)
    (sized : payload_init default max_size payload_size ≡ some size) (room : total ≤ rdma_size)
    (small : total < 2 ^ 31 - 8) where
  ready :
      rdma_init default max_size payload_size total magic (some (rdma_size, zone))
      ≡ some (size, fill total 0 magic total zone)
  unfolding rdma_init
  ready =
      let enough : ltb rdma_size total ≡ false = ground arith in rw (rdma_init, sized, enough) refl

  -- The bytes of the magic number, in the part of the zone that is sent.
  filled_at :
      (a : ℕ)
      → (if ltb a total then fill total 0 magic total zone a else remote a)
        ≡ (if ltb a total then magic (a % 8) else remote a)
  filled_at a = elim (Bool-cases (ltb a total)) [
    | inl inside ↦ rw inside (
        fill_lem total 0 magic total zone a (omega arith) (omega arith) (omega arith)
          (ground arith))
    | inr outside ↦ rw outside refl
  ]

  -- An RDMA test of whole words, synchronous or not, over a network that accepts every write and
  -- message, and whose waits succeed, with a payload size that is accepted and a total that has room in the
  -- client's zone and is small enough for an index of type int. What is sure to be in the server's
  -- zone when the end message is sent, where a write without a wait of its own is sure only after a
  -- wait for its token, is the magic number in each byte below the total, and what was there before
  -- behind. The client succeeds, and the server answers once, with the total and without an error.
  pub netperf_server-rdma_client :
      (sync : Bool)
      → total % 8 ≡ 0
      → (t : RdmaTest) × (rdma_client sync waited accepts sends total port magic
            (rdma_init default max_size payload_size total magic (some (rdma_size, zone)))
          ≡ some t)
        × (t.passed ≡ true)
        × ((a : ℕ)
            → delivered t.zone remote [] t.events a
              ≡ (if ltb a total then magic (a % 8) else remote a))
        × ((netperf_server (some (delivered t.zone remote [] t.events)) t.messages before).1
            ≡ record { total_bytes = total; error = false; port = port } ∷ [])
  netperf_server-rdma_client sync words =
      let filled = fill total 0 magic total zone in
      let (t, runs, passed, reply, zones) =
        answered waited accepts wait_ends all sends sent size total port magic filled
          (payload_init_pos default max_size payload_size size sized) (omega arith) sync remote
          before false
          (λ region holds. filled_passes region magic total (λ i below.
            let inside : ltb i total ≡ true = ground (arith, words) in
            holds i
            ∙ (rw inside (
                fill_lem total 0 magic total zone i (omega arith) (omega arith) (omega arith)
                  below)))) in
      (
        t,
        ap (rdma_client sync waited accepts sends total port magic) ready ∙ runs,
        passed,
        λ a. zones a ∙ filled_at a,
        reply,
      )

  -- An RDMA test with a last word that is not whole, synchronous or not, over a network that accepts
  -- every write and message, and whose waits succeed, with a payload size that is accepted and a total
  -- that has room in the client's zone and is small enough for an index of type int, when the byte of
  -- the server's zone behind the total is not the magic number's: each byte below the total is sure
  -- to have arrived, the client succeeds, and yet the server reports an error.
  pub netperf_server-partial_word :
      (sync : Bool)
      → total % 8 ≢ 0
      → remote total ≢ magic (total % 8)
      → (t : RdmaTest) × (rdma_client sync waited accepts sends total port magic
            (rdma_init default max_size payload_size total magic (some (rdma_size, zone)))
          ≡ some t)
        × (t.passed ≡ true)
        × ((a : ℕ)
            → delivered t.zone remote [] t.events a
              ≡ (if ltb a total then magic (a % 8) else remote a))
        × ((netperf_server (some (delivered t.zone remote [] t.events)) t.messages before).1
            ≡ record { total_bytes = total; error = true; port = port } ∷ [])
  netperf_server-partial_word sync partial differ =
      let filled = fill total 0 magic total zone in
      let (t, runs, passed, reply, zones) =
        answered waited accepts wait_ends all sends sent size total port magic filled
          (payload_init_pos default max_size payload_size size sized) (omega arith) sync remote
          before true
          (λ region holds.
            let outside : ltb total total ≡ false = ground arith in
            let left : region total ≡ remote total = holds total ∙ (rw outside refl) in
            partial_word_fails total region magic partial (λ e. differ (sym left ∙ e))) in
      (
        t,
        ap (rdma_client sync waited accepts sends total port magic) ready ∙ runs,
        passed,
        λ a. zones a ∙ filled_at a,
        reply,
      )
