-- ===== src/Tools/Netperf/Counting.antt =====
-- The client and the server count the same bytes.
use mathlib.Core.Option
use mathlib.Core.Path.{subst}
use native.Mathlib.Nat.{mod-eq_of_lt}
use axiom_evi_apps.Prelude.{
  ℕ, zero, suc, ◌+◌, ◌-◌, ◌^◌, ◌≤◌, ◌<◌, ◌≡◌, refl, sym, arith, ap, Bool, true, false, List, [],
  ◌∷◌, ◌++◌, map, Option, some, ltb, leb, All, Bool-cases, inl, inr, ◌∙◌,
}
use axiom_evi_apps.Tools.Netperf.{
  add64, Client, counted, next_size, Sending, sent_first, raw_long_loop, raw_long, NetMessage,
  begin, packet, Server, Reply, send_reply, reply_to_message, server_reply, netperf_server,
}

unfoldable pub sum : List ℕ → ℕ
sum [] = 0
sum (x ∷ xs) = x + sum xs

-- What a run of the loop without a refused packet is.
pub record IsSent (c : Client) (payload_size : ℕ) (r : Sending) : Type 0 where
  pub whole : r.complete ≡ true
  pub all_counted : r.client.sent_bytes ≡ c.total_bytes
  pub total : c.sent_bytes + sum r.sizes ≡ c.total_bytes
  pub sizes_fit : All (λ n. (0 < n) × (n ≤ payload_size)) r.sizes

weaken :
    (p q : ℕ) (xs : List ℕ)
    → p ≤ q
    → All (λ n. (0 < n) × (n ≤ p)) xs
    → All (λ n. (0 < n) × (n ≤ q)) xs
weaken p q [] le all = tt
weaken p q (x ∷ xs) le all = ((all.0.0, omega (arith, all.0.1)), weaken p q xs le all.1)

pub next_size_lem :
    (payload_size : ℕ) (c : Client)
    → 0 < payload_size
    → c.sent_bytes < c.total_bytes
    → (0 < next_size payload_size c)
      × (next_size payload_size c ≤ payload_size)
      × (next_size payload_size c ≤ c.total_bytes - c.sent_bytes)
next_size_lem payload_size c pos more = (ground arith, ground arith, ground arith)

raw_long_loop-IsSent :
    (accepts : ℕ → Bool) (fuel payload_size : ℕ) (c : Client)
    → ((n : ℕ) → accepts n ≡ true)
    → 0 < payload_size
    → c.total_bytes < 2 ^ 64
    → c.sent_bytes ≤ c.total_bytes
    → c.total_bytes - c.sent_bytes < fuel
    → (r : Sending) × (raw_long_loop accepts fuel payload_size c ≡ some r) × IsSent c payload_size r
unfolding raw_long_loop sum
raw_long_loop-IsSent accepts zero payload_size c all pos fits le enough = absurd (omega arith)
raw_long_loop-IsSent accepts (suc fuel) payload_size c all pos fits le enough =
    elim (Bool-cases (ltb c.sent_bytes c.total_bytes)) [
      | inl more ↦
          let size = next_size payload_size c in
          let (some_left, small, last) = next_size_lem payload_size c pos (ground arith) in
          let exact : add64 c.sent_bytes size ≡ c.sent_bytes + size = mod-eq_of_lt (omega arith) in
          let (r, runs, sent) =
            raw_long_loop-IsSent accepts fuel size (counted size c) all some_left fits
              (omega (arith, exact)) (omega (arith, exact)) in
          (
            sent_first size r,
            rw (more, all c.total_packets) (ap (Option.map (sent_first size)) runs),
            record {
              whole = sent.whole;
              all_counted = sent.all_counted;
              total = omega (arith, exact, sent.total);
              sizes_fit =
                  ((some_left, small), weaken size payload_size r.sizes small sent.sizes_fit);
            },
          )
      | inr over ↦ (
        record { client = c; sizes = []; complete = true },
        rw over refl,
        record { whole = refl; all_counted = ground arith; total = (ground arith); sizes_fit = tt },
      )
    ]

packet_early :
    (region : Option (ℕ → ℕ)) (size : ℕ) (s : Server)
    → s.received_bytes + size < s.expected_bytes
    → s.expected_bytes < 2 ^ 64
    → server_reply region (packet size) s
      ≡ (record s { received_bytes = s.received_bytes + size }, [])
unfolding server_reply reply_to_message
packet_early region size s early fits =
    let exact : add64 s.received_bytes size ≡ s.received_bytes + size =
      mod-eq_of_lt (omega arith) in
    let test : leb s.expected_bytes (s.received_bytes + size) ≡ false = ground arith in
    rw (exact, test) refl

packet_last :
    (region : Option (ℕ → ℕ)) (size : ℕ) (s : Server)
    → s.received_bytes + size ≡ s.expected_bytes
    → s.expected_bytes < 2 ^ 64
    → server_reply region (packet size) s ≡ (
      record s { received_bytes = s.expected_bytes },
      send_reply false (record s { received_bytes = s.expected_bytes }) ∷ [],
    )
unfolding server_reply reply_to_message
packet_last region size s last fits =
    let exact : add64 s.received_bytes size ≡ s.received_bytes + size =
      mod-eq_of_lt (omega arith) in
    let test : leb s.expected_bytes s.expected_bytes ≡ true = ground arith in
    rw (exact, last, test) refl

received_sum :
    (region : Option (ℕ → ℕ)) (size : ℕ) (sizes : List ℕ) (s : Server)
    → All (λ n. 0 < n) (size ∷ sizes)
    → s.expected_bytes < 2 ^ 64
    → s.received_bytes + sum (size ∷ sizes) ≡ s.expected_bytes
    → (netperf_server region (map packet (size ∷ sizes)) s).1
      ≡ send_reply false (record s { received_bytes = s.expected_bytes }) ∷ []
unfolding netperf_server sum
received_sum region size [] s pos fits e = rw (packet_last region size s (omega arith) fits) refl
received_sum region size (next ∷ sizes) s pos fits e =
    let s' : Server = record s { received_bytes = s.received_bytes + size } in
    let early = packet_early region size s (omega (arith, pos.1.0)) fits in
    ap
      (λ (step : Server × List Reply).
        step.1 ++ (netperf_server region (map packet (next ∷ sizes)) step.0).1)
      early
    ∙ received_sum region next sizes s' pos.1 fits (omega arith)

positive : (q : ℕ) (xs : List ℕ) → All (λ n. (0 < n) × (n ≤ q)) xs → All (λ n. 0 < n) xs
positive q [] all = tt
positive q (x ∷ xs) all = (all.0.0, positive q xs all.1)

some_sizes : (sizes : List ℕ) → 0 < sum sizes → (n : ℕ) × (ns : List ℕ) × (sizes ≡ n ∷ ns)
unfolding sum
some_sizes [] pos = absurd (omega arith)
some_sizes (n ∷ ns) pos = (n, ns, refl)

begins :
    (region : Option (ℕ → ℕ)) (total port : ℕ) (ms : List NetMessage) (s : Server)
    → (netperf_server region (begin total port ∷ ms) s).1
      ≡ (netperf_server region ms
          (record { expected_bytes = total; received_bytes = 0; reply_port = port })).1
unfolding netperf_server server_reply reply_to_message
begins region total port ms s = refl

-- A test over a network that loses nothing: the client's loop ends, its counter is the total, no
-- packet is empty or larger than the payload size, and the server that gets the start message and
-- then the packets, whatever it had counted before, answers once, with the total and no error, on
-- the port that the start message named. The total is not 0 and below 2 ^ 64.
pub netperf_server-raw_long :
    (accepts : ℕ → Bool) (payload_size total port : ℕ) (region : Option (ℕ → ℕ)) (before : Server)
    → ((n : ℕ) → accepts n ≡ true)
    → 0 < payload_size
    → 0 < total
    → total < 2 ^ 64
    → (r : Sending) × (raw_long accepts (suc total) payload_size total ≡ some r)
      × (r.complete ≡ true)
      × (r.client.sent_bytes ≡ total)
      × All (λ n. (0 < n) × (n ≤ payload_size)) r.sizes
      × ((netperf_server region (begin total port ∷ map packet r.sizes) before).1
          ≡ record { total_bytes = total; error = false; port = port } ∷ [])
unfolding raw_long
netperf_server-raw_long accepts payload_size total port region before all pos more fits =
    let c : Client = record { total_bytes = total; sent_bytes = 0; total_packets = 0 } in
    let (r, runs, sent) =
      raw_long_loop-IsSent accepts (suc total) payload_size c all pos fits (omega arith)
        (omega arith) in
    let (n, ns, nonempty) = some_sizes r.sizes (omega (arith, sent.total)) in
    let s : Server = record { expected_bytes = total; received_bytes = 0; reply_port = port } in
    let counts =
      received_sum region n ns s
        (subst (All (λ k. 0 < k)) nonempty (positive payload_size r.sizes sent.sizes_fit)) fits
        (ap (λ (xs : List ℕ). 0 + sum xs) (sym nonempty) ∙ sent.total) in
    (
      r,
      runs,
      sent.whole,
      sent.all_counted,
      sent.sizes_fit,
      begins region total port (map packet r.sizes) before
          ∙ ap (λ (xs : List ℕ). (netperf_server region (map packet xs) s).1) nonempty
          ∙ counts,
    )
