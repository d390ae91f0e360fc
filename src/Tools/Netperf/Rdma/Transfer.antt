-- ===== src/Tools/Netperf/Rdma/Transfer.antt =====
-- The transfer as a whole: every byte once, and what the server makes of it.
use mathlib.Core.Option
use native.Mathlib.Nat.{mod-eq_of_lt}
use axiom_evi_apps.Prelude.{
  ℕ, zero, suc, ◌+◌, ◌-◌, ◌^◌, ◌≤◌, ◌<◌, ◌≡◌, refl, sym, arith, ap, ◌∙◌, Bool, true, false, List,
  [], ◌∷◌, ◌++◌, All, Option, none, some, ltb, leb, ◌==◌, ◌&&◌, if◌then◌else◌, Bool-cases, inl, inr,
}
use axiom_evi_apps.Tools.Netperf.{add64, Client, counted, next_size}
use axiom_evi_apps.Tools.Netperf.Counting.{next_size_lem}
use axiom_evi_apps.Tools.Netperf.Rdma.{
  sub64, RdmaEvent, write, wait, Writing, events_first, after_sync, after_async, rdma_loop,
  rdma_rest, write_over, Pending, arrived, unwaited, delivered, no_token, next_token, rdma_sync,
  rdma_async, wait_all,
}

-- The zone when all writes have gone over, waits or not.
unfoldable pub landed : (ℕ → ℕ) → (ℕ → ℕ) → List RdmaEvent → ℕ → ℕ
landed zone remote [] = remote
landed zone remote (write addr size t ∷ es) = landed zone (write_over zone remote addr size) es
landed zone remote (wait n ∷ es) = landed zone remote es

-- What a run without a failed write is: the bytes from the count on go over.
pub record IsWritten (c : Client) (r : Writing) : Type 0 where
  pub whole : r.ok ≡ true
  pub all_sent : r.client.sent_bytes ≡ c.total_bytes
  pub same_total : r.client.total_bytes ≡ c.total_bytes
  pub moved :
      (zone remote : ℕ → ℕ) (a : ℕ)
      → landed zone remote r.events a
        ≡ (if leb c.sent_bytes a && ltb a c.total_bytes then zone a else remote a)

joined :
    (z y s size total a : ℕ)
    → s + size ≤ total
    → (if leb (s + size) a && ltb a total
        then z
        else (if leb s a && ltb a (s + size) then z else y))
      ≡ (if leb s a && ltb a total then z else y)
joined z y s size total a fits = ground arith

sync_quiet :
    (i : ℕ) (zone remote : ℕ → ℕ) (es : List RdmaEvent)
    → landed zone remote ((after_sync i).0 ++ es) ≡ landed zone remote es
sync_quiet i zone remote es = refl

async_quiet :
    (i : ℕ) (zone remote : ℕ → ℕ) (es : List RdmaEvent)
    → landed zone remote ((after_async i).0 ++ es) ≡ landed zone remote es
unfolding after_async landed
async_quiet i zone remote es = elim (Bool-cases (i + 1 == 2048)) [
  | inl full ↦ rw full refl
  | inr room ↦ rw room refl
]

-- The events of a run, from a free place to a free place, are of a kind that each step of the loop
-- keeps.
module _ (token : ℕ → Option ℕ) (after : ℕ → List RdmaEvent × ℕ)
    (Orderly : ℕ → List RdmaEvent → ℕ → Type 0) (no_events : (i : ℕ) → Orderly i [] i)
    (one_more : (i addr size j : ℕ) (es : List RdmaEvent)
      → Orderly (after i).1 es j
      → Orderly i (write addr size (token i) ∷ ((after i).0 ++ es)) j)
    (quiet : (i : ℕ) (zone remote : ℕ → ℕ) (es : List RdmaEvent)
      → landed zone remote ((after i).0 ++ es) ≡ landed zone remote es)
    (accepts : ℕ → Bool) (all : (n : ℕ) → accepts n ≡ true) where
  rdma_loop-IsWritten :
      (fuel payload_size : ℕ) (c : Client) (i : ℕ)
      → 0 < payload_size
      → c.total_bytes < 2 ^ 64
      → c.sent_bytes ≤ c.total_bytes
      → c.total_bytes - c.sent_bytes < fuel
      → (r : Writing) × (rdma_loop token after accepts fuel payload_size c i ≡ some r)
        × IsWritten c r
        × Orderly i r.events r.token
  unfolding rdma_loop landed
  rdma_loop-IsWritten zero payload_size c i pos fits le enough = absurd (omega arith)
  rdma_loop-IsWritten (suc fuel) payload_size c i pos fits le enough =
      elim (Bool-cases (ltb c.sent_bytes c.total_bytes)) [
        | inl more ↦
            let size = next_size payload_size c in
            let (some_left, small, last) = next_size_lem payload_size c pos (ground arith) in
            let exact : add64 c.sent_bytes size ≡ c.sent_bytes + size =
              mod-eq_of_lt (omega arith) in
            let (r, runs, written, orderly) =
              rdma_loop-IsWritten fuel size (counted size c) (after i).1 some_left fits
                (omega (arith, exact)) (omega (arith, exact)) in
            (
              events_first (write c.sent_bytes size (token i) ∷ (after i).0) r,
              rw (more, all c.sent_bytes)
                  (ap (Option.map (events_first (write c.sent_bytes size (token i) ∷ (after i).0)))
                    runs),
              record {
                whole = written.whole;
                all_sent = written.all_sent;
                same_total = written.same_total;
                moved = λ zone remote a.
                    let remote' : ℕ → ℕ = λ (b : ℕ).
                      if leb c.sent_bytes b && ltb b (c.sent_bytes + size)
                      then zone b
                      else remote b in
                    ap (λ (f : ℕ → ℕ). f a) (quiet i zone remote' r.events)
                    ∙ written.moved zone remote' a
                    ∙ ap (λ (n : ℕ). if leb n a && ltb a c.total_bytes then zone a else remote' a)
                        exact
                    ∙ joined (zone a) (remote a) c.sent_bytes size c.total_bytes a (omega arith);
              },
              one_more i c.sent_bytes size r.token r.events orderly,
            )
        | inr over ↦ (
          record { client = c; events = []; token = i; ok = true },
          rw over refl,
          record {
            whole = refl;
            all_sent = ground arith;
            same_total = refl;
            moved = λ zone remote a. ground arith;
          },
          no_events i,
        )
      ]

-- After the whole loop nothing is left.
rest_none :
    (token : ℕ → Option ℕ) (next : ℕ → ℕ) (accepts : ℕ → Bool) (r : Writing)
    → r.ok ≡ true
    → r.client.sent_bytes ≡ r.client.total_bytes
    → r.client.total_bytes < 2 ^ 64
    → rdma_rest token next accepts r ≡ r
unfolding rdma_rest
rest_none token next accepts r ok done fits =
    let none_left : ltb 0 (sub64 r.client.total_bytes r.client.sent_bytes) ≡ false = ground arith in
    rw (ok, none_left) refl

-- All writes wait by themselves.
unfoldable AllWait : ℕ → List RdmaEvent → ℕ → Type 0
AllWait i [] j = Unit
AllWait i (write addr size none ∷ es) j = AllWait i es j
AllWait i (write addr size (some t) ∷ es) j = ⊥
AllWait i (wait n ∷ es) j = AllWait i es j

delivered-AllWait :
    (es : List RdmaEvent) (i j : ℕ) (zone remote : ℕ → ℕ)
    → AllWait i es j
    → delivered zone remote [] es ≡ landed zone remote es
unfolding AllWait delivered landed arrived unwaited
delivered-AllWait [] i j zone remote all = refl
delivered-AllWait (write addr size none ∷ es) i j zone remote all =
    delivered-AllWait es i j zone (write_over zone remote addr size) all
delivered-AllWait (write addr size (some t) ∷ es) i j zone remote all = absurd all
delivered-AllWait (wait n ∷ es) i j zone remote all = delivered-AllWait es i j zone remote all

-- Each write takes the next place, and a wait is for all places that are taken.
data Tokens : ℕ → List RdmaEvent → ℕ → Type 0 where
  no_more : {i : ℕ} → Tokens i [] i
  taken :
      {i j addr size : ℕ} {es : List RdmaEvent}
      → Tokens (i + 1) es j
      → Tokens i (write addr size (some i) ∷ es) j
  awaited : {i n j : ℕ} {es : List RdmaEvent} → n ≡ i → Tokens 0 es j → Tokens i (wait n ∷ es) j

-- The zone when these writes, the last one first, have gone over.
unfoldable settled : (ℕ → ℕ) → (ℕ → ℕ) → List Pending → ℕ → ℕ
settled zone remote [] = remote
settled zone remote (p ∷ ps) = write_over zone (settled zone remote ps) p.addr p.size

arrived-settled :
    (zone remote : ℕ → ℕ) (n : ℕ) (ps : List Pending)
    → All (λ p. p.token < n) ps
    → (arrived zone remote n ps ≡ settled zone remote ps) × (unwaited n ps ≡ [])
unfolding arrived unwaited settled
arrived-settled zone remote n [] all = (refl, refl)
arrived-settled zone remote n (p ∷ ps) all =
    let (same, none_left) = arrived-settled zone remote n ps all.1 in
    let below : ltb p.token n ≡ true = ground (arith, all.0) in
    (rw (below, same) refl, rw (below, none_left) refl)

below_more : (i : ℕ) (ps : List Pending) → All (λ p. p.token < i) ps → All (λ p. p.token < i + 1) ps
below_more i [] all = tt
below_more i (p ∷ ps) all = (omega (arith, all.0), below_more i ps all.1)

-- After the last wait nothing is on its way.
delivered-Tokens :
    {i j : ℕ} {es : List RdmaEvent} (zone remote : ℕ → ℕ) (ps : List Pending)
    (tokens : Tokens i es j)
    → All (λ p. p.token < i) ps
    → delivered zone remote ps (es ++ wait j ∷ []) ≡ landed zone (settled zone remote ps) es
unfolding delivered landed settled
delivered-Tokens {i} zone remote ps no_more all = (arrived-settled zone remote i ps all).0
delivered-Tokens {i} zone remote ps (taken {addr} {size} tokens) all =
    delivered-Tokens zone remote (record { token = i; addr = addr; size = size } ∷ ps) tokens
      (omega arith, below_more i ps all)
delivered-Tokens {i} zone remote ps (awaited {n} {es} is tokens) all =
    let (same, none_left) = arrived-settled zone remote i ps all in
    rw (is, same, none_left) (delivered-Tokens zone (settled zone remote ps) [] tokens tt)

after_async-Tokens :
    (i addr size j : ℕ) (es : List RdmaEvent)
    → Tokens (after_async i).1 es j
    → Tokens i (write addr size (next_token i) ∷ ((after_async i).0 ++ es)) j
unfolding after_async
after_async-Tokens i addr size j es tokens = elim (Bool-cases (i + 1 == 2048)) [
  | inl full ↦
      let last : 2048 ≡ i + 1 = ground (arith, full) in
      let more : Tokens 0 es j = rw (after_async, full) at tokens in
      rw (after_async, full) (taken (awaited last more))
  | inr room ↦
      let more : Tokens (i + 1) es j = rw (after_async, room) at tokens in
      rw (after_async, room) (taken more)
]

abbrev pub whole_client : ℕ → Client
whole_client total = record { total_bytes = total; sent_bytes = 0; total_packets = 0 }

-- The zone of the server is sure to hold what was written.
unfoldable pub Delivers : (ℕ → ℕ) → ℕ → List RdmaEvent → Type 0
Delivers zone total es =
    (remote : ℕ → ℕ) (a : ℕ)
    → delivered zone remote [] es a ≡ (if ltb a total then zone a else remote a)

module _ (accepts : ℕ → Bool) (all : (n : ℕ) → accepts n ≡ true) (payload_size total : ℕ)
    (pos : 0 < payload_size) (fits : total < 2 ^ 64) (zone : ℕ → ℕ) where
  pub rdma_sync-Delivers :
      (r : Writing) × (rdma_sync accepts (suc total) payload_size (whole_client total) ≡ some r)
      × (r.ok ≡ true)
      × (r.client.sent_bytes ≡ total)
      × Delivers zone total r.events
  unfolding rdma_sync Delivers AllWait
  rdma_sync-Delivers =
      let (r, runs, written, waits) =
        rdma_loop-IsWritten no_token after_sync AllWait (λ i. tt) (λ i addr size j es all. all)
          sync_quiet accepts all (suc total) payload_size (whole_client total) 0 pos fits
          (omega arith) (omega arith) in
      let rest =
        rest_none no_token (λ i. i) accepts r written.whole
          (written.all_sent ∙ sym written.same_total) (omega (arith, written.same_total)) in
      (
        r,
        ap (Option.map (rdma_rest no_token (λ i. i) accepts)) runs
            ∙ ap (λ (w : Writing). some w) rest,
        written.whole,
        written.all_sent,
        λ remote a.
            ap (λ (f : ℕ → ℕ). f a) (delivered-AllWait r.events 0 r.token zone remote waits)
            ∙ written.moved zone remote a
            ∙ ground arith,
      )

  pub rdma_async-Delivers :
      (waited : ℕ → Bool)
      → ((n : ℕ) → waited n ≡ true)
      → (r : Writing) × (rdma_async waited accepts (suc total) payload_size (whole_client total)
          ≡ some r)
        × (r.ok ≡ true)
        × (r.client.sent_bytes ≡ total)
        × Delivers zone total r.events
  unfolding rdma_async Delivers settled
  rdma_async-Delivers waited wait_ends =
      let (r, runs, written, tokens) =
        rdma_loop-IsWritten next_token after_async Tokens (λ i. no_more) after_async-Tokens
          async_quiet accepts all (suc total) payload_size (whole_client total) 0 pos fits
          (omega arith) (omega arith) in
      let rest =
        rest_none next_token (λ i. i + 1) accepts r written.whole
          (written.all_sent ∙ sym written.same_total) (omega (arith, written.same_total)) in
      (
        record r { events = r.events ++ wait r.token ∷ []; ok = waited r.token },
        ap (Option.map (λ w. wait_all waited (rdma_rest next_token (λ i. i + 1) accepts w))) runs
            ∙ ap (λ (w : Writing). some (wait_all waited w)) rest
            ∙ (rw written.whole refl),
        wait_ends r.token,
        written.all_sent,
        λ remote a.
            ap (λ (f : ℕ → ℕ). f a) (delivered-Tokens zone remote [] tokens tt)
            ∙ written.moved zone remote a
            ∙ ground arith,
      )
