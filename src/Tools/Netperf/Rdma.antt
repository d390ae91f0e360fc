-- ===== src/Tools/Netperf/Rdma.antt =====
-- axiom-netperf/axiom-netperf-client.c: the RDMA test of one thread. The NIC's RDMA writes are events
-- with their address, which is the same in both zones, and their token, if they do not wait.
-- `delivered` says what is sure to be in the other zone after them. Which calls succeed, and the
-- zone, are parameters.
pub mod Filled
pub mod Transfer
pub mod Passed
mod Tests
use mathlib.Core.Option
use axiom_evi_apps.Prelude.{
  ℕ, zero, suc, ◌+◌, ◌-◌, ◌%◌, ◌^◌, Bool, true, false, List, [], ◌∷◌, ◌++◌, Option, none, some, ltb,
  leb, ◌==◌, ◌&&◌, not, if◌then◌else◌,
}
use axiom_evi_apps.Tools.Netperf.{
  add64, Client, counted, next_size, payload_init, NetMessage, begin, rdma_end,
}

-- x - y on 64 bits
abbrev pub sub64 : ℕ → ℕ → ℕ
sub64 x y = (x + 2 ^ 64 - y) % 2 ^ 64

abbrev pub uncounted : ℕ → Client → Client
uncounted size c = record c {
  sent_bytes = sub64 c.sent_bytes size;
  total_packets = sub64 c.total_packets 1;
}

-- The loop that fills the zone with the bytes of the magic number; its index is an int.
unfoldable pub fill : ℕ → ℕ → (ℕ → ℕ) → ℕ → (ℕ → ℕ) → ℕ → ℕ
fill zero i magic total zone = zone
fill (suc fuel) i magic total zone =
    let write = λ (a : ℕ). if leb i a && ltb a (i + 8) then magic (a - i) else zone a in
    let rest = fill fuel (i + 8) magic total write in if ltb i total then rest else zone

-- The payload size and the filled zone, or none for -1: the default for 0, a range, a zone that is
-- mapped, and room in it.
unfoldable pub rdma_init : ℕ → ℕ → ℕ → ℕ → (ℕ → ℕ) → Option (ℕ × (ℕ → ℕ)) → Option (ℕ × (ℕ → ℕ))
rdma_init default max_size payload_size total magic zone =
    elim (payload_init default max_size payload_size) [
      | none ↦ none
      | some size ↦ elim zone [
        | none ↦ none
        | some (rdma_size, memory) ↦
            if ltb rdma_size total then none else some (size, fill total 0 magic total memory)
      ]
    ]

-- A write of so many bytes from an address on, with the place of its token in the array or, if it
-- waits by itself, without one; and a wait for the first tokens of the array.
pub data RdmaEvent : Type 0 where
  write : ℕ → ℕ → Option ℕ → RdmaEvent
  wait : ℕ → RdmaEvent

-- The client after a loop, the events, the next free token, and whether every write succeeded.
pub record Writing : Type 0 where
  pub client : Client
  pub events : List RdmaEvent
  pub token : ℕ
  pub ok : Bool

abbrev pub events_first : List RdmaEvent → Writing → Writing
events_first es r = record r { events = es ++ r.events }

-- What follows a successful write with a token: the waits and the next token. A write that waits by
-- itself takes no token.
abbrev pub after_sync : ℕ → List RdmaEvent × ℕ
after_sync i = ([], i)

-- TOKEN_LEN is 2048.
unfoldable pub after_async : ℕ → List RdmaEvent × ℕ
after_async i = if i + 1 == 2048 then (wait 2048 ∷ [], 0) else ([], i + 1)

-- The token of a write, by the place that is free.
abbrev pub no_token : ℕ → Option ℕ
no_token i = none

abbrev pub next_token : ℕ → Option ℕ
next_token i = some i

-- The loops of axnetperf_rdma_sync and axnetperf_rdma_async: a write that fails is counted down again.
unfoldable pub rdma_loop :
    (ℕ → Option ℕ) → (ℕ → List RdmaEvent × ℕ) → (ℕ → Bool) → ℕ → ℕ → Client → ℕ → Option Writing
rdma_loop token after accepts zero payload_size c i = none
rdma_loop token after accepts (suc fuel) payload_size c i =
    let size = next_size payload_size c in
    let c' = counted size c in
    let (waits, i') = after i in
    let rest = rdma_loop token after accepts fuel size c' i' in
    if not (ltb c.sent_bytes c.total_bytes)
    then some (record { client = c; events = []; token = i; ok = true })
    else if not (accepts c.sent_bytes)
    then some (record { client = uncounted size c'; events = []; token = i; ok = false })
    else Option.map (events_first (write c.sent_bytes size (token i) ∷ waits)) rest

-- The last write of both functions, of what the loop left, without another look at the counters
-- where it fails.
unfoldable pub rdma_rest : (ℕ → Option ℕ) → (ℕ → ℕ) → (ℕ → Bool) → Writing → Writing
rdma_rest token next accepts r =
    let left = sub64 r.client.total_bytes r.client.sent_bytes in
    if not r.ok
    then r
    else if not (ltb 0 left)
    then r
    else if not (accepts r.client.sent_bytes)
    then record r { ok = false }
    else record r {
      client = counted left r.client;
      events = r.events ++ write r.client.sent_bytes left (token r.token) ∷ [];
      token = next r.token;
    }

-- A zone after a write.
abbrev pub write_over : (ℕ → ℕ) → (ℕ → ℕ) → ℕ → ℕ → ℕ → ℕ
write_over zone remote addr size a = if leb addr a && ltb a (addr + size) then zone a else remote a

-- A write that is on its way, with its token.
pub record Pending : Type 0 where
  pub token : ℕ
  pub addr : ℕ
  pub size : ℕ

-- The zone after a wait for the first n tokens, and the writes that are then still on their way; the
-- last write stands first.
unfoldable pub arrived : (ℕ → ℕ) → (ℕ → ℕ) → ℕ → List Pending → ℕ → ℕ
arrived zone remote n [] = remote
arrived zone remote n (p ∷ ps) =
    let rest = arrived zone remote n ps in
    if ltb p.token n then write_over zone rest p.addr p.size else rest

unfoldable pub unwaited : ℕ → List Pending → List Pending
unwaited n [] = []
unwaited n (p ∷ ps) = let rest = unwaited n ps in if ltb p.token n then rest else p ∷ rest

-- What is sure to be in the zone of the server after the events, from the zone of the client and the
-- writes that are on their way: a write with a token is so only after a wait for its token.
unfoldable pub delivered : (ℕ → ℕ) → (ℕ → ℕ) → List Pending → List RdmaEvent → ℕ → ℕ
unfolding arrived unwaited
delivered zone remote ps [] = remote
delivered zone remote ps (write addr size none ∷ es) =
    delivered zone (write_over zone remote addr size) ps es
delivered zone remote ps (write addr size (some t) ∷ es) =
    delivered zone remote (record { token = t; addr = addr; size = size } ∷ ps) es
delivered zone remote ps (wait n ∷ es) =
    delivered zone (arrived zone remote n ps) (unwaited n ps) es

unfoldable pub rdma_sync : (ℕ → Bool) → ℕ → ℕ → Client → Option Writing
rdma_sync accepts fuel payload_size c =
    Option.map (rdma_rest no_token (λ i. i) accepts)
      (rdma_loop no_token after_sync accepts fuel payload_size c 0)

-- The wait at the end, unless a write failed; its result, here by the number of tokens, is returned.
abbrev pub wait_all : (ℕ → Bool) → Writing → Writing
wait_all waited r =
    if r.ok then record r { events = r.events ++ wait r.token ∷ []; ok = waited r.token } else r

unfoldable pub rdma_async : (ℕ → Bool) → (ℕ → Bool) → ℕ → ℕ → Client → Option Writing
rdma_async waited accepts fuel payload_size c =
    Option.map (λ r. wait_all waited (rdma_rest next_token (λ i. i + 1) accepts r))
      (rdma_loop next_token after_async accepts fuel payload_size c 0)

-- What the client did: the events, its zone, the messages to the server, and whether all went well.
pub record RdmaTest : Type 0 where
  pub events : List RdmaEvent
  pub zone : ℕ → ℕ
  pub messages : List NetMessage
  pub passed : Bool

-- axnetperf_rdma: the transfer and the end message, which the NIC may refuse.
unfoldable pub axnetperf_rdma :
    Bool
    → (ℕ → Bool)
    → (ℕ → Bool)
    → (NetMessage → Bool)
    → ℕ
    → ℕ
    → ℕ
    → (ℕ → ℕ)
    → (ℕ → ℕ)
    → Option RdmaTest
axnetperf_rdma sync waited accepts sends fuel payload_size total magic zone =
    let c : Client = record { total_bytes = total; sent_bytes = 0; total_packets = 0 } in
    Option.map
      (λ r.
        let message = rdma_end r.client.sent_bytes magic in
        if not r.ok
        then record { events = r.events; zone = zone; messages = []; passed = false }
        else record {
          events = r.events;
          zone = zone;
          messages = message ∷ [];
          passed = sends message;
        })
      (if sync
        then rdma_sync accepts fuel payload_size c
        else rdma_async waited accepts fuel payload_size c)

-- axnetperf_client of an RDMA test up to its wait for the server's answer: nothing is sent unless the
-- zone is ready, and nothing is write_over unless the start message (axnetperf_start) is accepted.
unfoldable pub rdma_client :
    Bool
    → (ℕ → Bool)
    → (ℕ → Bool)
    → (NetMessage → Bool)
    → ℕ
    → ℕ
    → (ℕ → ℕ)
    → Option (ℕ × (ℕ → ℕ))
    → Option RdmaTest
rdma_client sync waited accepts sends total port magic none =
    some (record { events = []; zone = λ a. 0; messages = []; passed = false })
rdma_client sync waited accepts sends total port magic (some (payload_size, zone)) =
    let start = begin total port in
    let refused : RdmaTest = record {
      events = [];
      zone = zone;
      messages = start ∷ [];
      passed = false;
    } in
    let started : RdmaTest → RdmaTest = λ t. record t { messages = start ∷ t.messages } in
    if not (sends start)
    then some refused
    else Option.map started
        (axnetperf_rdma sync waited accepts sends (suc total) payload_size total magic zone)
