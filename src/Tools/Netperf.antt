-- ===== src/Tools/Netperf.antt =====
-- axiom-netperf (axiom-netperf-client.c and axiom-netperf-server.c), and the older server of
-- axiom-init/axiom-netperf-reply: the bytes that the client sends and the servers count. Time
-- stamps, prints and the client's mutex are left out; one thread sends. Which messages are accepted
-- and the memory of the RDMA zone (`region`) are parameters. The counters are uint64_t.
pub mod Counting
pub mod Checks
pub mod Rdma
mod Tests
use mathlib.Core.Option
use axiom_evi_apps.Prelude.{
  ℕ, zero, suc, ◌+◌, ◌-◌, ◌%◌, ◌^◌, Bool, true, false, List, [], ◌∷◌, ◌++◌, Option, none, some, ltb,
  leb, ◌==◌, ◌&&◌, not, for_all_from, if◌then◌else◌,
}

-- x + y on 64 bits
abbrev pub add64 : ℕ → ℕ → ℕ
add64 x y = (x + y) % 2 ^ 64

-- The client's fields of `axnetperf_status_t`.
pub record Client : Type 0 where
  pub total_bytes : ℕ
  pub sent_bytes : ℕ
  pub total_packets : ℕ

-- A packet is counted before it is sent.
abbrev pub counted : ℕ → Client → Client
counted size c = record c {
  sent_bytes = add64 c.sent_bytes size;
  total_packets = add64 c.total_packets 1;
}

-- What the loop did: the client after it, the sizes that were accepted, and whether it came to its
-- end; `none` for fuel that ran out.
pub record Sending : Type 0 where
  pub client : Client
  pub sizes : List ℕ
  pub complete : Bool

abbrev pub sent_first : ℕ → Sending → Sending
sent_first size r = record r { sizes = size ∷ r.sizes }

-- The size of the next packet: the last one is cut.
abbrev pub next_size : ℕ → Client → ℕ
next_size payload_size c =
    let left = c.total_bytes - c.sent_bytes in if ltb left payload_size then left else payload_size

-- The loop of `axnetperf_raw_long`. After a packet that is not accepted the counters go up again.
unfoldable pub raw_long_loop : (ℕ → Bool) → ℕ → ℕ → Client → Option Sending
raw_long_loop accepts zero payload_size c = none
raw_long_loop accepts (suc fuel) payload_size c =
    let size = next_size payload_size c in
    let c' = counted size c in
    let rest = raw_long_loop accepts fuel size c' in
    if not (ltb c.sent_bytes c.total_bytes)
    then some (record { client = c; sizes = []; complete = true })
    else if not (accepts c.total_packets)
    then some (record { client = counted size c'; sizes = []; complete = false })
    else Option.map (sent_first size) rest

-- axnetperf_raw_init and axnetperf_long_init: the default size for 0, and the greatest size.
unfoldable pub payload_init : ℕ → ℕ → ℕ → Option ℕ
payload_init default max_size payload_size =
    let size = if payload_size == 0 then default else payload_size in
    if ltb size 1 then none else if ltb max_size size then none else some size

-- axnetperf_raw_long of the one thread, which starts in AXN_STATE_INIT.
unfoldable pub raw_long : (ℕ → Bool) → ℕ → ℕ → ℕ → Option Sending
unfolding raw_long_loop
raw_long accepts fuel payload_size total =
    raw_long_loop accepts fuel payload_size
      (record { total_bytes = total; sent_bytes = 0; total_packets = 0 })

-- The messages that a server tells apart.
pub data NetMessage : Type 0 where
  -- AXIOM_CMD_NETPERF_START with the total and the port for the reply
  begin : ℕ → ℕ → NetMessage
  -- AXIOM_CMD_NETPERF_END of an RDMA test, with the total and the bytes of the magic number
  rdma_end : ℕ → (ℕ → ℕ) → NetMessage
  other_end : NetMessage
  -- AXIOM_CMD_NETPERF with its size
  packet : ℕ → NetMessage
  unknown : NetMessage

-- One entry of the server's table.
pub record Server : Type 0 where
  pub expected_bytes : ℕ
  pub received_bytes : ℕ
  pub reply_port : ℕ

pub record Reply : Type 0 where
  pub total_bytes : ℕ
  pub error : Bool
  pub port : ℕ

-- axiom_netperf_send_reply
abbrev pub send_reply : Bool → Server → Reply
send_reply error s = record { total_bytes = s.received_bytes; error = error; port = s.reply_port }

-- The 8 bytes of the region from i on are the magic number's.
unfoldable pub magic_at : (ℕ → ℕ) → (ℕ → ℕ) → ℕ → Bool
magic_at region magic i = for_all_from (λ k. region (i + k) == magic k) 0 8

-- The loop over the region that advances by `step`, by 8 in axiom-netperf-server.c and by 1 in
-- axiom_netperf_reply.c. Its index is an int: the sizes are below 2 ^ 31 - 8.
unfoldable pub check_loop : ℕ → (ℕ → ℕ) → (ℕ → ℕ) → ℕ → ℕ → ℕ → Bool
unfolding magic_at
check_loop step region magic received zero i = true
check_loop step region magic received (suc fuel) i =
    let rest = check_loop step region magic received fuel (i + step) in
    if not (ltb i received) then true else magic_at region magic i && rest

-- The end of an RDMA test; without a region the test failed.
unfoldable pub rdma_failed : ℕ → Option (ℕ → ℕ) → (ℕ → ℕ) → ℕ → Bool
unfolding check_loop
rdma_failed step none magic received = true
rdma_failed step (some region) magic received =
    not (check_loop step region magic received received 0)

-- The handler, with the step of its check.
unfoldable pub reply_to_message : ℕ → Option (ℕ → ℕ) → NetMessage → Server → Server × List Reply
unfolding rdma_failed
reply_to_message step region (begin total port) s =
    (record { expected_bytes = total; received_bytes = 0; reply_port = port }, [])
reply_to_message step region (rdma_end total magic) s =
    let s' = record s { received_bytes = total } in
    (s', send_reply (rdma_failed step region magic total) s' ∷ [])
reply_to_message step region other_end s = (s, [])
reply_to_message step region (packet size) s =
    let s' = record s { received_bytes = add64 s.received_bytes size } in
    (s', if leb s'.expected_bytes s'.received_bytes then send_reply false s' ∷ [] else [])
reply_to_message step region unknown s = (s, [])

-- axiom_netperf_reply of axiom-netperf-server.c
unfoldable pub server_reply : Option (ℕ → ℕ) → NetMessage → Server → Server × List Reply
unfolding reply_to_message
server_reply region m s = reply_to_message 8 region m s

-- An entry of the table of axiom_netperf_reply.c.
pub record DaemonStatus : Type 0 where
  pub expected_bytes : ℕ
  pub received_bytes : ℕ

-- Its axiom_netperf_send_reply, with AXIOM_RAW_PORT_NETUTILS.
abbrev pub daemon_send_reply : ℕ → Bool → DaemonStatus → Reply
daemon_send_reply netutils error s = record {
  total_bytes = s.received_bytes;
  error = error;
  port = netutils;
}

-- Its axiom_netperf_reply.
unfoldable pub daemon_reply :
    ℕ → Option (ℕ → ℕ) → NetMessage → DaemonStatus → DaemonStatus × List Reply
unfolding rdma_failed
daemon_reply netutils region (begin total port) s =
    (record { expected_bytes = total; received_bytes = 0 }, [])
daemon_reply netutils region (rdma_end total magic) s =
    let s' = record s { received_bytes = total } in
    (s', daemon_send_reply netutils (rdma_failed 1 region magic total) s' ∷ [])
daemon_reply netutils region other_end s = (s, [])
daemon_reply netutils region (packet size) s =
    let s' = record s { received_bytes = add64 s.received_bytes size } in
    (
      s',
      if leb s'.expected_bytes s'.received_bytes
          then daemon_send_reply netutils false s' ∷ []
          else [],
    )
daemon_reply netutils region unknown s = (s, [])

-- The loop of `axnetperf_server` over the messages of one node.
unfoldable pub netperf_server : Option (ℕ → ℕ) → List NetMessage → Server → Server × List Reply
netperf_server region [] s = (s, [])
netperf_server region (m ∷ ms) s =
    let step = server_reply region m s in
    let rest = netperf_server region ms step.0 in (rest.0, step.1 ++ rest.1)
