-- ===== src/Tools/Ping.antt =====
-- axiom-ping/axiom-ping.c: the options, the sender thread, the loop of the receiver and the report.
-- The messages are those of Init/Replies. Only `sigint_received` and `sent_packets` are shared by the
-- threads: the flag is read by each from its list, and the count after the join. The device, the
-- clock, the NIC library and pthreads are parameters, and so are the width of `seq_num`. What is
-- kept out is the interval, which only delays, and the average and the loss, which are doubles made
-- of the report's numbers.
pub mod Sending
pub mod Hearing
pub mod Answers
pub mod Report
pub mod Times
mod Tests
use axiom_evi_apps.Prelude.{
  ℕ, zero, suc, ◌+◌, ◌-◌, ◌%◌, ◌^◌, Bool, true, false, List, [], ◌∷◌, Option, none, some, ltb, ◌==◌,
  ◌||◌, ◌&&◌, not, if◌then◌else◌,
}
use axiom_evi_apps.Init.Replies.{Command, ping, pong, Ping}

-- An option as getopt_long and sscanf read it; an unknown one is `help`.
pub data PingOption : Type 0 where
  dest : Option ℕ → PingOption
  -- whether it is a number
  interval : Bool → PingOption
  count : Option ℕ → PingOption
  verbose version help : PingOption

pub data Arguments : Type 0 where
  -- the exit code is 0 or -1
  quits : Bool → Arguments
  -- the destination, and the count that is set
  pings : ℕ → Option ℕ → Arguments

abbrev checked_dest : Option ℕ → Option ℕ → Arguments
checked_dest none num_ping = quits false
checked_dest (some dst_id) num_ping = if ltb 254 dst_id then quits false else pings dst_id num_ping

unfoldable pub ping_options : List PingOption → Option ℕ → Option ℕ → Arguments
ping_options [] dst_id num_ping = checked_dest dst_id num_ping
ping_options (dest none ∷ os) dst_id num_ping = quits false
ping_options (dest (some d) ∷ os) dst_id num_ping = ping_options os (some d) num_ping
ping_options (interval false ∷ os) dst_id num_ping = quits false
ping_options (interval true ∷ os) dst_id num_ping = ping_options os dst_id num_ping
ping_options (count none ∷ os) dst_id num_ping = quits false
ping_options (count (some n) ∷ os) dst_id num_ping = ping_options os dst_id (some n)
ping_options (verbose ∷ os) dst_id num_ping = ping_options os dst_id num_ping
ping_options (version ∷ os) dst_id num_ping = quits true
ping_options (help ∷ os) dst_id num_ping = quits false

pub data SendResult : Type 0 where
  accepted not_reachable send_failed : SendResult

-- A round of the sender: the signal at its start, the time in nanoseconds, and axiom_send_raw.
pub record Round : Type 0 where
  pub interrupted : Bool
  pub clock : Option ℕ
  pub result : SendResult

-- The messages that are handed to the NIC, `sent_packets`, and whether the thread ends.
pub record Sent : Type 0 where
  pub messages : List Ping
  pub sent_packets : ℕ
  pub ended : Bool

abbrev pub sent_none : Bool → Sent
sent_none e = record { messages = []; sent_packets = 0; ended = e }

abbrev pub sent_first : Ping → Sent → Sent
sent_first m s = record {
  messages = m ∷ s.messages;
  sent_packets = s.sent_packets + 1;
  ended = s.ended;
}

-- A count is decremented only if it is set.
abbrev pub decremented : Bool → ℕ → ℕ
decremented num_ping_set n = if num_ping_set then n - 1 else n

-- The loop of the sender, for the width of `seq_num`, and the sequence number before.
unfoldable pub sender_body : List Round → ℕ → ℕ → Bool → ℕ → ℕ → Sent
sender_body [] width unique_id set num_ping seq = sent_none (num_ping == 0)
sender_body (r ∷ rs) width unique_id set num_ping seq =
    let seq' = (seq + 1) % 2 ^ width in
    let rest = sender_body rs width unique_id set (decremented set num_ping) seq' in
    if r.interrupted || (num_ping == 0) then sent_none true else elim r.clock [
      | none ↦ sent_none true
      | some start_ns ↦
          let m : Ping = record {
            command = ping;
            unique_id = unique_id;
            seq_num = seq';
            timestamp = start_ns;
          } in
          elim r.result [
            | accepted ↦ sent_first m rest
            | not_reachable ↦ sent_first m rest
            | send_failed ↦ record { messages = m ∷ []; sent_packets = 0; ended = true }
          ]
    ]

pub data Received : Type 0 where
  message : ℕ → Ping → Received
  interrupt failure : Received

-- A receive, the time after it in nanoseconds, the signal as it is read after the message's test,
-- and as it is read at the end of the round and the start of the next.
pub record Reception : Type 0 where
  pub received : Received
  pub clock : Option ℕ
  pub signal_after : Bool
  pub signal_end : Bool

-- recv_packets, sum_nsec, max_nsec and min_nsec
pub record Statistics : Type 0 where
  pub recv_packets : ℕ
  pub sum_nsec : ℕ
  pub max_nsec : ℕ
  pub min_nsec : ℕ

abbrev pub no_statistics : Statistics
no_statistics = record { recv_packets = 0; sum_nsec = 0; max_nsec = 0; min_nsec = 2 ^ 64 - 1 }

-- A difference of two uint64_t.
unfoldable pub diff_ns : ℕ → ℕ → ℕ
diff_ns start_ns end_ns = (end_ns + (2 ^ 64 - start_ns)) % 2 ^ 64

unfoldable pub add_time : ℕ → Statistics → Statistics
add_time diff s = record {
  recv_packets = s.recv_packets + 1;
  sum_nsec = (s.sum_nsec + diff) % 2 ^ 64;
  max_nsec = if ltb s.max_nsec diff then diff else s.max_nsec;
  min_nsec = if ltb diff s.min_nsec then diff else s.min_nsec;
}

abbrev is_pong : Command → Bool
is_pong pong = true
is_pong _ = false

-- Whether a message is an answer to this run.
abbrev pub is_own : ℕ → Ping → Bool
is_own unique_id m = is_pong m.command && (m.unique_id == unique_id)

pub data LoopEnd : Type 0 where
  -- the jump to `err`, and a receive that does not return
  jumped waits : LoopEnd
  -- the end of the loop, or the jump to `exit`
  leaves : Statistics → LoopEnd

-- The lines, of a node, a sequence number and a time.
pub record Heard : Type 0 where
  pub lines : List (ℕ × (ℕ × ℕ))
  pub end : LoopEnd

abbrev pub heard_none : LoopEnd → Heard
heard_none e = record { lines = []; end = e }

abbrev pub heard_first : ℕ × (ℕ × ℕ) → Heard → Heard
heard_first l h = record h { lines = l ∷ h.lines }

-- The loop of the receiver, with the loop for other messages in it.
unfoldable pub receive_pings : List Reception → ℕ → Bool → ℕ → Statistics → Heard
receive_pings [] unique_id set num_ping s = heard_none (if num_ping == 0 then leaves s else waits)
receive_pings (r ∷ rs) unique_id set num_ping s =
    if num_ping == 0 then heard_none (leaves s) else elim r.clock [
      | none ↦ heard_none jumped
      | some end_ns ↦ elim r.received [
        | failure ↦ heard_none jumped
        | interrupt ↦ heard_none (leaves s)
        | message src_id m ↦
            let diff = diff_ns m.timestamp end_ns in
            let own = is_own unique_id m in
            let s' = if own then add_time diff s else s in
            let left = if own then decremented set num_ping else num_ping in
            let rest = receive_pings rs unique_id set left s' in
            if r.signal_after
            then heard_none (leaves s)
            else if not own
            then rest
            else heard_first (src_id, (m.seq_num, diff))
                (if r.signal_end then heard_none (leaves s') else rest)
      ]
    ]
