-- ===== src/Tools/Ping/Report.antt =====
-- axiom-ping/axiom-ping.c: main, from the options to the report.
use axiom_evi_apps.Prelude.{
  ℕ, ◌^◌, Bool, true, false, List, [], Option, none, some, ltb, ◌==◌, not, if◌then◌else◌,
}
use axiom_evi_apps.Init.Replies.{Ping}
use axiom_evi_apps.Tools.Ping.{
  PingOption, Arguments, quits, pings, ping_options, Round, sender_body, Sent, Reception,
  Statistics, no_statistics, LoopEnd, jumped, waits, leaves, receive_pings,
}

-- The numbers of the report; the last line, with the least time, the sum and the greatest time, is
-- printed if a message was received.
pub record Report : Type 0 where
  pub sent_packets : ℕ
  pub recv_packets : ℕ
  pub rtt : Option (ℕ × (ℕ × ℕ))

unfoldable pub report : ℕ → Statistics → Report
report sent s = record {
  sent_packets = sent;
  recv_packets = s.recv_packets;
  rtt = if s.recv_packets == 0 then none else some (s.min_nsec, (s.sum_nsec, s.max_nsec));
}

pub data PingEnd : Type 0 where
  -- exit (-1), and exit (0) after the version
  failed quit : PingEnd
  -- the jump to `err`
  stopped : PingEnd
  -- a receive or a sender that does not return
  waiting : PingEnd
  reported : Report → PingEnd

pub record PingRun : Type 0 where
  pub lines : List (ℕ × (ℕ × ℕ))
  pub end : PingEnd

abbrev pub without_lines : PingEnd → PingRun
without_lines e = record { lines = []; end = e }

-- What the tool runs on: its node, if the device opens; whether the port is its own; rand; whether
-- pthread_create and pthread_join succeed; whether the signal comes before the receiver's loop; the
-- rounds of the sender; and what is received when these messages are sent to a destination.
pub record Device : Type 0 where
  pub node : Option ℕ
  pub bound : Bool
  pub unique_id : ℕ
  pub created : Bool
  pub joined : Bool
  pub signal_early : Bool
  pub rounds : List Round
  pub received : ℕ → List Ping → List Reception

-- num_ping as an int, where a negative number is as good as 0.
abbrev pub as_int : ℕ → ℕ
as_int n = if ltb n (2 ^ 31) then n else 0

abbrev pub is_set : Option ℕ → Bool
is_set none = false
is_set (some n) = true

-- num_ping in main
abbrev pub num_ping_of : Option ℕ → ℕ
num_ping_of none = 1
num_ping_of (some n) = n

-- From `exit` on.
unfoldable pub join_sender : Bool → Sent → LoopEnd → PingEnd
join_sender joined sent jumped = stopped
join_sender joined sent waits = waiting
join_sender joined sent (leaves s) =
    if not sent.ended
    then waiting
    else if not joined
    then stopped
    else reported (report sent.sent_packets s)

-- The threads.
unfoldable pub run_threads : ℕ → Device → ℕ → Option ℕ → PingRun
run_threads width dev dst_id num_ping =
    let n = num_ping_of num_ping in
    let set = is_set num_ping in
    let sent = sender_body dev.rounds width dev.unique_id set (as_int n) 0 in
    let heard =
      receive_pings (dev.received dst_id sent.messages) dev.unique_id set n no_statistics in
    if dev.signal_early
    then without_lines (join_sender dev.joined sent (leaves no_statistics))
    else record { lines = heard.lines; end = join_sender dev.joined sent heard.end }

-- main, after the options
unfoldable pub run_ping : ℕ → Device → Arguments → PingRun
run_ping width dev (quits true) = without_lines quit
run_ping width dev (quits false) = without_lines failed
run_ping width dev (pings dst_id num_ping) = elim dev.node [
  | none ↦ without_lines failed
  | some node_id ↦
      if not (dev.bound)
      then without_lines stopped
      else if not (dev.created)
      then without_lines stopped
      else run_threads width dev dst_id num_ping
]

unfoldable pub ping_main : ℕ → Device → List PingOption → PingRun
ping_main width dev os = run_ping width dev (ping_options os none none)
