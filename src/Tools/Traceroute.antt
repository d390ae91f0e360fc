-- ===== src/Tools/Traceroute.antt =====
-- axiom-traceroute/axiom-traceroute.c: the options, the message that is sent to the next node, and
-- the loop over the answers. The tool uses the messages of Init/Replies. Its counters are uint8_t.
-- The device, the NIC library and what is received after the message are parameters.
pub mod Route
mod Tests
use axiom_evi_apps.Prelude.{
  ℕ, zero, suc, ◌+◌, ◌%◌, Bool, true, false, List, [], ◌∷◌, Option, none, some, ltb, ◌==◌, not,
  if◌then◌else◌,
}
use axiom_evi_apps.Init.Replies.{
  Command, traceroute, traceroute_reply, Traceroute, Post, to_node, to_interface,
}

-- An option as getopt_long and sscanf read it; an unknown one is `help`.
pub data TraceOption : Type 0 where
  dest : Option ℕ → TraceOption
  verbose version help : TraceOption

pub data Arguments : Type 0 where
  -- the exit code is 0 or -1
  quits : Bool → Arguments
  runs : Option ℕ → Arguments

unfoldable pub trace_options : List TraceOption → Option ℕ → Arguments
trace_options [] dest_node = runs dest_node
trace_options (dest none ∷ os) dest_node = quits false
trace_options (dest (some n) ∷ os) dest_node = trace_options os (some n)
trace_options (verbose ∷ os) dest_node = trace_options os dest_node
trace_options (version ∷ os) dest_node = quits true
trace_options (help ∷ os) dest_node = quits false

pub data TraceEnd : Type 0 where
  -- exit (-1), and exit (0) after the version
  failed quit : TraceEnd
  -- the jump to `err`
  stopped : TraceEnd
  -- the last line, with the count
  hops : ℕ → TraceEnd
  -- a receive that does not return
  waiting : TraceEnd

-- What is printed: a step and a node on each line.
pub record Trace : Type 0 where
  pub lines : List (ℕ × ℕ)
  pub end : TraceEnd

abbrev pub without_lines : TraceEnd → Trace
without_lines e = record { lines = []; end = e }

abbrev pub line_first : ℕ × ℕ → Trace → Trace
line_first l r = record r { lines = l ∷ r.lines }

abbrev pub is_reply : Command → Bool
is_reply traceroute_reply = true
is_reply _ = false

-- The loop, with `received_reply` and `expected_reply`; a receive that fails is none.
unfoldable pub receive_replies : ℕ → List (Option (ℕ × Traceroute)) → ℕ → ℕ → Trace
receive_replies dest_node [] received expected = without_lines waiting
receive_replies dest_node (none ∷ rs) received expected = without_lines stopped
receive_replies dest_node (some (node, t) ∷ rs) received expected =
    let received' = (received + 1) % 256 in
    let expected' = if node == dest_node then t.step % 256 else expected in
    let rest = receive_replies dest_node rs received' expected' in
    if not (is_reply t.command)
    then without_lines stopped
    else line_first (t.step, node)
        (if ltb received' expected' then rest else without_lines (hops received'))

-- What the tool runs on: its node, if the device opens; whether the port is its own; and the NIC
-- library.
pub record Device : Type 0 where
  pub node : Option ℕ
  pub bound : Bool
  pub next_hop : ℕ → Option ℕ
  pub accepts : Post → Bool
  pub received : Post → List (Option (ℕ × Traceroute))

abbrev pub first_message : ℕ → ℕ → Traceroute
first_message node_id dest_node = record {
  command = traceroute;
  src_id = node_id;
  dst_id = dest_node;
  step = 0;
}

-- axiom_send_raw of the first message and the loop, with AXIOM_NODES_MAX.
unfoldable pub start_trace : ℕ → Device → ℕ → ℕ → Trace
unfolding receive_replies
start_trace nodes_max dev node_id dest_node = elim (dev.next_hop dest_node) [
  | none ↦ without_lines failed
  | some if_id ↦
      let payload = first_message node_id dest_node in
      let post = to_interface if_id payload in
      if not (dev.accepts post)
      then without_lines stopped
      else receive_replies dest_node (dev.received post) 0 (nodes_max % 256)
]

-- main, after the options
unfoldable pub trace : ℕ → Device → Arguments → Trace
unfolding start_trace
trace nodes_max dev (quits true) = without_lines quit
trace nodes_max dev (quits false) = without_lines failed
trace nodes_max dev (runs none) = without_lines failed
trace nodes_max dev (runs (some dest_node)) = elim dev.node [
  | none ↦ without_lines failed
  | some node_id ↦
      if not dev.bound then without_lines failed else start_trace nodes_max dev node_id dest_node
]

unfoldable pub traceroute_main : ℕ → Device → List TraceOption → Trace
unfolding trace
traceroute_main nodes_max dev os = trace nodes_max dev (trace_options os none)
