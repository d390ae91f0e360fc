-- ===== src/Run/Launch/Starting.antt =====
-- How the application starts: the spawn requests, the start barrier, and what both sides agree on.
use axiom_evi_apps.Prelude.{
  ℕ, zero, suc, ◌+◌, ◌/◌, ◌%◌, ◌^◌, ◌<◌, ◌≤◌, ◌≡◌, refl, sym, arith, ap, Bool, true, false, List,
  [], ◌∷◌, ◌++◌, length, Option, some, ◌==◌, not, ◌&&◌, if◌then◌else◌, ◌∙◌, All, Bool-cases, inl,
  inr,
}
use axiom_evi_apps.Bits.{test_bit}
use axiom_evi_apps.Bits.Words.{lt-half}
use axiom_evi_apps.Run.Nodes.{Sent, send_raw}
use axiom_evi_apps.Run.Nodes.Laws.{
  copies, targets, targets-zero, send_raw-targets, copies_at, count_nodes-targets,
}
use axiom_evi_apps.Run.Options.{Config, initial, allowed_term, parse, slave_options}
use axiom_evi_apps.Run.Options.Slave.{parse-slave_options}
use axiom_evi_apps.Run.Launch.{
  ports, Asked, Started, started, ask_loop, ask_more, start, Received, receive_error, received,
  wait_on_barrier, notify_barrier, cmd_start, axiom_run, axiom_nodes, select_env, prepare_env,
}

-- The requests over a list of nodes, with the gdb mask read bit by bit, up to the first refusal.
unfoldable pub asked_in_turn : (ℕ → Bool → Bool) → ℕ → List ℕ → Asked
asked_in_turn spawn gdb [] = record { asked = []; accepted = true }
asked_in_turn spawn gdb (n ∷ ns) =
    let debug = test_bit gdb n == 1 in
    let rest = asked_in_turn spawn gdb ns in
    if spawn n debug
    then record { asked = (n, debug) ∷ rest.asked; accepted = rest.accepted }
    else record { asked = (n, debug) ∷ []; accepted = false }

ask_loop_lem :
    (spawn : ℕ → Bool → Bool) (w node nodes gdb whole : ℕ)
    → nodes < 2 ^ w
    → node + w < 2 ^ 8
    → ((k : ℕ) → test_bit gdb k ≡ test_bit whole (node + k))
    → ask_loop spawn w node nodes gdb ≡ some (asked_in_turn spawn whole (targets w node nodes))
unfolding ask_loop asked_in_turn targets ask_more test_bit
ask_loop_lem spawn zero node nodes gdb whole fits small same = ground arith
ask_loop_lem spawn (suc w) node nodes gdb whole fits small same =
    let wrap : (node + 1) % 2 ^ 8 ≡ node + 1 = omega arith in
    let shifted : (k : ℕ) → test_bit (gdb / 2) k ≡ test_bit whole (node + 1 + k) = λ k.
      let next : node + suc k ≡ node + 1 + k = omega arith in
      same (suc k) ∙ ap (test_bit whole) next in
    let rest =
      ask_loop_lem spawn w (node + 1) (nodes / 2) (gdb / 2) whole (lt-half w nodes fits)
        (omega arith) shifted in
    let first : node ≡ node + 0 = omega arith in
    let here : test_bit whole node ≡ gdb % 2 = ap (test_bit whole) first ∙ sym (same 0) in
    rw (wrap, rest, ← here) (ground (arith, targets-zero w (node + 1) (nodes / 2)))

-- What `start` does, as a run over the nodes of the mask.
abbrev run_over : (ℕ → Bool → Bool) → ℕ → List ℕ → Started
run_over spawn gdb ns = record { spawns = asked_in_turn spawn gdb ns; notified = ns }

start-targets :
    (spawn : ℕ → Bool → Bool) (accepts : ℕ → Bool) (nodes gdb : ℕ)
    → nodes < 2 ^ 64
    → start spawn accepts nodes gdb ≡ some (run_over spawn gdb (targets 64 0 nodes))
unfolding start
start-targets spawn accepts nodes gdb fits =
    let spawns = asked_in_turn spawn gdb (targets 64 0 nodes) in
    let same : (k : ℕ) → test_bit gdb k ≡ test_bit gdb (0 + k) =
      λ k. let e : k ≡ 0 + k = omega arith in ap (test_bit gdb) e in
    ap (λ (o : Option Asked). started o (send_raw accepts nodes))
      (ask_loop_lem spawn 64 0 nodes gdb gdb fits (omega arith) same)
    ∙ ap (λ (o : Option Sent). started (some spawns) o) (send_raw-targets accepts nodes fits)

-- The numbers rise.
unfoldable pub Ascending : List ℕ → Type 0
Ascending [] = Unit
Ascending (n ∷ ns) = All (λ m. n < m) ns × Ascending ns

All-below : (ns : List ℕ) (a b : ℕ) → a < b → All (λ m. b ≤ m) ns → All (λ m. a < m) ns
All-below [] a b lt all = tt
All-below (n ∷ ns) a b lt all = (omega (arith, all.0), All-below ns a b lt all.1)

All-from : (ns : List ℕ) (a b : ℕ) → a ≤ b → All (λ m. b ≤ m) ns → All (λ m. a ≤ m) ns
All-from [] a b le all = tt
All-from (n ∷ ns) a b le all = (omega (arith, all.0), All-from ns a b le all.1)

targets-from : (w node nodes : ℕ) → All (λ m. node ≤ m) (targets w node nodes)
unfolding targets
targets-from zero node nodes = tt
targets-from (suc w) node nodes =
    let later =
      All-from (targets w (node + 1) (nodes / 2)) node (node + 1) (omega arith)
        (targets-from w (node + 1) (nodes / 2)) in
    elim (Bool-cases (nodes % 2 == 1)) [
      | inl set ↦ rw set (omega arith, later)
      | inr clear ↦ rw clear later
    ]

targets-Ascending : (w node nodes : ℕ) → Ascending (targets w node nodes)
unfolding targets Ascending
targets-Ascending zero node nodes = tt
targets-Ascending (suc w) node nodes =
    let later = targets-Ascending w (node + 1) (nodes / 2) in
    let above =
      All-below (targets w (node + 1) (nodes / 2)) node (node + 1) (omega arith)
        (targets-from w (node + 1) (nodes / 2)) in
    elim (Bool-cases (nodes % 2 == 1)) [
      | inl set ↦ rw set (above, later)
      | inr clear ↦ rw clear later
    ]

-- For every 64-bit mask `start` ends. It asks the nodes of the mask for a spawn from the least on,
-- with gdbserver at those of the gdb mask, up to and with the first that refuses, and reports
-- success when none does; in either case CMD_START then goes to each node of the mask once, from the
-- least on, and to no other.
pub start_lem :
    (spawn : ℕ → Bool → Bool) (accepts : ℕ → Bool) (nodes gdb : ℕ)
    → nodes < 2 ^ 64
    → (s : Started) × (start spawn accepts nodes gdb ≡ some s)
      × (s.spawns ≡ asked_in_turn spawn gdb s.notified)
      × Ascending s.notified
      × ((n : ℕ) → copies n s.notified ≡ test_bit nodes n)
start_lem spawn accepts nodes gdb fits = (
  run_over spawn gdb (targets 64 0 nodes),
  start-targets spawn accepts nodes gdb fits,
  refl,
  targets-Ascending 64 0 nodes,
  λ n. copies_at 64 0 nodes n n fits (omega arith),
)

-- A message that does not end the wait.
abbrev pub is_other : ℕ → Received → Bool
is_other magic receive_error = true
is_other magic (received command m) = not (command == cmd_start && m == magic)

-- A slave that waits passes over errors, other commands and the start messages of other runs, and
-- goes on at the message of its master's `notify_barrier`, of which later messages are still unread.
pub wait_on_barrier-notify_barrier :
    (magic : ℕ) (before after : List Received)
    → All (λ r. is_other magic r ≡ true) before
    → wait_on_barrier magic (before ++ (notify_barrier magic ∷ after)) ≡ some after
unfolding wait_on_barrier
wait_on_barrier-notify_barrier magic [] after others = ground arith
wait_on_barrier-notify_barrier magic (receive_error ∷ before) after others =
    wait_on_barrier-notify_barrier magic before after others.1
wait_on_barrier-notify_barrier magic (received command m ∷ before) after others =
    let later = wait_on_barrier-notify_barrier magic before after others.1 in
    ground (arith, later, others.0)

-- The launched processes read in AXIOM_RUN how many nodes CMD_START is sent to, and in AXIOM_NODES
-- which: for a slave in whose environment neither variable is there yet.
pub prepare_env-start :
    (matches : List ℕ → Bool) (environ : List (List ℕ)) (spawn : ℕ → Bool → Bool)
    (accepts : ℕ → Bool) (nodes gdb : ℕ)
    → nodes < 2 ^ 64
    → (select_env matches environ).1 ≡ false
    → (s : Started) × (start spawn accepts nodes gdb ≡ some s)
      × (prepare_env matches true nodes environ
          ≡ some (
              (select_env matches environ).0
              ++ (axiom_run (length s.notified) ∷ (axiom_nodes nodes ∷ []))))
unfolding prepare_env
prepare_env-start matches environ spawn accepts nodes gdb fits fresh = (
  run_over spawn gdb (targets 64 0 nodes),
  start-targets spawn accepts nodes gdb fits,
  rw (fresh, count_nodes-targets nodes fits) refl,
)

-- A slave that reads the words of its master listens and answers on the ports that the master uses,
-- knows the master's node, and waits for the magic number that the master sends.
pub ports-slave_options :
    (c : Config) (node : ℕ)
    → c.services < 64
    → c.nodes < 2 ^ 64
    → c.gdb_nodes < 2 ^ 64
    → allowed_term c.termmode ≡ true
    → (c' : Config) × (parse (slave_options c (ports c).1 node (ports c).0) initial ≡ some c')
      × (ports c' ≡ ports c)
      × (c'.master_node ≡ some node)
      × (c'.magic ≡ c.magic)
unfolding ports
ports-slave_options c node few fits gdb_fits allowed = (
  _,
  parse-slave_options c (ports c).1 node (ports c).0 few fits gdb_fits allowed,
  refl,
  refl,
  refl,
)
