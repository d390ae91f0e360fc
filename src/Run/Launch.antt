-- ===== src/Run/Launch.antt =====
-- axiom-run/axiom-run.c, the rest of the launcher: the ports, the choice of the nodes, the start of
-- the application on them, the start barrier, the environment and the exit code. The spawn request
-- of the axiom-init library, `axiom_send_raw`, the regular expression and the wait status are
-- parameters.
pub mod Choice
pub mod Starting
mod Tests
use axiom_evi_apps.Prelude.{
  ℕ, zero, suc, ◌+◌, ◌/◌, ◌%◌, ◌^◌, min, bit_and, Bool, true, false, List, [], ◌∷◌, ◌++◌, take,
  Option, none, some, Outcome, done, aborted, ltb, ◌==◌, not, ◌&&◌, ◌||◌, if◌then◌else◌,
}
use mathlib.Core.Option
use axiom_evi_apps.Run.Emit.{memchr, max_num_nodes}
use axiom_evi_apps.Run.Exit.{WaitStatus}
use axiom_evi_apps.Run.Nodes.{Sent, send_raw, count_nodes}
use axiom_evi_apps.Run.Options.{Config}
use axiom_evi_apps.Run.Options.Nodes.{all_nodes_mask, clz}

-- MY_DEFAULT_MASTER_PORT and MY_DEFAULT_SLAVE_PORT
abbrev pub default_master_port : ℕ
default_master_port = 5

abbrev pub default_slave_port : ℕ
default_slave_port = 6

abbrev or_default : Option ℕ → ℕ → ℕ
or_default none d = d
or_default (some n) d = n

-- The port of the master and that of the slave: `-p` sets the own one.
unfoldable pub ports : Config → ℕ × ℕ
ports c = elim c.port [
  | none ↦ (or_default c.master_port default_master_port, default_slave_port)
  | some p ↦
      if c.slave then (or_default c.master_port default_master_port, p) else (p, default_slave_port)
]

-- The nodes of the master, from those that the network has: all when none were named, cropped to
-- the network's when the greatest is too great; a mask without nodes fails the assertion. The test
-- `bn > n`, where `bn = MAX_NODES_SUPPORTED - __clz(nodes) - 1` may be negative, is written with
-- sums.
unfoldable pub choose_nodes : ℕ → ℕ → Outcome ℕ
choose_nodes network nodes =
    let n = min network max_num_nodes in
    let named = if nodes == 0 then all_nodes_mask n else nodes in
    let cropped =
      if ltb (n + 1 + clz named) max_num_nodes then bit_and named (all_nodes_mask n) else named in
    if cropped == 0 then aborted else done cropped

-- What the two loops of `start` did: the nodes that a spawn was asked of, each with whether it is
-- for gdbserver, whether all were accepted, and the nodes that CMD_START was sent to.
pub record Asked : Type 0 where
  pub asked : List (ℕ × Bool)
  pub accepted : Bool

pub record Started : Type 0 where
  pub spawns : Asked
  pub notified : List ℕ

unfoldable pub ask_more : ℕ × Bool → Asked → Asked
ask_more a rest = record { asked = a ∷ rest.asked; accepted = rest.accepted }

-- The first loop, which ends at the first request that is refused; `none` means that the fuel ran
-- out. `node` is a uint8_t.
unfoldable pub ask_loop : (ℕ → Bool → Bool) → ℕ → ℕ → ℕ → ℕ → Option Asked
unfolding ask_more
ask_loop spawn zero node nodes gdb =
    if nodes == 0 then some (record { asked = []; accepted = true }) else none
ask_loop spawn (suc fuel) node nodes gdb =
    let rest = ask_loop spawn fuel ((node + 1) % 2 ^ 8) (nodes / 2) (gdb / 2) in
    let debug = gdb % 2 == 1 in
    if nodes == 0
    then some (record { asked = []; accepted = true })
    else if nodes % 2 == 1
    then (if spawn node debug
        then Option.map (ask_more (node, debug)) rest
        else some (record { asked = (node, debug) ∷ []; accepted = false }))
    else rest

abbrev pub started : Option Asked → Option Sent → Option Started
started none sent = none
started (some spawns) none = none
started (some spawns) (some sent) = some (record { spawns = spawns; notified = sent.tried })

-- The second loop is that of `my_axiom_send_raw`, over all the nodes again.
unfoldable pub start : (ℕ → Bool → Bool) → (ℕ → Bool) → ℕ → ℕ → Option Started
unfolding ask_loop
start spawn accepts nodes gdb = started (ask_loop spawn 64 0 nodes gdb) (send_raw accepts nodes)

-- CMD_START
abbrev pub cmd_start : ℕ
cmd_start = 0x87

-- What `axiom_recv_raw` gives: an error, or a message's command and magic number.
pub data Received : Type 0 where
  receive_error : Received
  received : ℕ → ℕ → Received

-- The loop of `wait_on_barrier`: the messages behind the one that ends it, `none` while it waits.
unfoldable pub wait_on_barrier : ℕ → List Received → Option (List Received)
wait_on_barrier magic [] = none
wait_on_barrier magic (receive_error ∷ more) = wait_on_barrier magic more
wait_on_barrier magic (received command m ∷ more) =
    if not (command == cmd_start)
    then wait_on_barrier magic more
    else if not (m == magic)
    then wait_on_barrier magic more
    else some more

-- The message of `notify_barrier`.
abbrev pub notify_barrier : ℕ → Received
notify_barrier magic = received cmd_start magic

-- An entry of the environment that is handed on: one of the process, or the text that `snprintf`
-- makes for AXIOM_RUN and AXIOM_NODES.
pub data EnvEntry : Type 0 where
  kept : List ℕ → EnvEntry
  axiom_run axiom_nodes : ℕ → EnvEntry

starts_with : List ℕ → List ℕ → Bool
starts_with [] xs = true
starts_with (p ∷ ps) [] = false
starts_with (p ∷ ps) (x ∷ xs) = p == x && starts_with ps xs

abbrev text_run : List ℕ
text_run = 65 ∷ 88 ∷ 73 ∷ 79 ∷ 77 ∷ 95 ∷ 82 ∷ 85 ∷ 78 ∷ []

abbrev text_nodes : List ℕ
text_nodes = 65 ∷ 88 ∷ 73 ∷ 79 ∷ 77 ∷ 95 ∷ 78 ∷ 79 ∷ 68 ∷ 69 ∷ 83 ∷ []

abbrev equals_sign : ℕ
equals_sign = 61

-- The loop over `environ`: what is kept, and `already`. `matches` says whether the regular
-- expression matches a name from its first to its last byte.
unfoldable pub select_env : (List ℕ → Bool) → List (List ℕ) → List EnvEntry × Bool
unfolding starts_with memchr
select_env matches [] = ([], false)
select_env matches (entry ∷ entries) =
    let rest = select_env matches entries in
    elim (memchr equals_sign entry) [
      | none ↦ rest
      | some p ↦ (
        if matches (take p entry) then kept entry ∷ rest.0 else rest.0,
        starts_with text_run entry || (starts_with text_nodes entry || rest.1),
      )
    ]

unfoldable pub prepare_env : (List ℕ → Bool) → Bool → ℕ → List (List ℕ) → Option (List EnvEntry)
unfolding select_env
prepare_env matches slave nodes environ =
    let (entries, already) = select_env matches environ in
    if slave && not already
    then elim (count_nodes nodes) [
      | none ↦ none
      | some n ↦ some (entries ++ (axiom_run n ∷ (axiom_nodes nodes ∷ [])))
    ]
    else some entries

-- The exit code of the launcher from a wait status.
unfoldable pub exit_value : WaitStatus → (ℕ → Bool) → (ℕ → ℕ) → ℕ → ℕ
exit_value w signaled term_signal status =
    if w.exited status
    then w.exit_code status
    else if signaled status
    then term_signal status + 128
    else 255
