-- ===== src/Run/Sender.antt =====
-- axiom-run/master.c: `master_sender`, the thread that passes the master's standard input on to the
-- slaves, and `myexit`, the signal handler. What `select` and `read` answer is a script, one entry for
-- each round.
pub mod Stdin
mod Tests
use axiom_evi_apps.Prelude.{
  ℕ, Bool, true, false, List, [], ◌∷◌, ◌++◌, map, none, some, Outcome, done, undefined, ◌>>=◌,
  bit_and, ◌&&◌, if◌then◌else◌,
}
use axiom_evi_apps.Run.Nodes.{send_raw}
use axiom_evi_apps.Run.Messages.{Header, Effect, send, cmd_recv_from_stdin, cmd_kill}

-- A round: `select` fails, interrupted or not; the end is asked for; `read` fails, interrupted or
-- not, or gives bytes, none of them at the end of the file.
pub data StdinRound : Type 0 where
  woken select_error end_asked read_again read_error : StdinRound
  got : List ℕ → StdinRound

-- What the threads and the handler share: the NIC, the nodes, the port of the slaves, and what the
-- header of an unset buffer holds.
pub record Link : Type 0 where
  pub accepts : ℕ → Bool
  pub nodes : ℕ
  pub slave_port : ℕ
  pub stale : Header

-- my_axiom_send_raw, whose result is not read
unfoldable pub send_to_slaves : Link → Header → List ℕ → Outcome (List Effect)
send_to_slaves link header raw = elim (send_raw link.accepts link.nodes) [
  | none ↦ undefined
  | some s ↦ done (map (λ (n : ℕ). send n link.slave_port header raw) s.tried)
]

abbrev pub stdin_header : Link → Header
stdin_header link = record (link.stale) { command = cmd_recv_from_stdin }

-- The loop: what is sent, and whether the thread ends.
unfoldable pub master_sender : Link → List StdinRound → Outcome (List Effect × Bool)
master_sender link [] = done ([], false)
master_sender link (woken ∷ more) = master_sender link more
master_sender link (select_error ∷ more) = done ([], true)
master_sender link (end_asked ∷ more) = done ([], true)
master_sender link (read_again ∷ more) = master_sender link more
master_sender link (read_error ∷ more) = done ([], true)
master_sender link (got [] ∷ more) = master_sender link more
master_sender link (got (x ∷ xs) ∷ more) =
    send_to_slaves link (stdin_header link) (x ∷ xs) >>= λ (es : List Effect).
    master_sender link more >>= λ (q : List Effect × Bool). done (es ++ q.0, q.1)

-- The handler before its exit (EXIT_SUCCESS), with whether `mydev` is set and whether the kill service
-- is on.
unfoldable pub myexit : Link → Bool → Bool → ℕ → Outcome (List Effect)
unfolding send_to_slaves
myexit link mydev send_kill_on_exit_signal sig =
    if mydev && send_kill_on_exit_signal
    then send_to_slaves link (record (link.stale) { command = cmd_kill; status = bit_and sig 0x7f })
        []
    else done []
