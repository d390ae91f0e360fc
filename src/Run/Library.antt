-- ===== src/Run/Library.antt =====
-- axiom-run/lib/sync.c and rpc.c: the calls of the application to its axiom-run, each over a socket of
-- its own with a name in the file system, and nodes.c. A name is a number, from the two numbers that
-- the templates of common.h print; which names exist is the state `names`. The results of the system
-- calls are parameters. The messages to stderr are left out.
pub mod Names
mod Tests
use axiom_evi_apps.Prelude.{
  ℕ, zero, suc, ◌+◌, ◌-◌, ◌^◌, ◌%◌, Bool, true, false, List, [], ◌∷◌, Option, none, some, ltb, ◌==◌,
  ◌&&◌, not, if◌then◌else◌,
}
use axiom_evi_apps.Run.Messages.{Header, cmd_barrier, cmd_rpc}

-- What the calls of one invocation return: AXIOM_USOCK as a number; whether a socket is made,
-- whether bind succeeds with a free name, and whether the message is sent whole.
pub record Calls : Type 0 where
  pub usock : Option ℕ
  pub socket : Bool
  pub bound : Bool
  pub sent : Bool

-- The result: 0 or -1, the names then, and how many sockets were opened and closed.
pub record CallEnd : Type 0 where
  pub ok : Bool
  pub names : ℕ → Bool
  pub opened : ℕ
  pub closed : ℕ

abbrev unused : (ℕ → Bool) → CallEnd
unused names = record { ok = false; names = names; opened = 0; closed = 0 }

abbrev pub unlink : (ℕ → Bool) → ℕ → ℕ → Bool
unlink names name n = if n == name then false else names n

-- The ends of both functions: the socket is closed and the name removed.
abbrev pub released : Bool → (ℕ → Bool) → ℕ → CallEnd
released ok names name = record { ok = ok; names = unlink names name; opened = 1; closed = 1 }

-- The part that the functions share up to the send: bind refuses a name that exists. Then `receive`
-- says how the call goes on.
unfoldable pub exchange : Calls → (ℕ → ℕ) → (ℕ → Bool) → Bool → CallEnd
exchange calls name_of names received = elim calls.usock [
  | none ↦ unused names
  | some ppid ↦
      if not calls.socket
      then unused names
      else if names (name_of ppid)
      then released false names (name_of ppid)
      else if not calls.bound
      then released false names (name_of ppid)
      else if not calls.sent
      then released false names (name_of ppid)
      else released received names (name_of ppid)
]

-- The message of axrun_sync; what its other members hold is not set.
abbrev pub barrier_message : ℕ → Header → Header
barrier_message barrier_id rest = record rest { command = cmd_barrier; barrier_id = barrier_id }

-- What recv makes of the header, with none for an error: a short message leaves the end as it was.
abbrev pub barrier_answered : ℕ → Header → Option (Header → Header) → Bool
barrier_answered barrier_id rest none = false
barrier_answered barrier_id rest (some overwrite) =
    let header = overwrite (barrier_message barrier_id rest) in
    header.barrier_id == barrier_id && header.command == cmd_barrier

abbrev pub axrun_max_barrier_id : ℕ
axrun_max_barrier_id = 15

-- axrun_sync, with BARRIER_CHILD_TEMPLATE_NAME.
unfoldable pub axrun_sync :
    (ℕ → ℕ → ℕ) → Calls → Header → Option (Header → Header) → (ℕ → Bool) → ℕ → CallEnd
axrun_sync template calls rest answer names barrier_id =
    if ltb axrun_max_barrier_id barrier_id
    then unused names
    else exchange calls (λ ppid. template ppid barrier_id) names
        (barrier_answered barrier_id rest answer)

-- What axrun_rpc asks for.
pub record Request : Type 0 where
  pub id : ℕ
  pub function : ℕ
  pub size : ℕ

-- The size that axrun_rpc gives back: what recvmsg returned less the size of a header, as a size_t; no
-- answer is awaited without room for one.
unfoldable pub answer_size : ℕ → ℕ → Option ℕ → Option ℕ
answer_size header_size room received =
    if room == 0
    then some 0
    else elim received [ none ↦ none | some n ↦ some ((n + 2 ^ 64 - header_size) % 2 ^ 64) ]

abbrev pub has : Option ℕ → Bool
has none = false
has (some n) = true

-- axrun_rpc of thread `tid`, with RPC_CHILD_TEMPLATE_NAME, and the size of the answer.
unfoldable pub axrun_rpc :
    ℕ → (ℕ → ℕ → ℕ) → Calls → ℕ → Option ℕ → (ℕ → Bool) → ℕ → CallEnd × Option ℕ
unfolding answer_size
axrun_rpc header_size template calls room received names tid =
    let size = answer_size header_size room received in
    let r = exchange calls (λ ppid. template ppid tid) names (has size) in
    (r, if r.ok then size else none)

-- nodes.c, with strtoull and strtoul on the texts of the environment.
unfoldable pub axrun_get_nodes : Option ℕ → ℕ
axrun_get_nodes none = 0
axrun_get_nodes (some nodes) = nodes % 2 ^ 64

-- -1 is none; an int has 32 bits.
unfoldable pub axrun_get_num_nodes : Option ℕ → Option ℕ
axrun_get_num_nodes none = none
axrun_get_num_nodes (some n) = some (n % 2 ^ 32)
