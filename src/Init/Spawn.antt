-- ===== src/Init/Spawn.antt =====
-- axiom-init/axiom-spawn/axiom_spawn.c: the daemon gathers the parts of a spawn request, which come
-- in messages of one session, in one of four slots. `info` is the list of the slots, strings are
-- lists of bytes, and allocation is taken to succeed. The type and the two flags of a message, which
-- the NIC headers define, are a data type and two Booleans. `daemonize` starts a process: the model
-- notes what it is called with, where the NULL that ends an array of strings is the end of a list.
pub mod Slots
pub mod Assembly
pub mod Series
mod Tests
use axiom_evi_apps.Prelude.{
  ℕ, zero, suc, ◌+◌, ◌-◌, Bool, true, false, List, [], ◌∷◌, ◌++◌, Option, none, some, Outcome, done,
  aborted, undefined, ◌>>=◌, ltb, ◌==◌, not, ◌||◌, if◌then◌else◌, length, get_or, set, take,
  replicate,
}
use axiom_evi_apps.Init.Session.{used, release}

-- info_t
pub record Slot : Type 0 where
  pub session_id : ℕ
  pub exec : Option (List ℕ)
  pub cwd : Option (List ℕ)
  pub args : List (List ℕ)
  pub env : List (List ℕ)

-- The AXIOM_SPAWN_TYPE_ values.
pub data Part : Type 0 where
  exe_part cwd_part arg_part env_part unknown_part : Part

-- axiom_spawn_req_payload_t; `is_request` is the test of the command.
pub record Request : Type 0 where
  pub is_request : Bool
  pub session_id : ℕ
  pub flag_reset : Bool
  pub flag_exec : Bool
  pub part : Part
  pub data_bytes : List ℕ

-- What `daemonize` is called with.
pub record Launch : Type 0 where
  pub cwd : Option (List ℕ)
  pub exec : Option (List ℕ)
  pub args : List (List ℕ)
  pub env : List (List ℕ)

-- MAX_CONCURRENT_SPAWNS
abbrev pub max_concurrent_spawns : ℕ
max_concurrent_spawns = 4

-- The C string at the start of some bytes.
pub c_string : List ℕ → List ℕ
c_string [] = []
c_string (x ∷ xs) = if x == 0 then [] else x ∷ c_string xs

-- `data`, after its last byte is made 0.
pub data_string : ℕ → List ℕ → List ℕ
unfolding c_string
data_string max_data xs = c_string (take (max_data - 1) xs)

-- The default values of a slot.
pub clear : Slot → Slot
clear s = record s { exec = none; cwd = none; args = []; env = [] }

-- The `switch` on the type.
pub store : Part → List ℕ → Slot → Slot
store exe_part text s = record s { exec = some text }
store cwd_part text s = record s { cwd = some text }
store arg_part text s = record s { args = s.args ++ text ∷ [] }
store env_part text s = record s { env = s.env ++ text ∷ [] }
store unknown_part text s = s

-- From FLAG_RESET to the `switch`.
pub assemble : ℕ → Bool → Request → Slot → Slot
unfolding clear store data_string
assemble max_data reset req s =
    store req.part (data_string max_data req.data_bytes) (if reset then clear s else s)

pub launch_of : Slot → Launch
launch_of s = record { cwd = s.cwd; exec = s.exec; args = s.args; env = s.env }

-- The search from index idx on: the index of the session's slot, or the end, and `idx_free`.
pub find_slot : ℕ → ℕ → List Slot → ℕ → Option ℕ → ℕ × Option ℕ
find_slot empty session [] idx idx_free = (idx, idx_free)
find_slot empty session (s ∷ ss) idx idx_free =
    let idx_free' = if s.session_id == empty then some idx else idx_free in
    let rest = find_slot empty session ss (idx + 1) idx_free' in
    if s.session_id == session then (idx, idx_free') else rest

-- The slots, the mask of free sessions, and what was launched.
pub record State : Type 0 where
  pub slots : List Slot
  pub sessions : ℕ

-- A slot with nothing in it.
abbrev pub no_slot : ℕ → Slot
no_slot empty = record { session_id = empty; exec = none; cwd = none; args = []; env = [] }

-- After `axiom_spawn_init`.
pub spawn_init : ℕ → List Slot
spawn_init empty = replicate max_concurrent_spawns (no_slot empty)

module _ (empty max_data : ℕ) where
  -- From the choice of the slot to the end. With FLAG_EXEC the slot and the session are given back.
  pub serve_slot : Request → Bool → ℕ → Slot → State → Outcome (State × List Launch)
  unfolding assemble launch_of clear
  serve_slot req reset idx slot s =
      let slot' = assemble max_data reset req slot in
      if req.flag_exec
      then (release slot'.session_id s.sessions >>= λ (sessions : ℕ). done (
        record {
          slots = set s.slots idx (record (clear slot') { session_id = empty });
          sessions = sessions;
        },
        launch_of slot' ∷ [],
      ))
      else done (record s { slots = set s.slots idx slot' }, [])

  pub in_slots : Request → State → Outcome (State × List Launch)
  unfolding find_slot serve_slot
  in_slots req s =
      let (idx, idx_free) = find_slot empty req.session_id s.slots 0 none in
      if ltb idx (length s.slots)
      then serve_slot req req.flag_reset idx (get_or s.slots idx (no_slot empty)) s
      else elim idx_free [
        | none ↦ done (s, [])
        | some i ↦
            serve_slot req true i
              (record (get_or s.slots i (no_slot empty)) { session_id = req.session_id }) s
      ]

  pub spawn_req : Request → State → Outcome (State × List Launch)
  unfolding in_slots
  spawn_req req s =
      if req.is_request
      then (used req.session_id s.sessions >>= λ (busy : Bool).
          if busy then in_slots req s else done (s, []))
      else done (s, [])

  -- Requests in a row.
  pub spawn_all : List Request → State → Outcome (State × List Launch)
  spawn_all [] s = done (s, [])
  spawn_all (req ∷ reqs) s = spawn_req req s >>= λ (r : State × List Launch).
      spawn_all reqs r.0 >>= λ (q : State × List Launch). done (q.0, r.1 ++ q.1)
