-- ===== src/Init/Main.antt =====
-- axiom-init/axiom-init.c, main: the options, the start and the main loop, whose dispatch is
-- Init/Replies. What getopt_long, sscanf and sch_decodeopt make of the words is data, and the results
-- of the system and NIC calls are parameters.
pub mod Saving
mod Tests
use axiom_evi_apps.Prelude.{
  ℕ, zero, suc, ◌+◌, ◌-◌, Bool, true, false, List, [], ◌∷◌, ◌++◌, Option, none, some, not, take,
  ◌&&◌, if◌then◌else◌,
}
use axiom_evi_apps.Init.Replies.{Command, Handler, handler}

-- An option: `-n` with the number that sscanf reads, if it reads one, and a file name as its bytes.
-- `-S` exits by itself where its argument is wrong.
pub data InitOption : Type 0 where
  be_master verbose version help : InitOption
  sched : Bool → InitOption
  nodeid : Option ℕ → InitOption
  routing save : List ℕ → InitOption

pub record InitArgs : Type 0 where
  pub master : Bool
  pub set_nodeid : Option ℕ
  -- the buffers, with none for one that was never written
  pub rt_filename : Option (List ℕ)
  pub rt_save_filename : Option (List ℕ)

abbrev pub no_args : InitArgs
no_args = record { master = false; set_nodeid = none; rt_filename = none; rt_save_filename = none }

-- The exit code 0 or -1, or the variables.
pub data InitParsed : Type 0 where
  exits : Bool → InitParsed
  goes_on : InitArgs → InitParsed

-- snprintf into a buffer of 1024 bytes, with a size of one less
abbrev pub file_name : List ℕ → List ℕ
file_name = take 1022

unfoldable pub init_options : List InitOption → InitArgs → InitParsed
init_options [] a = goes_on a
init_options (be_master ∷ os) a = init_options os (record a { master = true })
init_options (verbose ∷ os) a = init_options os a
init_options (version ∷ os) a = exits true
init_options (help ∷ os) a = exits false
init_options (sched true ∷ os) a = init_options os a
init_options (sched false ∷ os) a = exits false
init_options (nodeid none ∷ os) a = exits false
init_options (nodeid (some n) ∷ os) a = init_options os (record a { set_nodeid = some n })
init_options (routing f ∷ os) a = init_options os (record a { rt_filename = some (file_name f) })
init_options (save f ∷ os) a = init_options os (record a { rt_save_filename = some (file_name f) })

-- What the start does: axiom_set_node_id, axiom_discovery_master, axiom_rt_from_file and
-- axiom_rt_to_file, whose file is none where the buffer holds no name.
pub data Boot : Type 0 where
  set_node : ℕ → Boot
  discover : Boot
  load : List ℕ → Boot
  store : Option (List ℕ) → Boot

abbrev is_set : Option (List ℕ) → Bool
is_set none = false
is_set (some f) = true

-- The steps, and whether main goes on, by what the calls on the files return. The file that is
-- written is that of `-r`.
unfoldable pub boot : InitArgs → Bool → Bool → List Boot × Bool
boot a loads stores =
    let number : List Boot = elim a.set_nodeid [ none ↦ [] | some n ↦ set_node n ∷ [] ] in
    let saves = is_set a.rt_save_filename in
    let saved : List Boot = if saves then store a.rt_filename ∷ [] else [] in
    let kept = if saves then stores else true in
    if a.master then (number ++ discover ∷ saved, kept) else elim a.rt_filename [
      | none ↦ (number, true)
      | some f ↦
          if not loads then (number ++ load f ∷ [], false) else (number ++ load f ∷ saved, kept)
    ]

-- The calls that follow, in order, each with what is undone when it fails: the socket is closed and
-- its name removed.
pub record Sockets : Type 0 where
  pub socket : Bool
  pub bound : Bool
  pub chmod : Bool
  pub fds : Bool

pub data Undo : Type 0 where
  close_socket unlink_name close_device : Undo

-- Nothing to undo where the daemon gets to its loop.
unfoldable pub open_sockets : Sockets → Option (List Undo)
open_sockets c =
    if not c.socket
    then some (close_device ∷ [])
    else if not c.bound
    then some (close_socket ∷ close_device ∷ [])
    else if not c.chmod
    then some (close_socket ∷ unlink_name ∷ close_device ∷ [])
    else if not c.fds
    then some (close_socket ∷ unlink_name ∷ close_device ∷ [])
    else none

-- A round of the loop: select is interrupted or fails, or a message comes over the socket or from the
-- NIC with its sender; none is an error of the reception.
pub data Round : Type 0 where
  interrupted select_error : Round
  over_socket : Option Command → Round
  from_nic : Option (ℕ × Command) → Round

-- A handler that is called, with the sender; a message of the socket has none, and the variable `src`
-- is not set then.
pub record Handled : Type 0 where
  pub by : Handler
  pub src : Option ℕ

-- What the loop handled, and whether it came to its end.
unfoldable pub main_loop : List Round → List Handled × Bool
main_loop [] = ([], false)
main_loop (interrupted ∷ rs) = main_loop rs
main_loop (select_error ∷ rs) = ([], true)
main_loop (over_socket none ∷ rs) = ([], true)
main_loop (over_socket (some c) ∷ rs) =
    let rest = main_loop rs in (record { by = handler c; src = none } ∷ rest.0, rest.1)
main_loop (from_nic none ∷ rs) = ([], true)
main_loop (from_nic (some (n, c)) ∷ rs) =
    let rest = main_loop rs in (record { by = handler c; src = some n } ∷ rest.0, rest.1)

-- The options, then the device and its port, then the start, the sockets and the loop.
pub data InitEnd : Type 0 where
  exited : Bool → InitEnd
  served : List Handled → Bool → InitEnd

unfoldable pub serve : InitArgs → Bool → Bool → Bool → Sockets → List Round → List Boot × InitEnd
serve a ready loads stores sockets rounds =
    let started = boot a loads stores in
    let loop = main_loop rounds in
    if not ready
    then ([], exited false)
    else if not started.1
    then (started.0, exited false)
    else elim (open_sockets sockets) [
      | some undo ↦ (started.0, exited false)
      | none ↦ (started.0, served loop.0 loop.1)
    ]

unfoldable pub parsed_main :
    InitParsed → Bool → Bool → Bool → Sockets → List Round → List Boot × InitEnd
parsed_main (exits code) ready loads stores sockets rounds = ([], exited code)
parsed_main (goes_on a) ready loads stores sockets rounds =
    serve a ready loads stores sockets rounds

unfoldable pub init_main :
    List InitOption → Bool → Bool → Bool → Sockets → List Round → List Boot × InitEnd
init_main os ready loads stores sockets rounds =
    parsed_main (init_options os no_args) ready loads stores sockets rounds
