-- ===== src/Run/Options.antt =====
-- axiom-run/axiom-run.c, the options of the launcher's `main`: the loop over `getopt_long`, with
-- what `getopt_long`, `atoi`, `strcmp` and `sscanf` make of the words. Numbers that are negative in
-- C are not values here. The scheduling and the environment option are other state; the options
-- that print and exit are left out.
pub mod Nodes
pub mod Masks
pub mod Slave
mod Tests
use axiom_evi_apps.Prelude.{
  ℕ, zero, suc, ◌+◌, ◌-◌, ◌^◌, bit_and, bit_or, Bool, true, false, List, [], ◌∷◌, ◌++◌, Option,
  none, some, ltb, ◌==◌, not, ◌||◌, if◌then◌else◌,
}
use axiom_evi_apps.Bits.Words.{complement}
use axiom_evi_apps.Run.Exit.Modes.{Profile, gasnet, ompss, all, profile_flags, set_exit_mode}
use axiom_evi_apps.Run.Messages.{has_service}
use axiom_evi_apps.Run.Options.Nodes.{NodeArg, hex, decode_node_arg, all_nodes_mask}

-- The variables that the options set; `none` is -1.
pub record Config : Type 0 where
  pub services : ℕ
  pub flags : ℕ
  pub termmode : ℕ
  pub nodes : ℕ
  pub gdb_nodes : ℕ
  pub gdb_port : ℕ
  pub slave : Bool
  pub port : Option ℕ
  pub master_node : Option ℕ
  pub master_port : Option ℕ
  pub magic : ℕ

-- SIGTERM and the other signals that -T takes
abbrev pub sigterm : ℕ
sigterm = 15

abbrev pub sigquit : ℕ
sigquit = 3

abbrev pub initial : Config
initial = record {
  services = 0;
  flags = 0;
  termmode = sigterm;
  nodes = 0;
  gdb_nodes = 0;
  gdb_port = 0;
  slave = false;
  port = none;
  master_node = none;
  master_port = none;
  magic = 0;
}

-- The services, in the order of their bits.
pub data Service : Type 0 where
  barrier exit redirect rpc allocator kill : Service

-- The *_SERVICE masks
abbrev pub service_bit : Service → ℕ
service_bit barrier = 0x01
service_bit exit = 0x02
service_bit redirect = 0x04
service_bit rpc = 0x08
service_bit allocator = 0x10
service_bit kill = 0x20

-- The services that a profile switches on.
unfoldable pub profile_services : Profile → ℕ → ℕ
profile_services gasnet services = bit_or services 0x3f
profile_services ompss services = bit_or services 0x3f
profile_services all services = bit_or services 0x3d

unfoldable pub profile_termmode : Profile → ℕ → ℕ
profile_termmode gasnet termmode = sigquit
profile_termmode ompss termmode = termmode
profile_termmode all termmode = termmode

-- The argument of -T: a number, one of the names, or another word.
pub data TermArg : Type 0 where
  number : ℕ → TermArg
  name_term name_quit name_int name_abrt name_kill other_name : TermArg

unfoldable pub term_value : TermArg → ℕ
term_value (number n) = n
term_value name_term = 15
term_value name_quit = 3
term_value name_int = 2
term_value name_abrt = 6
term_value name_kill = 9
term_value other_name = 0

unfoldable pub allowed_term : ℕ → Bool
allowed_term n = n == 15 || (n == 2 || (n == 6 || (n == 3 || n == 9)))

-- The options, `on` and `off` for -r, -b, -e, -k, -c, -a and their opposites.
pub data Opt : Type 0 where
  profile : Profile → Opt
  on off : Service → Opt
  ident : Option ℕ → Opt
  exit_mode_opt : ℕ → Opt
  term : TermArg → Opt
  node_list : NodeArg → Opt
  num_nodes : ℕ → Opt
  gdb : NodeArg → ℕ → Opt
  as_slave : Opt
  port_opt : ℕ → Opt
  master : ℕ → Option ℕ → Opt
  magic_opt : ℕ → Opt
  sched environment : Opt

-- One turn of the switch; `none` is an exit with the usage message.
unfoldable pub parse_opt : Opt → Config → Option Config
unfolding profile_services profile_termmode term_value allowed_term profile_flags set_exit_mode
parse_opt (profile p) c = some (record c {
  services = profile_services p c.services;
  flags = profile_flags p c.flags;
  termmode = profile_termmode p c.termmode;
})
parse_opt (on s) c = some (record c { services = bit_or c.services (service_bit s) })
parse_opt (off s) c =
    some (record c { services = bit_and c.services (complement 32 (service_bit s)) })
parse_opt (ident none) c = some (record c { flags = bit_or c.flags 0x01 })
parse_opt (ident (some mode)) c =
    let flags = bit_or c.flags 0x01 in
    some (record c { flags = if mode == 1 then bit_or flags 0x02 else flags })
parse_opt (exit_mode_opt mode) c = elim (set_exit_mode mode c.flags) [
  | none ↦ none
  | some flags ↦ some (record c { flags = flags })
]
parse_opt (term arg) c =
    if allowed_term (term_value arg) then some (record c { termmode = term_value arg }) else none
parse_opt (node_list arg) c = elim (decode_node_arg arg) [
  | none ↦ none
  | some nodes ↦ some (record c { nodes = nodes })
]
parse_opt (num_nodes n) c = if n == 0 then none else some (record c { nodes = all_nodes_mask n })
parse_opt (gdb arg port) c = elim (decode_node_arg arg) [
  | none ↦ none
  | some nodes ↦ some (record c { gdb_nodes = nodes; gdb_port = port })
]
parse_opt as_slave c = some (record c { slave = true })
parse_opt (port_opt n) c = some (record c { port = some n })
parse_opt (master node none) c = some (record c { master_node = some node })
parse_opt (master node (some port)) c =
    some (record c { master_node = some node; master_port = some port })
parse_opt (magic_opt n) c = some (record c { magic = n })
parse_opt sched c = some c
parse_opt environment c = some c

unfoldable pub parse : List Opt → Config → Option Config
unfolding parse_opt
parse [] c = some c
parse (o ∷ os) c = elim (parse_opt o c) [ none ↦ none | some c' ↦ parse os c' ]

-- One of the words that the master adds under a test.
abbrev pub word_if : Bool → Opt → List Opt → List Opt
word_if b o rest = if b then o ∷ rest else rest

-- The options that the master gives to the axiom-run of a slave.
unfoldable pub slave_options : Config → ℕ → ℕ → ℕ → List Opt
slave_options c slave_port master_node master_port =
    as_slave
    ∷ (node_list (hex c.nodes)
        ∷ (port_opt slave_port
            ∷ (master master_node (some master_port)
                ∷ (sched
                    ∷ (environment
                        ∷ (magic_opt c.magic
                            ∷ word_if (has_service c.services 0x04) (on redirect) (
                                word_if (has_service c.services 0x01) (on barrier) (
                                  word_if (has_service c.services 0x02) (on exit) (
                                    word_if (has_service c.services 0x20) (on kill) (
                                      word_if (has_service c.services 0x08) (on rpc) (
                                        word_if (not (c.termmode == sigterm))
                                          (term (number c.termmode))
                                          (word_if (not (c.gdb_nodes == 0))
                                            (gdb (hex c.gdb_nodes) c.gdb_port) []))))))))))))
