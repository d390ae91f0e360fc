-- ===== src/Run/Options/Slave.antt =====
-- What the axiom-run of a slave reads from the options that the master wrote.
use axiom_evi_apps.Prelude.{
  ℕ, ◌%◌, ◌^◌, ◌<◌, ◌≡◌, refl, arith, ap, bit_and, bit_or, Bool, true, false, List, [], some, ◌==◌,
  not, if◌then◌else◌, ◌∙◌, sym, for_all_from, for_all_from-at, Bool-cases, inl, inr, ==_iff,
}
use native.Mathlib.Nat.{mod-eq_of_lt}
use axiom_evi_apps.Run.Messages.{has_service}
use axiom_evi_apps.Run.Options.Nodes.{hex, decode_node_arg}
use axiom_evi_apps.Run.Options.{
  Config, initial, sigterm, Service, barrier, exit, redirect, rpc, kill, service_bit, number,
  term_value, allowed_term, Opt, on, term, gdb, parse_opt, parse, word_if, slave_options,
}

-- A word that switches a service on, under its test.
abbrev switched : Bool → Service → Config → Config
switched b s c = record c { services = if b then bit_or c.services (service_bit s) else c.services }

parse-switched :
    (b : Bool) (s : Service) (rest : List Opt) (c : Config)
    → parse (word_if b (on s) rest) c ≡ parse rest (switched b s c)
unfolding parse parse_opt
parse-switched true s rest c = refl
parse-switched false s rest c = refl

-- The services that the words make, from none.
abbrev services_read : ℕ → ℕ
services_read services =
    (switched (has_service services 0x08) rpc (
      switched (has_service services 0x20) kill (
        switched (has_service services 0x02) exit (
          switched (has_service services 0x01) barrier
            (switched (has_service services 0x04) redirect initial))))).services

services_table : for_all_from (λ s. services_read s == bit_and s 0x2f) 0 64 ≡ true
unfolding for_all_from
services_table = refl

services_read_lem : (services : ℕ) → services < 64 → services_read services ≡ bit_and services 0x2f
services_read_lem services lt = (==_iff (services_read services) (bit_and services 0x2f)).0 (
    for_all_from-at (λ s. services_read s == bit_and s 0x2f) 0 64 services (omega arith)
      (omega arith) services_table)

parse-term :
    (n : ℕ) (rest : List Opt) (c : Config)
    → allowed_term n ≡ true
    → c.termmode ≡ sigterm
    → parse (word_if (not (n == sigterm)) (term (number n)) rest) c
      ≡ parse rest (record c { termmode = n })
unfolding parse parse_opt term_value
parse-term n rest c allowed default = elim (Bool-cases (n == sigterm)) [
  | inl e ↦
      let same : c.termmode ≡ n = ground arith in
      rw e (ap (λ (m : ℕ). parse rest (record c { termmode = m })) same)
  | inr e ↦ rw (e, parse, allowed) refl
]

parse-gdb :
    (nodes port : ℕ) (c : Config)
    → nodes < 2 ^ 64
    → c.gdb_nodes ≡ 0
    → c.gdb_port ≡ 0
    → parse (word_if (not (nodes == 0)) (gdb (hex nodes) port) []) c
      ≡ some (record c { gdb_nodes = nodes; gdb_port = if nodes == 0 then 0 else port })
unfolding parse parse_opt decode_node_arg
parse-gdb nodes port c fits none_yet no_port = elim (Bool-cases (nodes == 0)) [
  | inl e ↦
      let same : c.gdb_nodes ≡ nodes = ground arith in
      rw (e, sym no_port) (ap (λ (m : ℕ). some (record c { gdb_nodes = m })) same)
  | inr e ↦ let read : nodes % 2 ^ 64 ≡ nodes = mod-eq_of_lt fits in rw (e, parse, read) refl
]

-- The master's words make the slave's axiom-run a slave with the master's nodes, termination signal,
-- magic number and gdb nodes (and their port, where there are such nodes), with the ports and the
-- master that the words name, and with all the services but the allocator's, which is the master's
-- own; none of the words is refused. The masks are of 64 bits, the services of 6, and the signal is
-- one that -T takes.
pub parse-slave_options :
    (c : Config) (slave_port node port : ℕ)
    → c.services < 64
    → c.nodes < 2 ^ 64
    → c.gdb_nodes < 2 ^ 64
    → allowed_term c.termmode ≡ true
    → parse (slave_options c slave_port node port) initial
      ≡ some (record {
        services = bit_and c.services 0x2f;
        flags = 0;
        termmode = c.termmode;
        nodes = c.nodes;
        gdb_nodes = c.gdb_nodes;
        gdb_port = if c.gdb_nodes == 0 then 0 else c.gdb_port;
        slave = true;
        port = some slave_port;
        master_node = some node;
        master_port = some port;
        magic = c.magic;
      })
unfolding slave_options parse parse_opt decode_node_arg
parse-slave_options c slave_port node port few fits gdb_fits allowed =
    let nodes : c.nodes % 2 ^ 64 ≡ c.nodes = mod-eq_of_lt fits in
    parse-switched (has_service c.services 0x04) redirect _ _
    ∙ parse-switched (has_service c.services 0x01) barrier _ _
    ∙ parse-switched (has_service c.services 0x02) exit _ _
    ∙ parse-switched (has_service c.services 0x20) kill _ _
    ∙ parse-switched (has_service c.services 0x08) rpc _ _
    ∙ parse-term c.termmode _ _ allowed refl
    ∙ parse-gdb c.gdb_nodes c.gdb_port _ gdb_fits refl refl
    ∙ rw (nodes, sym (services_read_lem c.services few)) refl
