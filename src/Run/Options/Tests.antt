-- ===== src/Run/Options/Tests.antt =====
-- Runs of the option parser.
use axiom_evi_apps.Prelude.{
  ℕ, ◌^◌, ◌<◌, ◌≡◌, refl, arith, true, List, [], ◌∷◌, some, ◌==◌, if◌then◌else◌, bit_and,
}
use axiom_evi_apps.Bits.{test_bit}
use axiom_evi_apps.Run.Options.Nodes.{
  Token, node, range, tokens, add_token, decode_tokens, decode_node_arg,
}
use axiom_evi_apps.Run.Options.Masks.{
  in_tokens, valid_token, valid_tokens, bit_of, decode_node_arg-tokens,
}
use axiom_evi_apps.Run.Options.{Config, initial, parse, slave_options, allowed_term}
use axiom_evi_apps.Run.Options.Slave.{parse-slave_options}

-- 1-3,7
abbrev listed : List Token
listed = range 1 3 ∷ node 7 ∷ []

decoded : decode_node_arg (tokens listed) ≡ some 0x8e
unfolding decode_node_arg decode_tokens add_token
decoded = refl

decode_node_arg-tokens_example :
    (r : ℕ) × (decode_node_arg (tokens listed) ≡ some r)
    × (r < 2 ^ 64)
    × ((k : ℕ) → k < 64 → test_bit r k ≡ bit_of (in_tokens k listed))
decode_node_arg-tokens_example =
    decode_node_arg-tokens listed (unfold valid_tokens valid_token in refl)

-- A master of two nodes with the gasnet profile, whose children quit.
abbrev two_nodes : Config
two_nodes = record initial { services = 0x3f; termmode = 3; nodes = 6; magic = 77 }

parse-slave_options_example :
    parse (slave_options two_nodes 6 1 5) initial
    ≡ some (record {
      services = bit_and 0x3f 0x2f;
      flags = 0;
      termmode = 3;
      nodes = 6;
      gdb_nodes = 0;
      gdb_port = if 0 == 0 then 0 else 0;
      slave = true;
      port = some 6;
      master_node = some 1;
      master_port = some 5;
      magic = 77;
    })
parse-slave_options_example =
    parse-slave_options two_nodes 6 1 5 (omega arith) (omega arith) (omega arith)
      (unfold allowed_term in refl)
