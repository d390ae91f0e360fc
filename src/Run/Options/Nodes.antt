-- ===== src/Run/Options/Nodes.antt =====
-- axiom-run/axiom-run.c, the masks of nodes: `ALL_NODES_MASK`, `decode_node_arg` and `__clz`. A
-- mask is a uint64_t. MAX_NUM_NODES is taken to be MAX_NODES_SUPPORTED, which is 63. What `strtok`
-- and `sscanf` make of the argument is its list of tokens.
use axiom_evi_apps.Prelude.{
  ℕ, zero, suc, ◌+◌, ◌-◌, ◌*◌, ◌%◌, ◌^◌, bit_or, List, [], ◌∷◌, Option, none, some, ltb, leb, ◌==◌,
  ◌||◌, if◌then◌else◌,
}
use axiom_evi_apps.Run.Emit.{max_num_nodes}

-- x << n on 64 bits
abbrev pub shift_left : ℕ → ℕ → ℕ
shift_left x n = x * 2 ^ n % 2 ^ 64

-- ALL_NODES: every node from 1 to 63
abbrev pub all_nodes : ℕ
all_nodes = 2 ^ 64 - 2

unfoldable pub all_nodes_mask : ℕ → ℕ
all_nodes_mask x = if leb max_num_nodes x then all_nodes else shift_left (2 ^ x - 1) 1

-- A token of the list: a node, a range, or what `sscanf` does not read. The numbers that C reads as
-- negative are 0 here, which is refused like them.
pub data Token : Type 0 where
  node : ℕ → Token
  range : ℕ → ℕ → Token
  unreadable : Token

-- One round of the loop: the mask after the token, or the usage message.
unfoldable pub add_token : Token → ℕ → Option ℕ
add_token (node a) r =
    if ltb a 1 || ltb max_num_nodes a then none else some (bit_or r (shift_left 1 a))
add_token (range a b) r =
    if ltb a 1 || (ltb b a || ltb max_num_nodes b)
    then none
    else if b - a + 1 == max_num_nodes
    then some all_nodes
    else some (bit_or r (shift_left (2 ^ (b - a + 1) - 1) a))
add_token unreadable r = none

unfoldable pub decode_tokens : List Token → ℕ → Option ℕ
unfolding add_token
decode_tokens [] r = some r
decode_tokens (t ∷ ts) r = elim (add_token t r) [ none ↦ none | some r' ↦ decode_tokens ts r' ]

-- An argument: a number in base 16, or a list.
pub data NodeArg : Type 0 where
  hex : ℕ → NodeArg
  unreadable_hex : NodeArg
  tokens : List Token → NodeArg

unfoldable pub decode_node_arg : NodeArg → Option ℕ
unfolding decode_tokens
decode_node_arg (hex n) = some (n % 2 ^ 64)
decode_node_arg unreadable_hex = none
decode_node_arg (tokens ts) = decode_tokens ts 0

-- The loop of `__clz`, on fuel for the 64 bits.
unfoldable pub clz_loop : ℕ → ℕ → ℕ → ℕ
clz_loop zero n c = c
clz_loop (suc fuel) n c =
    let rest = clz_loop fuel (shift_left n 1) (c + 1) in
    if n == 0 then c else if leb (2 ^ 63) n then c else rest

unfoldable pub clz : ℕ → ℕ
unfolding clz_loop
clz n = if n == 0 then 64 else clz_loop 64 n 0
