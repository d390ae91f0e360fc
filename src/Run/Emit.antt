-- ===== src/Run/Emit.antt =====
-- axiom-run/master.c, `output`, `emit` and `flush`: the line buffering of the redirected output.
-- Bytes are numbers, a buffer is the list of its bytes (so `size` is its length), and a file is
-- the list of what is written to it. `fwrite` is of the C library: a function from the bytes that
-- are left to the count that it takes. The text of a node label, which `fprintf` makes, is the
-- entry `label`. The BUFSIZ of MAX_BUFFER_SIZE is a parameter.
pub mod Output
pub mod Text
pub mod Labels
pub mod Tests
use axiom_evi_apps.Prelude.{
  ℕ, zero, suc, ◌+◌, ◌-◌, ◌≤◌, bit_and, Bool, true, false, List, [], ◌∷◌, ◌++◌, length, take, drop,
  set, get_elem?, Option, none, some, Outcome, done, aborted, undefined, ◌>>=◌, ltb, leb, ◌==◌, not,
  ◌&&◌, if◌then◌else◌, map,
}
use mathlib.Core.Option

abbrev pub newline : ℕ
newline = 10

-- The index of the first occurrence of a byte.
unfoldable pub memchr : ℕ → List ℕ → Option ℕ
memchr c [] = none
memchr c (x ∷ xs) = if x == c then some 0 else Option.map suc (memchr c xs)

-- The index of the last occurrence.
pub memrchr : ℕ → List ℕ → Option ℕ
memrchr c [] = none
memrchr c (x ∷ xs) = elim (memrchr c xs) [
  | some i ↦ some (suc i)
  | none ↦ if x == c then some 0 else none
]

-- The loop of `output` around `fwrite`, on fuel: each round but the last takes a byte.
pub output_loop : (List ℕ → ℕ) → ℕ → List ℕ → List ℕ
output_loop fwrite zero xs = []
output_loop fwrite (suc fuel) xs =
    let sz = fwrite xs in
    let rest = output_loop fwrite fuel (drop sz xs) in
    if length xs == 0 then [] else if sz == 0 then [] else take sz xs ++ rest

-- The bytes that `output` writes.
pub output : (List ℕ → ℕ) → List ℕ → List ℕ
unfolding output_loop
output fwrite xs = output_loop fwrite (length xs) xs

-- What is written to a file: a label (`alternate` or not, of a node) or bytes.
pub data Item : Type 0 where
  label : Bool → ℕ → Item
  text : List ℕ → Item

-- MAX_NUM_NODES
abbrev pub max_num_nodes : ℕ
max_num_nodes = 63

abbrev pub ident_flag : ℕ → Bool
ident_flag flags = not (bit_and flags 0x01 == 0)

abbrev pub alternate_flag : ℕ → Bool
alternate_flag flags = not (bit_and flags 0x02 == 0)

-- The `for (;;)` over the lines of a buffer, from the newline at `p`: what is written and what is
-- left. `none` means that the fuel ran out.
module _ (fwrite : List ℕ → ℕ) where
  -- One round: the label, if one is due, and the bytes up to the newline at `p`.
  pub one_line : Bool → Bool → ℕ → List ℕ → ℕ → List Item
  one_line labelled alternate node buffer p =
      (if labelled then label alternate node ∷ [] else [])
      ++ text (output fwrite (take (p + 1) buffer)) ∷ []

  pub emit_lines : ℕ → Bool → Bool → ℕ → Bool → List ℕ → ℕ → Option (List Item × List ℕ)
  emit_lines zero emit_id alternate node no_stop buffer p = none
  emit_lines (suc fuel) emit_id alternate node no_stop buffer p =
      let buffer' = drop (p + 1) buffer in
      let line = one_line (emit_id && no_stop) alternate node buffer p in
      elim (memchr newline buffer') [
        | none ↦ some (line, buffer')
        | some p' ↦
            Option.map (λ (r : List Item × List ℕ). (line ++ r.0, r.1))
              (emit_lines fuel emit_id alternate node true buffer' p')
      ]

  -- The pending bytes that go out before the first line.
  pub emit_pending : Bool → Bool → ℕ → List ℕ → List Item
  emit_pending emit_id alternate node pending =
      if length pending == 0
      then []
      else ((if emit_id then label alternate node ∷ [] else [])
          ++ text (output fwrite pending) ∷ [])

  -- `emit` for a node whose pending bytes are `pending`: what is written, and the pending bytes
  -- after it. `aborted` is a failed assertion on MAX_BUFFER_SIZE.
  pub emit_node : ℕ → ℕ → ℕ → List ℕ → List ℕ → Outcome (List Item × List ℕ)
  unfolding emit_lines emit_pending
  emit_node max_buffer flags node buffer pending =
      let emit_id = ident_flag flags in
      let alternate = alternate_flag flags in
      elim (if emit_id then memchr newline buffer else memrchr newline buffer) [
        | some p ↦
            (elim (emit_lines (length buffer) emit_id alternate node (length pending == 0) buffer
              p) [
                | none ↦ undefined
                | some (items, rest) ↦
                    if leb (length rest) max_buffer
                    then done (emit_pending emit_id alternate node pending ++ items, rest)
                    else aborted
              ])
        | none ↦
            (let full = ltb max_buffer (length pending + length buffer) in
              let kept = if full then [] else pending in
              let items =
                if full && ltb 0 (length pending) then text (output fwrite pending) ∷ [] else [] in
              if leb (length buffer + length kept) max_buffer
              then done (items, kept ++ buffer)
              else aborted)
      ]

  -- The whole of `emit`: the assertion on the node, which lets MAX_NUM_NODES itself through, and
  -- the access to the array of MAX_NUM_NODES entries.
  pub emit : ℕ → ℕ → ℕ → List ℕ → List (List ℕ) → Outcome (List Item × List (List ℕ))
  unfolding emit_node
  emit max_buffer flags node buffer info =
      if leb node max_num_nodes
      then elim (get_elem? info node) [
        | none ↦ undefined
        | some pending ↦
            emit_node max_buffer flags node buffer pending >>= λ (r : List Item × List ℕ).
            done (r.0, set info node r.1)
      ]
      else aborted

  -- `flush`: the test is `flags && IDENT_FLAG`, which asks only whether any flag is set.
  pub flush_from : ℕ → ℕ → List (List ℕ) → List Item
  flush_from flags node [] = []
  flush_from flags node (pending ∷ info) =
      (if ltb 0 (length pending)
        then ((if flags == 0 then [] else label (alternate_flag flags) node ∷ [])
            ++ text (output fwrite pending) ∷ text (newline ∷ []) ∷ [])
        else [])
      ++ flush_from flags (node + 1) info

  -- What is written, and the pending bytes after it: none of any node.
  pub flush : ℕ → List (List ℕ) → List Item × List (List ℕ)
  unfolding flush_from
  flush flags info = (flush_from flags 0 info, map (λ _. []) info)
