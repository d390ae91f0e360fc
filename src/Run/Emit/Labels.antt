-- ===== src/Run/Emit/Labels.antt =====
-- Which lines carry a node label, what the final flush writes, and the nodes that `emit` rejects.
use mathlib.Core.List.{append-nil, append_assoc}
use native.Mathlib.Numerals.{add-one}
use axiom_evi_apps.Prelude.{
  ℕ, zero, suc, ◌+◌, ◌≤◌, ◌≡◌, refl, arith, Bool, true, false, List, [], ◌∷◌, ◌++◌, length, take,
  drop, none, some, ◌==◌, if◌then◌else◌, Option-cases, Bool-cases, inl, inr, sym, get_elem?-none,
  done, aborted, undefined, get_or, leb, ltb, ◌&&◌, map,
}
use axiom_evi_apps.Run.Emit.{
  memchr, output, newline, Item, label, text, one_line, emit_lines, emit_pending, emit_node, emit,
  flush_from, flush, ident_flag, alternate_flag, max_num_nodes,
}
use axiom_evi_apps.Run.Emit.Output.{IsProgress, output_all}
use axiom_evi_apps.Run.Emit.Text.{
  texts, texts-append, texts-one_line, texts-emit_pending, emit_node-Emits,
}

pub labels : List Item → ℕ
labels [] = 0
labels (label a n ∷ items) = suc (labels items)
labels (text xs ∷ items) = labels items

pub newlines : List ℕ → ℕ
newlines [] = 0
newlines (x ∷ xs) = (if x == newline then 1 else 0) + newlines xs

labels-append : (xs ys : List Item) → labels (xs ++ ys) ≡ labels xs + labels ys
unfolding labels
labels-append [] ys = omega arith
labels-append (label a n ∷ xs) ys = omega (arith, labels-append xs ys)
labels-append (text b ∷ xs) ys = labels-append xs ys

newlines-append : (xs ys : List ℕ) → newlines (xs ++ ys) ≡ newlines xs + newlines ys
unfolding newlines
newlines-append [] ys = omega arith
newlines-append (x ∷ xs) ys = omega (arith, newlines-append xs ys)

newlines-none : (xs : List ℕ) → memchr newline xs ≡ none → newlines xs ≡ 0
unfolding newlines memchr
newlines-none [] e = refl
newlines-none (x ∷ xs) e = ground (arith, newlines-none xs)

-- Up to the first newline there is one.
newlines_first : (xs : List ℕ) (p : ℕ) → memchr newline xs ≡ some p → newlines (take (suc p) xs) ≡ 1
unfolding newlines memchr
newlines_first [] p e = cc
newlines_first (x ∷ xs) zero e = ground arith
newlines_first (x ∷ xs) (suc p) e = ground (arith, newlines_first xs p)

labels-one_line :
    (fwrite : List ℕ → ℕ) (labelled alternate : Bool) (node : ℕ) (buffer : List ℕ) (p : ℕ)
    → labels (one_line fwrite labelled alternate node buffer p) ≡ (if labelled then 1 else 0)
unfolding labels one_line
labels-one_line fwrite true alternate node buffer p = refl
labels-one_line fwrite false alternate node buffer p = refl

-- With identification on, each line gets a label but the first one behind pending bytes.
emit_lines-labels :
    (fwrite : List ℕ → ℕ) (fuel : ℕ) (alternate : Bool) (node : ℕ) (no_stop : Bool)
    (buffer : List ℕ) (p : ℕ) (r : List Item × List ℕ)
    → IsProgress fwrite
    → memchr newline buffer ≡ some p
    → emit_lines fwrite fuel true alternate node no_stop buffer p ≡ some r
    → labels r.0 + (if no_stop then 0 else 1) ≡ newlines (texts r.0)
unfolding emit_lines
emit_lines-labels fwrite zero alternate node no_stop buffer p r moves found e = cc
emit_lines-labels fwrite (suc fuel) alternate node no_stop buffer p r moves found e =
    let line = one_line fwrite no_stop alternate node buffer p in
    let bytes = texts-one_line fwrite no_stop alternate node buffer p moves in
    let one : newlines (texts line) ≡ 1 = rw (bytes, add-one) (newlines_first buffer p found) in
    elim (Option-cases (memchr newline (drop (p + 1) buffer))) [
      | inl last_line ↦ ground (arith, labels-one_line fwrite no_stop alternate node buffer p, one)
      | inr (p', more) ↦
          elim (Option-cases
            (emit_lines fwrite fuel true alternate node true (drop (p + 1) buffer) p')) [
              | inl stuck ↦ ground arith
              | inr (r', ends) ↦ ground (
                arith,
                labels-one_line fwrite no_stop alternate node buffer p,
                one,
                labels-append line r'.0,
                texts-append line r'.0,
                newlines-append (texts line) (texts r'.0),
                emit_lines-labels fwrite fuel alternate node true (drop (p + 1) buffer) p' r' moves
                    more ends,
              )
            ]
    ]

-- A node number of MAX_NUM_NODES passes the assertion and then misses the array; above it the
-- assertion fails.
pub emit_bad_node :
    (fwrite : List ℕ → ℕ) (max_buffer flags node : ℕ) (buffer : List ℕ) (info : List (List ℕ))
    → length info ≡ 63
    → 63 ≤ node
    → emit fwrite max_buffer flags node buffer info ≡ (if node == 63 then undefined else aborted)
unfolding emit
emit_bad_node fwrite max_buffer flags node buffer info nodes le = elim (Bool-cases (node == 63)) [
  | inl limit ↦
      let asserted : leb node max_num_nodes ≡ true = ground arith in
      rw (limit, asserted, get_elem?-none info node (omega (arith, nodes))) refl
  | inr above ↦
      let asserted : leb node max_num_nodes ≡ false = ground arith in rw (above, asserted) refl
]

-- How many nodes have pending bytes.
pub unfinished : List (List ℕ) → ℕ
unfinished [] = 0
unfinished (pending ∷ info) = (if ltb 0 (length pending) then 1 else 0) + unfinished info

-- The pending bytes of all the nodes, each partial line ended by a newline.
pub finished : List (List ℕ) → List ℕ
finished [] = []
finished (pending ∷ info) =
    (if ltb 0 (length pending) then pending ++ newline ∷ [] else []) ++ finished info

flush_from_lem :
    (fwrite : List ℕ → ℕ) (flags node : ℕ) (info : List (List ℕ))
    → IsProgress fwrite
    → (texts (flush_from fwrite flags node info) ≡ finished info)
      × (labels (flush_from fwrite flags node info) ≡ (if flags == 0 then 0 else unfinished info))
unfolding flush_from texts labels finished unfinished
flush_from_lem fwrite flags node [] moves = (refl, ground arith)
flush_from_lem fwrite flags node ([] ∷ info) moves =
    let (same, labelled) = flush_from_lem fwrite flags (node + 1) info moves in (same, ground arith)
flush_from_lem fwrite flags node ((x ∷ pending) ∷ info) moves =
    let some_pending : ltb 0 (suc (length pending)) ≡ true = ground arith in
    let (same, labelled) = flush_from_lem fwrite flags (node + 1) info moves in
    let written = output_all fwrite (x ∷ pending) moves in
    elim (Bool-cases (flags == 0)) [
      | inl unset ↦ (
        rw (some_pending, unset, written) (simp (same, append_assoc)),
        rw (some_pending, unset) (ground arith),
      )
      | inr flagged ↦ (
        rw (some_pending, flagged, written) (simp (same, append_assoc)),
        rw (some_pending, flagged) (ground arith),
      )
    ]

cleared :
    (info : List (List ℕ)) (n : ℕ) → get_or {A = List ℕ} (map (λ (_ : List ℕ). []) info) n [] ≡ []
cleared [] n = refl
cleared (x ∷ info) zero = refl
cleared (x ∷ info) (suc n) = cleared info n

-- If fwrite always takes a byte at least (a call that takes none makes `output` drop the rest), the last
-- flush writes the pending bytes of every node, each ended by a newline, and leaves none pending. It
-- labels each of them as soon as any flag at all is set, IDENT_FLAG or not.
pub flush_lem :
    (fwrite : List ℕ → ℕ) (flags : ℕ) (info : List (List ℕ))
    → IsProgress fwrite
    → (texts (flush fwrite flags info).0 ≡ finished info)
      × (labels (flush fwrite flags info).0 ≡ (if flags == 0 then 0 else unfinished info))
      × ((n : ℕ) → get_or (flush fwrite flags info).1 n [] ≡ [])
unfolding flush
flush_lem fwrite flags info moves =
    let (same, labelled) = flush_from_lem fwrite flags 0 info moves in
    (same, labelled, cleared info)

labels-emit_pending :
    (fwrite : List ℕ → ℕ) (alternate : Bool) (node : ℕ) (pending : List ℕ)
    → labels (emit_pending fwrite true alternate node pending)
      ≡ (if length pending == 0 then 0 else 1)
unfolding labels emit_pending
labels-emit_pending fwrite alternate node [] = refl
labels-emit_pending fwrite alternate node (x ∷ xs) = ground arith

partial_items :
    (fwrite : List ℕ → ℕ) (b : Bool) (pending : List ℕ)
    → IsProgress fwrite
    → memchr newline pending ≡ none
    → labels (if b then text (output fwrite pending) ∷ [] else [])
      ≡ newlines (texts (if b then text (output fwrite pending) ∷ [] else []))
unfolding labels texts newlines
partial_items fwrite true pending moves clean =
    rw (output_all fwrite pending moves, append-nil pending) (sym (newlines-none pending clean))
partial_items fwrite false pending moves clean = refl

labels_of_run :
    (fwrite : List ℕ → ℕ) (max_buffer flags node : ℕ) (buffer pending : List ℕ) (items : List Item)
    (left : List ℕ)
    → IsProgress fwrite
    → ident_flag flags ≡ true
    → memchr newline pending ≡ none
    → emit_node fwrite max_buffer flags node buffer pending ≡ done (items, left)
    → labels items ≡ newlines (texts items)
unfolding emit_node texts labels
labels_of_run fwrite max_buffer flags node buffer pending items left moves ident clean e =
    elim (Option-cases (memchr newline buffer)) [
      | inl nowhere ↦
          let full = ltb max_buffer (length pending + length buffer) in
          let e' = rw (ident, nowhere, emit_node) at e in
          ground
            (arith, e', partial_items fwrite (full && ltb 0 (length pending)) pending moves clean)
      | inr (p, found) ↦
          elim (Option-cases (
            emit_lines fwrite (length buffer) true (alternate_flag flags) node (length pending == 0)
              buffer p)) [
                | inl stuck ↦ ground arith
                | inr (r, ends) ↦
                    let before = emit_pending fwrite true (alternate_flag flags) node pending in
                    ground (
                      arith,
                      labels-emit_pending fwrite (alternate_flag flags) node pending,
                      texts-emit_pending fwrite true (alternate_flag flags) node pending moves,
                      labels-append before r.0,
                      texts-append before r.0,
                      newlines-append (texts before) (texts r.0),
                      newlines-none pending clean,
                      emit_lines-labels fwrite (length buffer) (alternate_flag flags) node
                          (length pending == 0) buffer p r moves found ends,
                    )
              ]
    ]

-- `emit_node`, the part of `emit` behind its check of the node: if fwrite always takes a byte at least,
-- with identification on, pending bytes without a newline, and pending and new bytes that each fit
-- the buffer, it returns, and it has written as many labels as newlines.
pub emit_node-labels :
    (fwrite : List ℕ → ℕ) (max_buffer flags node : ℕ) (buffer pending : List ℕ)
    → IsProgress fwrite
    → ident_flag flags ≡ true
    → memchr newline pending ≡ none
    → length pending ≤ max_buffer
    → length buffer ≤ max_buffer
    → (items : List Item) × (left : List ℕ) × (emit_node fwrite max_buffer flags node buffer pending
        ≡ done (items, left))
      × (labels items ≡ newlines (texts items))
emit_node-labels fwrite max_buffer flags node buffer pending moves ident clean small fits =
    let e = emit_node-Emits fwrite moves max_buffer flags node buffer pending fits small in
    (
      e.items,
      e.left,
      e.returns,
      labels_of_run fwrite max_buffer flags node buffer pending e.items e.left moves ident clean
          e.returns,
    )
