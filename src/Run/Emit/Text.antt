-- ===== src/Run/Emit/Text.antt =====
-- No byte of the redirected output is lost, doubled or reordered.
use axiom_evi_apps.Prelude.{
  ℕ, zero, suc, ◌+◌, ◌≤◌, ◌<◌, ◌≡◌, refl, ◌≢◌, arith, Bool, true, false, List, [], ◌∷◌, ◌++◌,
  length, take, drop, take-append-drop, length-drop, none, some, ◌==◌, if◌then◌else◌, ap,
  Option-cases, Bool-cases, inl, inr, ◌∙◌, Outcome, done, set, get_or, leb, ltb, ◌&&◌,
  length-append, sym, length-set, get_or-set, get_elem?-get_or,
}
use mathlib.Core.List.{append_assoc, append-nil}
use axiom_evi_apps.Run.Emit.{
  memchr, memrchr, output, newline, Item, label, text, one_line, emit_lines, emit_pending,
  emit_node, emit, ident_flag, alternate_flag, max_num_nodes,
}
use axiom_evi_apps.Run.Emit.Output.{
  IsProgress, output_all, memchr-lt, memrchr-lt, memchr-memrchr-none, memchr-append_none,
}

-- The bytes among what is written.
unfoldable pub texts : List Item → List ℕ
texts [] = []
texts (label a n ∷ items) = texts items
texts (text xs ∷ items) = xs ++ texts items

pub texts-append : (xs ys : List Item) → texts (xs ++ ys) ≡ texts xs ++ texts ys
unfolding texts
texts-append [] ys = refl
texts-append (label a n ∷ xs) ys = texts-append xs ys
texts-append (text b ∷ xs) ys = simp (texts-append xs ys, append_assoc)

pub texts-one_line :
    (fwrite : List ℕ → ℕ) (labelled alternate : Bool) (node : ℕ) (buffer : List ℕ) (p : ℕ)
    → IsProgress fwrite
    → texts (one_line fwrite labelled alternate node buffer p) ≡ take (p + 1) buffer
unfolding texts one_line
texts-one_line fwrite true alternate node buffer p moves =
    rw (output_all fwrite (take (p + 1) buffer) moves) (append-nil _)
texts-one_line fwrite false alternate node buffer p moves =
    rw (output_all fwrite (take (p + 1) buffer) moves) (append-nil _)

-- From a newline at p the lines end, what is written and what is left make up the buffer, and no
-- newline is left.
pub emit_lines_lem :
    (fwrite : List ℕ → ℕ) (fuel : ℕ) (emit_id alternate : Bool) (node : ℕ) (no_stop : Bool)
    (buffer : List ℕ) (p : ℕ)
    → IsProgress fwrite
    → length buffer ≤ fuel
    → p < length buffer
    → (r : List Item × List ℕ) × (emit_lines fwrite fuel emit_id alternate node no_stop buffer p
        ≡ some r)
      × (texts r.0 ++ r.1 ≡ buffer)
      × (memchr newline r.1 ≡ none)
unfolding emit_lines
emit_lines_lem fwrite zero emit_id alternate node no_stop buffer p moves le lt =
    absurd (omega arith)
emit_lines_lem fwrite (suc fuel) emit_id alternate node no_stop buffer p moves le lt =
    elim (Option-cases (memchr newline (drop (p + 1) buffer))) [
      | inl last_line ↦ (
        (one_line fwrite (emit_id && no_stop) alternate node buffer p, drop (p + 1) buffer),
        rw (last_line, emit_lines),
        ap (λ (t : List ℕ). t ++ drop (p + 1) buffer)
              (texts-one_line fwrite (emit_id && no_stop) alternate node buffer p moves)
            ∙ take-append-drop (p + 1) buffer,
        last_line,
      )
      | inr (p', more) ↦
          let line = one_line fwrite (emit_id && no_stop) alternate node buffer p in
          let (r, ends, same, clean) =
            emit_lines_lem fwrite fuel emit_id alternate node true (drop (p + 1) buffer) p' moves
              (omega (arith, length-drop (p + 1) buffer))
              (memchr-lt newline (drop (p + 1) buffer) p' more) in
          (
            (line ++ r.0, r.1),
            rw (more, ends, emit_lines),
            simp
                (
                  texts-append line r.0,
                  texts-one_line fwrite (emit_id && no_stop) alternate node buffer p moves,
                  append_assoc,
                  same,
                )
                (take-append-drop (p + 1) buffer),
            clean,
          )
    ]

pub texts-emit_pending :
    (fwrite : List ℕ → ℕ) (emit_id alternate : Bool) (node : ℕ) (pending : List ℕ)
    → IsProgress fwrite
    → texts (emit_pending fwrite emit_id alternate node pending) ≡ pending
unfolding texts emit_pending
texts-emit_pending fwrite emit_id alternate node [] moves = refl
texts-emit_pending fwrite true alternate node (x ∷ xs) moves =
    let more : (suc (length xs) == 0) ≡ false = ground arith in
    rw (more, output_all fwrite (x ∷ xs) moves) (append-nil _)
texts-emit_pending fwrite false alternate node (x ∷ xs) moves =
    let more : (suc (length xs) == 0) ≡ false = ground arith in
    rw (more, output_all fwrite (x ∷ xs) moves) (append-nil _)

-- What `emit` does for one node, whose pending bytes were `pending`.
pub record Emits (max_buffer : ℕ) (pending buffer : List ℕ) (result : Outcome (List Item × List ℕ))
    : Type 0 where
  pub items : List Item
  pub left : List ℕ
  pub returns : result ≡ done (items, left)
  pub same_bytes : texts items ++ left ≡ pending ++ buffer
  pub fits : length left ≤ max_buffer
  pub no_newline : memchr newline pending ≡ none → memchr newline left ≡ none

nothing_pending : (pending : List ℕ) → ltb 0 (length pending) ≡ false → pending ≡ []
nothing_pending [] e = refl
nothing_pending (x ∷ xs) e = ground arith

first_newline-lt :
    (emit_id : Bool) (buffer : List ℕ) (p : ℕ)
    → (if emit_id then memchr newline buffer else memrchr newline buffer) ≡ some p
    → p < length buffer
first_newline-lt true buffer p e = memchr-lt newline buffer p e
first_newline-lt false buffer p e = memrchr-lt newline buffer p e

no_newline-buffer :
    (emit_id : Bool) (buffer : List ℕ)
    → (if emit_id then memchr newline buffer else memrchr newline buffer) ≡ none
    → memchr newline buffer ≡ none
no_newline-buffer true buffer e = e
no_newline-buffer false buffer e = memchr-memrchr-none newline buffer e

module _ (fwrite : List ℕ → ℕ) (moves : IsProgress fwrite) (max_buffer flags node : ℕ)
    (buffer pending : List ℕ) (fits : length buffer ≤ max_buffer) where
  emit_node-line_done :
      (p : ℕ) (r : List Item × List ℕ)
      → (if ident_flag flags then memchr newline buffer else memrchr newline buffer) ≡ some p
      → emit_lines fwrite
          (length buffer)
          (ident_flag flags)
          (alternate_flag flags)
          node
          (length pending == 0)
          buffer
          p
        ≡ some r
      → texts r.0 ++ r.1 ≡ buffer
      → memchr newline r.1 ≡ none
      → Emits max_buffer pending buffer (emit_node fwrite max_buffer flags node buffer pending)
  unfolding emit_node
  emit_node-line_done p r found ends same clean =
      let before = emit_pending fwrite (ident_flag flags) (alternate_flag flags) node pending in
      let shorter : length r.1 ≤ max_buffer =
        omega (arith, length-append (texts r.0) r.1, ap length same) in
      let in_buffer : leb (length r.1) max_buffer ≡ true = ground arith in
      record {
        items = before ++ r.0;
        left = r.1;
        returns = rw (found, ends, in_buffer, emit_node) refl;
        same_bytes = simp (
          texts-append before r.0,
          texts-emit_pending fwrite (ident_flag flags) (alternate_flag flags) node pending moves,
          append_assoc,
          same,
        );
        fits = shorter;
        no_newline = λ _. clean;
      }

  emit_node-partial :
      (if ident_flag flags then memchr newline buffer else memrchr newline buffer) ≡ none
      → length pending ≤ max_buffer
      → Emits max_buffer pending buffer (emit_node fwrite max_buffer flags node buffer pending)
  unfolding emit_node texts
  emit_node-partial nowhere small =
      elim (Bool-cases (ltb max_buffer (length pending + length buffer))) [
        | inl full ↦
            let room : leb (length buffer + 0) max_buffer ≡ true = ground arith in
            elim (Bool-cases (ltb 0 (length pending))) [
              | inl some_pending ↦ record {
                items = text (output fwrite pending) ∷ [];
                left = buffer;
                returns = rw (nowhere, full, some_pending, room, emit_node);
                same_bytes = simp (output_all fwrite pending moves, append-nil);
                fits = fits;
                no_newline = λ _. no_newline-buffer (ident_flag flags) buffer nowhere;
              }
              | inr empty ↦ record {
                items = [];
                left = buffer;
                returns = rw (nowhere, full, empty, room, emit_node);
                same_bytes = ap (λ (t : List ℕ). t ++ buffer) (sym (nothing_pending pending empty));
                fits = fits;
                no_newline = λ _. no_newline-buffer (ident_flag flags) buffer nowhere;
              }
            ]
        | inr roomy ↦
            let room : leb (length buffer + length pending) max_buffer ≡ true = ground arith in
            record {
              items = [];
              left = pending ++ buffer;
              returns = rw (nowhere, roomy, room, emit_node);
              same_bytes = refl;
              fits = ground (arith, length-append pending buffer);
              no_newline = λ h.
                  memchr-append_none newline pending buffer h
                    (no_newline-buffer (ident_flag flags) buffer nowhere);
            }
      ]

  pub emit_node-Emits :
      length pending ≤ max_buffer
      → Emits max_buffer pending buffer (emit_node fwrite max_buffer flags node buffer pending)
  emit_node-Emits small =
      elim (Option-cases
        (if ident_flag flags then memchr newline buffer else memrchr newline buffer)) [
          | inl nowhere ↦ emit_node-partial nowhere small
          | inr (p, found) ↦
              let (r, ends, same, clean) =
                emit_lines_lem fwrite (length buffer) (ident_flag flags) (alternate_flag flags) node
                  (length pending == 0) buffer p moves (omega arith)
                  (first_newline-lt (ident_flag flags) buffer p found) in
              emit_node-line_done p r found ends same clean
        ]

-- The pending bytes of every node fit the buffer and hold no newline.
pub record IsBuffered (max_buffer : ℕ) (info : List (List ℕ)) : Type 0 where
  pub nodes : length info ≡ 63
  pub small : (n : ℕ) → length (get_or info n []) ≤ max_buffer
  pub lines : (n : ℕ) → memchr newline (get_or info n []) ≡ none

-- If fwrite always takes a byte at least (a call that takes none makes `output` drop the rest), then for
-- a message from one of the 63 nodes, of bytes that fit the buffer, and buffers in order: `emit`
-- returns, the bytes that it writes and the bytes then pending for the node are the pending and the
-- new bytes in order, no other node is touched, and the buffers are in order again.
pub emit-keeps_bytes :
    (fwrite : List ℕ → ℕ) (max_buffer flags node : ℕ) (buffer : List ℕ) (info : List (List ℕ))
    → IsProgress fwrite
    → node < 63
    → length buffer ≤ max_buffer
    → IsBuffered max_buffer info
    → (items : List Item) × (info' : List (List ℕ)) × (emit fwrite max_buffer flags node buffer info
        ≡ done (items, info'))
      × (texts items ++ get_or info' node [] ≡ get_or info node [] ++ buffer)
      × ((n : ℕ) → n ≢ node → get_or info' n [] ≡ get_or info n [])
      × IsBuffered max_buffer info'
unfolding emit
emit-keeps_bytes fwrite max_buffer flags node buffer info moves lt fits ok =
    let in_array : node < length info = omega (arith, ok.nodes) in
    let asserted : leb node max_num_nodes ≡ true = ground arith in
    let pending = get_or info node [] in
    let e =
      emit_node-Emits fwrite moves max_buffer flags node buffer pending fits (ok.small node) in
    let at = λ (n : ℕ). get_or-set info node n e.left [] in_array in
    (
      e.items,
      set info node e.left,
      rw (asserted, get_elem?-get_or info node [] in_array, e.returns) refl,
      ground (arith, at node, e.same_bytes),
      λ n ne. ground (arith, at n),
      record {
        nodes = length-set info node e.left ∙ ok.nodes;
        small = λ n. ground (arith, at n, ok.small n, e.fits);
        lines = λ n. ground (arith, at n, ok.lines n, ok.lines node, e.no_newline);
      },
    )
