-- ===== src/Run/Emit/Tests.antt =====
-- Runs of the line buffering: 10 is the newline.
use axiom_evi_apps.Prelude.{
  ℕ, ◌≡◌, refl, ◌≢◌, arith, false, List, [], ◌∷◌, ◌++◌, length, replicate, get_or-replicate, get_or,
  done, ◌==◌, if◌then◌else◌,
}
use axiom_evi_apps.Run.Emit.{
  Item, label, text, emit_node, emit, emit_lines, emit_pending, one_line, flush, flush_from, output,
  output_loop, memchr,
}
use axiom_evi_apps.Run.Emit.Output.{IsProgress}
use axiom_evi_apps.Run.Emit.Text.{texts, IsBuffered, emit-keeps_bytes}
use axiom_evi_apps.Run.Emit.Labels.{
  labels, newlines, unfinished, finished, emit_node-labels, flush_lem,
}

-- A file that takes one byte at a time.
abbrev pub one_byte : List ℕ → ℕ
one_byte xs = if length xs == 0 then 0 else 1

pub one_byte-IsProgress : IsProgress one_byte
one_byte-IsProgress xs h = ground arith

-- No pending bytes, of each of the 63 nodes.
abbrev pub fresh : List (List ℕ)
fresh = replicate 63 []

pub fresh-IsBuffered : (max_buffer : ℕ) → IsBuffered max_buffer fresh
fresh-IsBuffered max_buffer = record {
  nodes = refl;
  small = λ n. ground (arith, get_or-replicate {A = List ℕ} 63 n []);
  lines = λ n. rw (get_or-replicate {A = List ℕ} 63 n []) (unfold memchr in refl);
}

two_lines :
    emit_node one_byte 8 0x01 4 (65 ∷ 10 ∷ 66 ∷ 10 ∷ 67 ∷ []) (64 ∷ [])
    ≡ done (
      label false 4
          ∷ text (64 ∷ [])
          ∷ text (65 ∷ 10 ∷ [])
          ∷ label false 4
          ∷ text (66 ∷ 10 ∷ [])
          ∷ [],
      67 ∷ [],
    )
unfolding emit_node emit_lines emit_pending one_line output output_loop memchr
two_lines = refl

plain_flags_label :
    (flush one_byte 0x04 ((65 ∷ []) ∷ [] ∷ [])).0
    ≡ label false 0 ∷ text (65 ∷ []) ∷ text (10 ∷ []) ∷ []
unfolding flush flush_from output output_loop
plain_flags_label = refl

emit-keeps_bytes_example :
    (items : List Item) × (info' : List (List ℕ)) × (emit one_byte 8 0x01 4
        (65 ∷ 10 ∷ 66 ∷ [])
        fresh
      ≡ done (items, info'))
    × (texts items ++ get_or info' 4 [] ≡ get_or fresh 4 [] ++ 65 ∷ 10 ∷ 66 ∷ [])
    × ((n : ℕ) → n ≢ 4 → get_or info' n [] ≡ get_or fresh n [])
    × IsBuffered 8 info'
emit-keeps_bytes_example =
    emit-keeps_bytes one_byte 8 0x01 4 (65 ∷ 10 ∷ 66 ∷ []) fresh one_byte-IsProgress (omega arith)
      (omega arith) (fresh-IsBuffered 8)

emit_node-labels_example :
    (items : List Item) × (left : List ℕ) × (emit_node one_byte 8 0x01 4
        (65 ∷ 10 ∷ 66 ∷ [])
        (64 ∷ [])
      ≡ done (items, left))
    × (labels items ≡ newlines (texts items))
emit_node-labels_example =
    emit_node-labels one_byte 8 0x01 4 (65 ∷ 10 ∷ 66 ∷ []) (64 ∷ []) one_byte-IsProgress refl
      (unfold memchr in refl) (omega arith) (omega arith)

flush_lem_example :
    (texts (flush one_byte 0x04 ((65 ∷ []) ∷ [] ∷ [])).0 ≡ finished ((65 ∷ []) ∷ [] ∷ []))
    × (labels (flush one_byte 0x04 ((65 ∷ []) ∷ [] ∷ [])).0
        ≡ (if 0x04 == 0 then 0 else unfinished ((65 ∷ []) ∷ [] ∷ [])))
    × ((n : ℕ) → get_or (flush one_byte 0x04 ((65 ∷ []) ∷ [] ∷ [])).1 n [] ≡ [])
flush_lem_example = flush_lem one_byte 0x04 ((65 ∷ []) ∷ [] ∷ []) one_byte-IsProgress
