-- ===== src/Common/Strlist/Tests.antt =====
-- Lists of strings.
use axiom_evi_apps.Prelude.{
  ℕ, ◌≡◌, refl, arith, false, List, [], ◌∷◌, ◌++◌, map, none, some, done, undefined,
}
use axiom_evi_apps.Common.Strlist.{
  string, null, garbage, sl_append, sl_insert, insert, insert_all, moved_from, moved, sl_free,
}
use axiom_evi_apps.Common.Strlist.Strings.{sl_append-insert_all, sl_free-sl_insert}

abbrev words : List (List ℕ)
words = (b'a' ∷ b'b' ∷ []) ∷ (b'c' ∷ []) ∷ []

sl_append-insert_all_example :
    (sl_append (insert_all [] words false) none ≡ map (λ s. string s) words ++ null ∷ [])
    × (sl_free (sl_append (insert_all [] words false) none) ≡ done words)
sl_append-insert_all_example = sl_append-insert_all words

-- The first string is lost, and the new last entry is never written.
lost :
    sl_insert (string (b'a' ∷ []) ∷ string (b'b' ∷ []) ∷ []) (some (b'c' ∷ []))
    ≡ string (b'c' ∷ []) ∷ string (b'b' ∷ []) ∷ garbage ∷ []
unfolding sl_insert insert moved_from moved
lost = refl

inserted : sl_free (sl_insert (string (b'a' ∷ []) ∷ []) none) ≡ undefined
inserted = sl_free-sl_insert (string (b'a' ∷ []) ∷ []) none (omega arith)
