-- ===== src/Common/Strlist/Strings.antt =====
-- What a list of strings holds, and what is freed.
use axiom_evi_apps.Prelude.{
  ℕ, zero, suc, ◌+◌, ◌*◌, ◌<◌, ◌≡◌, refl, arith, ap, sym, ◌∙◌, false, List, [], ◌∷◌, ◌++◌, map,
  Option, none, some, leb, ltb, length, length-append, set, get_or, get_or-set, done, undefined,
  ◌==◌,
}
use mathlib.Core.List.{append_assoc, append-nil}
use axiom_evi_apps.Common.Strlist.{
  Entry, string, null, garbage, copy, moved, moved_from, insert, sl_append, sl_insert, insert_all,
  sl_free,
}

set-append :
    (es : List Entry) (old new : Entry) → set (es ++ old ∷ []) (length es) new ≡ es ++ new ∷ []
set-append [] old new = refl
set-append (e ∷ es) old new = ap (λ (xs : List Entry). e ∷ xs) (set-append es old new)

insert-last : (es : List Entry) (s : Option (List ℕ)) → insert es s false ≡ es ++ copy s ∷ []
unfolding insert
insert-last es s = set-append es garbage (copy s)

insert_all-append :
    (ss : List (List ℕ)) (es : List Entry) → insert_all es ss false ≡ es ++ map (λ s. string s) ss
unfolding insert_all
insert_all-append [] es = sym (append-nil es)
insert_all-append (s ∷ ss) es =
    insert_all-append ss (insert es (some s) false)
    ∙ ap (λ (xs : List Entry). xs ++ map (λ t. string t) ss) (insert-last es (some s))
    ∙ append_assoc es (string s ∷ []) (map (λ t. string t) ss)

frees :
    (ss : List (List ℕ)) (rest : List Entry) (fs : List (List ℕ))
    → sl_free rest ≡ done fs
    → sl_free (map (λ s. string s) ss ++ rest) ≡ done (ss ++ fs)
unfolding sl_free
frees [] rest fs e = e
frees (s ∷ ss) rest fs e = rw (frees ss rest fs e) refl

-- Strings that are appended to an empty list, and NULL behind them, as the arguments of a command
-- are: the array is the strings, in order, and NULL, and to free the list frees each of them once.
pub sl_append-insert_all :
    (ss : List (List ℕ))
    → (sl_append (insert_all [] ss false) none ≡ map (λ s. string s) ss ++ null ∷ [])
      × (sl_free (sl_append (insert_all [] ss false) none) ≡ done ss)
unfolding sl_append sl_free
sl_append-insert_all ss =
    let array =
      insert-last (insert_all [] ss false) none
      ∙ ap (λ (es : List Entry). es ++ null ∷ []) (insert_all-append ss []) in
    (
      array,
      ap sl_free array
          ∙ frees ss (null ∷ []) [] refl
          ∙ ap (λ (fs : List (List ℕ)). done fs) (append-nil ss),
    )

length-moved_from : (es : List Entry) (n left j : ℕ) → length (moved_from es n left j) ≡ left
unfolding moved_from
length-moved_from es n zero j = refl
length-moved_from es n (suc left) j = ap suc (length-moved_from es n left (j + 1))

get_or-moved_from :
    (es : List Entry) (n left j i : ℕ)
    → i < left
    → get_or (moved_from es n left j) i null ≡ moved es n (j + i)
unfolding moved_from
get_or-moved_from es n zero j i lt = absurd (omega arith)
get_or-moved_from es n (suc left) j zero lt = ap (moved es n) (omega arith)
get_or-moved_from es n (suc left) j (suc i) lt =
    get_or-moved_from es n left (j + 1) i (omega arith) ∙ ap (moved es n) (omega arith)

get_or-append : (es : List Entry) (e d : Entry) → get_or (es ++ e ∷ []) (length es) d ≡ e
get_or-append [] e d = refl
get_or-append (x ∷ es) e d = get_or-append es e d

frees_garbage : (es : List Entry) (i : ℕ) → get_or es i null ≡ garbage → sl_free es ≡ undefined
unfolding sl_free
frees_garbage [] i e = cc
frees_garbage (string s ∷ es) zero e = cc
frees_garbage (null ∷ es) zero e = cc
frees_garbage (garbage ∷ es) i e = refl
frees_garbage (string s ∷ es) (suc i) e = rw (frees_garbage es i e) refl
frees_garbage (null ∷ es) (suc i) e = frees_garbage es i e

moved_last :
    (es : List Entry) (k : ℕ)
    → 0 < length es
    → k ≡ length es
    → moved (es ++ garbage ∷ []) (length es) k ≡ garbage
unfolding moved
moved_last es k pos is =
    let whole : leb (8 * (length es + 1)) (length es) ≡ false = ground arith in
    let part : ltb (8 * length es) (length es) ≡ false = ground arith in
    rw (is, whole, part) (get_or-append es garbage garbage)

-- To insert at the head of a list that is not empty leaves the new last entry as malloc gave it, so
-- that freeing the list is undefined: memmove is called with its arguments swapped, and a count of
-- entries in place of bytes.
pub sl_free-sl_insert :
    (es : List Entry) (s : Option (List ℕ)) → 0 < length es → sl_free (sl_insert es s) ≡ undefined
unfolding sl_insert insert
sl_free-sl_insert es s pos =
    let n = length es in
    let grown = es ++ garbage ∷ [] in
    let size : length grown ≡ n + 1 = length-append es (garbage ∷ []) in
    let body = moved_from grown n (length grown) 0 in
    let room = length-moved_from grown n (length grown) 0 in
    let last : get_or body n null ≡ garbage =
      get_or-moved_from grown n (length grown) 0 n (omega (arith, size))
      ∙ moved_last es (0 + n) pos (omega arith) in
    let later : (n == 0) ≡ false = ground arith in
    frees_garbage (set body 0 (copy s)) n
      (get_or-set body 0 n (copy s) null (omega (arith, size, room)) ∙ (rw later last))
